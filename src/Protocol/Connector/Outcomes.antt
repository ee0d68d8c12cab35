-- ===== src/Protocol/Connector/Outcomes.antt =====
-- What the connector gives whatever the device sends, and whenever it is silent.
use stiebel_eltron_heatpump.Prelude.{
  ℕ, zero, suc, ◌-◌, ◌≤◌, ◌≡◌, refl, [], ◌∷◌, length, take, length-append, Option, none, some, Bool,
  true, false, inl, inr, Bool-cases, ◌==◌, arith, set,
}
use stiebel_eltron_heatpump.Errors.{
  Exn, Result, ok, err, protocol_error, not_established, no_escape, too_much_data,
}
use stiebel_eltron_heatpump.Exec.{or_else, ◌>>◌}
use stiebel_eltron_heatpump.Exec.Raises.{is_link_error, Within, Within-ok, Within-err, Within-next}
use stiebel_eltron_heatpump.Protocol.Frame.{
  Bytes, escape, start_communication, footer, replace_pair, fix_duplicated_bytes,
}
use stiebel_eltron_heatpump.Protocol.Transport.{Transport, Raises, opening, closing, writing}
use stiebel_eltron_heatpump.Protocol.Connector.{
  empty_buffer, on_get, num_read, received, data_ready, frame_complete, start, await_data,
  establish_loop, establish_request, receive_loop, receive_data, get_data, input_buffer_length,
  max_retry,
}

-- A link error, or what a call of the transport itself raises.
pub data Fails (t : Transport) (e : Exn) : Type 0 where
  link : is_link_error e ≡ true → Fails t e
  raised : Raises t e → Fails t e

module _ (t : Transport) where
  pub opens-Fails : (s : t.State) → Within (Fails t) (t.open_link s).0
  opens-Fails s e h = raised (opening s h)

  pub closes-Fails : (s : t.State) → Within (Fails t) (t.close_link s).0
  closes-Fails s e h = raised (closing s h)

  writes-Fails : (bytes : Bytes) (s : t.State) → Within (Fails t) (t.write bytes s).0
  writes-Fails bytes s e h = raised (writing bytes s h)

length-replace_pair : (a b : ℕ) (bytes : Bytes) → length (replace_pair a b bytes) ≤ length bytes
unfolding replace_pair
length-replace_pair a b [] = omega arith
length-replace_pair a b (x ∷ []) = omega arith
length-replace_pair a b (x ∷ y ∷ rest) =
    ground (arith, length-replace_pair a b rest, length-replace_pair a b (y ∷ rest))

length-take : (n : ℕ) (bytes : Bytes) → length (take n bytes) ≤ n
length-take zero bytes = ground arith
length-take (suc n) [] = ground arith
length-take (suc n) (b ∷ bytes) = omega (arith, length-take n bytes)

-- De-escaping makes no frame longer.
length-fix_duplicated_bytes : (frame : Bytes) → length (fix_duplicated_bytes frame) ≤ length frame
unfolding fix_duplicated_bytes
length-fix_duplicated_bytes frame =
    let body = take (length frame - 2) frame in
    let inner = replace_pair 0x10 0x10 body in
    ground (
      arith,
      length-append (replace_pair 0x2B 0x18 inner) footer,
      length-replace_pair 0x2B 0x18 inner,
      length-replace_pair 0x10 0x10 body,
      length-take (length frame - 2) frame,
    )

length-received : (room : ℕ) (buffer : Bytes) → length (received room buffer) ≤ input_buffer_length
unfolding received
length-received room buffer = omega (
  arith,
  length-fix_duplicated_bytes (take (num_read room) buffer),
  length-take (num_read room) buffer,
)

-- What holds after a timeout and after each byte holds after a `get`.
after_get {ℓ κ μ} :
    {S : Type ℓ} {R : Type κ} (P : R → Type μ) (o : Option ℕ × S) (timeout : S → R)
    (got : ℕ → S → R)
    → ((s : S) → P (timeout s))
    → ((b : ℕ) (s : S) → P (got b s))
    → P (on_get o timeout got)
after_get P (none, s) timeout got f g = f s
after_get P (some b, s) timeout got f g = g b s

-- The outcome of `_receive_data`: at most a buffer's length of bytes, or the error of the full
-- buffer.
pub data IsReceived (r : Result Bytes) : Type 0 where
  bounded : (bytes : Bytes) → r ≡ ok bytes → length bytes ≤ input_buffer_length → IsReceived r
  too_much : r ≡ err (protocol_error too_much_data) → IsReceived r

module _ (t : Transport) where
  abbrev Received : Result Bytes × t.State → Type 0
  Received p = IsReceived p.0

  receive_loop-IsReceived :
      (retries room : ℕ) (buffer : Bytes) (s : t.State)
      → IsReceived (receive_loop t retries room buffer s).0
  unfolding receive_loop
  receive_loop-IsReceived zero room buffer s =
      bounded (received room buffer) refl (length-received room buffer)
  receive_loop-IsReceived (suc retries) zero buffer s =
      after_get Received (t.get s) (λ s'. receive_loop t retries zero buffer s') _
        (λ s'. receive_loop-IsReceived retries zero buffer s') (λ b s'. too_much refl)
  receive_loop-IsReceived (suc retries) (suc room) buffer s =
      after_get Received (t.get s) (λ s'. receive_loop t retries (suc room) buffer s') _
        (λ s'. receive_loop-IsReceived retries (suc room) buffer s')
        (λ single s'.
          let buffer' = set buffer (num_read (suc room)) single in
          elim (Bool-cases (frame_complete buffer' (num_read room))) [
            | inl is ↦ rw is (bounded (received room buffer') refl (length-received room buffer'))
            | inr other ↦ rw other (receive_loop-IsReceived (suc retries) room buffer' s')
          ])

  -- Whatever the device sends and whenever it is silent, receiving a frame ends with a frame that is
  -- no longer than the buffer or with the protocol error of too much data, and with nothing else.
  pub receive_data-IsReceived : (s : t.State) → IsReceived (receive_data t s).0
  unfolding receive_data
  receive_data-IsReceived s = receive_loop-IsReceived max_retry input_buffer_length empty_buffer s

  start-Fails : (s : t.State) → Within (Fails t) (start t s).0
  unfolding start
  start-Fails s =
      Within-next (Fails t) _ (t.write (start_communication ∷ []) s)
        (writes-Fails t (start_communication ∷ []) s)
        (λ u s1 e.
          after_get (λ (p : Result (Unit {0}) × t.State). Within (Fails t) p.0) (t.get s1) _ _
            (λ s'.
              Within-err (Fails t) (protocol_error not_established)
                (link (unfold is_link_error in refl)))
            (λ response s'. elim (Bool-cases (response == escape)) [
              | inl is ↦ rw is (Within-ok (Fails t) tt)
              | inr other ↦ rw other (
                  Within-err (Fails t) (protocol_error no_escape)
                    (link (unfold is_link_error in refl)))
            ]))

  await_data-Fails :
      (retries room : ℕ) (buffer : Bytes) (s : t.State)
      → Within (Fails t) (await_data t retries room buffer s).0
  unfolding await_data
  await_data-Fails zero room buffer s = Within-ok (Fails t) (false, buffer)
  await_data-Fails (suc retries) zero buffer s =
      after_get (λ (p : Result (Bool × Bytes) × t.State). Within (Fails t) p.0) (t.get s)
        (λ s'. await_data t retries zero buffer s') _
        (λ s'. await_data-Fails retries zero buffer s')
        (λ b s'.
          Within-err (Fails t) (protocol_error too_much_data) (link (unfold is_link_error in refl)))
  await_data-Fails (suc retries) (suc room) buffer s =
      after_get (λ (p : Result (Bool × Bytes) × t.State). Within (Fails t) p.0) (t.get s)
        (λ s'. await_data t retries (suc room) buffer s') _
        (λ s'. await_data-Fails retries (suc room) buffer s')
        (λ single s'.
          let buffer' = set buffer (num_read (suc room)) single in
          elim (Bool-cases (data_ready buffer')) [
            | inl is ↦ rw is (Within-ok (Fails t) (true, buffer'))
            | inr other ↦ rw other (await_data-Fails (suc retries) room buffer' s')
          ])

  establish_loop-Fails :
      (attempts : ℕ) (message buffer : Bytes) (s : t.State)
      → Within (Fails t) (establish_loop t attempts message buffer s).0
  unfolding establish_loop
  establish_loop-Fails zero message buffer s = Within-ok (Fails t) false
  establish_loop-Fails (suc attempts) message buffer s =
      Within-next (Fails t) _ (t.write message s) (writes-Fails t message s) (λ u s1 e.
        Within-next (Fails t) _ (await_data t max_retry input_buffer_length buffer s1)
          (await_data-Fails max_retry input_buffer_length buffer s1)
          (λ r s2 e'. elim (Bool-cases r.0) [
            | inl is ↦ rw is (Within-ok (Fails t) true)
            | inr none_ ↦ rw none_ (
                Within-next (Fails t) _ (start t s2) (start-Fails s2)
                  (λ v s3 e''. establish_loop-Fails attempts message r.1 s3))
          ]))

  -- The end of `get_data` takes every exception.
  or_else-Fails : {A : Type 0} (a : A) (p : Result A × t.State) → Within (Fails t) (or_else a p).0
  or_else-Fails a (ok b, s) = Within-ok (Fails t) b
  or_else-Fails a (err e, s) = Within-ok (Fails t) a

  pub get_data-Fails : (message : Bytes) (s : t.State) → Within (Fails t) (get_data t message s).0
  unfolding get_data establish_request
  get_data-Fails message s = Within-next (Fails t) _ (start t s) (start-Fails s) (λ u s1 e.
      Within-next (Fails t) _ (establish_loop t max_retry message empty_buffer s1)
        (establish_loop-Fails max_retry message empty_buffer s1)
        (λ established s2 e'. elim (Bool-cases established) [
          | inl is ↦ rw is (or_else-Fails [] ((t.write (escape ∷ []) >> receive_data t) s2))
          | inr none_ ↦ rw none_ (Within-ok (Fails t) [])
        ]))
