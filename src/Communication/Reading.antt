-- ===== src/Communication/Reading.antt =====
-- What `read_request` gives: only what checked responses decode to, with what each failed attempt
-- costs.
use stiebel_eltron_heatpump.Prelude.{
  ℕ, zero, suc, ◌<◌, ◌≡◌, ◌∙◌, true, false, Option, none, some, inl, inr, Bool-cases, arith,
}
use stiebel_eltron_heatpump.Errors.{
  Result, ok, err, Exn, protocol_error, is_protocol_error, read_exhausted,
}
use stiebel_eltron_heatpump.Exec.{next-ok, next}
use stiebel_eltron_heatpump.Dict.{Dict}
use stiebel_eltron_heatpump.Models.{FloatOps, Value}
use stiebel_eltron_heatpump.Config.{Request, request_bytes, request_bytes2}
use stiebel_eltron_heatpump.Protocol.Frame.{Bytes, get_mark, header_check, create_request_message}
use stiebel_eltron_heatpump.Protocol.Decode.{parse_records}
use stiebel_eltron_heatpump.Protocol.Transport.{Transport}
use stiebel_eltron_heatpump.Protocol.Connector.{get_data}
use stiebel_eltron_heatpump.Communication.{
  max_tries, message_for, restart, get_checked, read_second, read_attempt, retry, read_loop,
  read_request,
}

module _ (t : Transport) {F : Type 0} (ops : FloatOps F) (request : Request F) where
  -- This many attempts fail with a protocol error, and the connection comes up again after each.
  pub data Fails (last : t.State) : t.State → ℕ → Type 0 where
    no_more : {s : t.State} → s ≡ last → Fails last s zero
    again :
        {s s1 s2 : t.State} {e : Exn} {n : ℕ}
        → read_attempt t ops request s ≡ (err e, s1)
        → is_protocol_error e ≡ true
        → restart t ops s1 ≡ (ok tt, s2)
        → Fails last s2 n
        → Fails last s (suc n)

  -- The values are what one or two responses decode to that passed the header check.
  pub data IsDecoded (values : Dict (Value F)) : Type 0 where
    from_one :
        (response : Bytes)
        → header_check response ≡ true
        → request_bytes2 request ≡ ok none
        → parse_records ops response request.records none ≡ ok values
        → IsDecoded values
    from_two :
        (response response2 command2 : Bytes)
        → header_check response ≡ true
        → header_check response2 ≡ true
        → request_bytes2 request ≡ ok (some command2)
        → parse_records ops response request.records (some response2) ≡ ok values
        → IsDecoded values

  read_loop-again :
      (tries : ℕ) (s s1 s2 : t.State) (e : Exn)
      → read_attempt t ops request s ≡ (err e, s1)
      → is_protocol_error e ≡ true
      → restart t ops s1 ≡ (ok tt, s2)
      → read_loop t ops (suc tries) request s ≡ read_loop t ops tries request s2
  unfolding read_loop
  read_loop-again tries s s1 s2 e fails is up = rw (fails, retry, is, up)

  read_loop-ok :
      (tries n : ℕ) (s last s' : t.State) (values : Dict (Value F))
      → Fails last s n
      → n < tries
      → read_attempt t ops request last ≡ (ok values, s')
      → read_loop t ops tries request s ≡ (ok values, s')
  read_loop-ok zero n s last s' values fails few e = elim few [ ]
  read_loop-ok (suc tries) zero s last s' values (no_more h) few e = unfold read_loop in rw (h, e)
  read_loop-ok (suc tries) (suc n) s last s' values
        (again {s1 = s1} {s2 = s2} {e = x} bad is up fails) few e =
      read_loop-again tries s s1 s2 x bad is up
      ∙ read_loop-ok tries n s2 last s' values fails (omega arith) e

  read_loop-exhausted :
      (n : ℕ) (s last : t.State)
      → Fails last s n
      → read_loop t ops n request s ≡ (err (protocol_error read_exhausted), last)
  read_loop-exhausted zero s last (no_more h) = unfold read_loop in rw h
  read_loop-exhausted (suc n) s last (again {s1 = s1} {s2 = s2} {e = x} bad is up fails) =
      read_loop-again n s s1 s2 x bad is up ∙ read_loop-exhausted n s2 last fails

  -- If fewer than three attempts fail with a protocol error and the connection comes up again after
  -- each, then `read_request` gives the values of the first attempt that succeeds.
  pub read_request-ok :
      (n : ℕ) (s last s' : t.State) (values : Dict (Value F))
      → Fails last s n
      → n < max_tries
      → read_attempt t ops request last ≡ (ok values, s')
      → read_request t ops request s ≡ (ok values, s')
  unfolding read_request
  read_request-ok n s last s' values fails few e =
      read_loop-ok max_tries n s last s' values fails few e

  -- If three attempts fail with a protocol error and the connection comes up again after each,
  -- then `read_request` raises a protocol error, and does not try a fourth time.
  pub read_request-exhausted :
      (s last : t.State)
      → Fails last s max_tries
      → read_request t ops request s ≡ (err (protocol_error read_exhausted), last)
  unfolding read_request
  read_request-exhausted s last fails = read_loop-exhausted max_tries s last fails

  -- An attempt of a request with one command gives what the checked response decodes to.
  pub read_attempt-one :
      (message response : Bytes) (values : Dict (Value F)) (s s' : t.State)
      → message_for (request_bytes request) ≡ ok message
      → request_bytes2 request ≡ ok none
      → get_data t message s ≡ (ok response, s')
      → header_check response ≡ true
      → parse_records ops response request.records none ≡ ok values
      → read_attempt t ops request s ≡ (ok values, s')
  unfolding read_attempt get_checked read_second
  read_attempt-one message response values s s' m one g c e = rw (m, g, c, one, e)

  get_checked-ok :
      (message response : Bytes) (s s' : t.State)
      → get_checked t ops message s ≡ (ok response, s')
      → header_check response ≡ true
  unfolding get_checked
  get_checked-ok message response s s' h =
      let (r, s1, _, e) = next-ok _ (get_data t message s) h in
      elim (Bool-cases (header_check r)) [ inl good ↦ cc | inr bad ↦ cc ]

  read_second-ok :
      (response : Bytes) (second : Option Bytes) (s s' : t.State) (values : Dict (Value F))
      → header_check response ≡ true
      → request_bytes2 request ≡ ok second
      → read_second t ops request response second s ≡ (ok values, s')
      → IsDecoded values
  unfolding read_second
  read_second-ok response none s s' values checked e h = from_one response checked e cc
  read_second-ok response (some command2) s s' values checked e h =
      let (message2, s1, _, h1) = next-ok _ (create_request_message command2 get_mark, s) h in
      let (response2, s2, got, h2) = next-ok _ (get_checked t ops message2 s1) h1 in
      from_two response response2 command2 checked (get_checked-ok message2 response2 s1 s2 got) e
        cc

  read_attempt-ok :
      (s s' : t.State) (values : Dict (Value F))
      → read_attempt t ops request s ≡ (ok values, s')
      → IsDecoded values
  unfolding read_attempt
  read_attempt-ok s s' values h =
      let (message, s1, _, h1) = next-ok _ (message_for (request_bytes request), s) h in
      let (response, s2, got, h2) = next-ok _ (get_checked t ops message s1) h1 in
      let (second, s3, e, h3) = next-ok _ (request_bytes2 request, s2) h2 in
      read_second-ok response second s3 s' values (get_checked-ok message response s1 s2 got) (cc)
        h3

  module _ (again_ : t.State → Result (Dict (Value F)) × t.State) (e : Exn) (s : t.State) where
    retry-again :
        is_protocol_error e ≡ true
        → retry t ops again_ (err e, s) ≡ next (λ _. again_) (restart t ops s)
    retry-again h = rw (retry, h)

    retry-raise : is_protocol_error e ≡ false → retry t ops again_ (err e, s) ≡ (err e, s)
    retry-raise h = rw (retry, h)

  retry-ok :
      (again_ : t.State → Result (Dict (Value F)) × t.State) (p : Result (Dict (Value F)) × t.State)
      (s' : t.State) (values : Dict (Value F))
      → ((s : t.State) → again_ s ≡ (ok values, s') → IsDecoded values)
      → ((s : t.State) → p ≡ (ok values, s) → IsDecoded values)
      → retry t ops again_ p ≡ (ok values, s')
      → IsDecoded values
  retry-ok again_ (ok d, s) s' values later now h = now s (cc)
  retry-ok again_ (err e, s) s' values later now h = elim (Bool-cases (is_protocol_error e)) [
    | inl good ↦
        let (u, s1, _, h1) =
          next-ok (λ _. again_) (restart t ops s) (cc (retry-again again_ e s good)) in
        later s1 h1
    | inr bad ↦ cc (retry-raise again_ e s bad)
  ]

  read_loop_sound :
      (tries : ℕ) (s s' : t.State) (values : Dict (Value F))
      → read_loop t ops tries request s ≡ (ok values, s')
      → IsDecoded values
  unfolding read_loop
  read_loop_sound zero s s' values h = cc
  read_loop_sound (suc tries) s s' values h =
      retry-ok (read_loop t ops tries request) (read_attempt t ops request s) s' values
        (λ s1. read_loop_sound tries s1 s' values) (λ s1. read_attempt-ok s s1 values) h

  -- Values that `read_request` returns are what `parse_records` makes of a response that passed the
  -- header check, or of two such responses where the request has a second command.
  pub read_request_sound :
      (s s' : t.State) (values : Dict (Value F))
      → read_request t ops request s ≡ (ok values, s')
      → IsDecoded values
  unfolding read_request
  read_request_sound s s' values h = read_loop_sound max_tries s s' values h
