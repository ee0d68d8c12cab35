-- ===== src/Protocol/Connector/Receive.antt =====
-- `_receive_data` gives the frame that the device sends.
use stiebel_eltron_heatpump.Prelude.{
  ==_ne, length-replicate, some, none, ap₂, ℕ, zero, suc, ◌+◌, ◌<◌, ◌≤◌, ◌≡◌, refl, sym, ap, ◌∙◌,
  [], ◌∷◌, ◌++◌, append_assoc, append-nil, take, take-set, take-append, set, length, length-set,
  length-append, length-take_le, arith, ◌==◌, true, false,
}
use stiebel_eltron_heatpump.Errors.{ok}
use stiebel_eltron_heatpump.Protocol.Frame.{
  Bytes, escape_bytes, is_frame_end_at, fix_duplicated_bytes,
}
use stiebel_eltron_heatpump.Protocol.Frame.Escaping.{
  length-escape_bytes, length-framed, fix-add_duplicated_bytes, add_duplicated_bytes-framed, framed,
  IsPlain,
}
use stiebel_eltron_heatpump.Protocol.Frame.Footer.{is_frame_end-escaped}
use stiebel_eltron_heatpump.Protocol.Frame.Prefix.{is_frame_end_at-prefix}
use stiebel_eltron_heatpump.Protocol.Transport.{
  Delivers-nil, Transport, Delivers, done, byte, pause,
}
use stiebel_eltron_heatpump.Protocol.Connector.{
  frame_complete, receive_loop, receive_data, received, num_read, input_buffer_length, empty_buffer,
  max_retry,
}

num_read-suc : (room : ℕ) → suc room ≤ 1024 → num_read room ≡ suc (num_read (suc room))
num_read-suc room h = omega arith

-- What the device sends.
abbrev wire : ℕ → ℕ → Bytes → Bytes
wire h0 h1 middle = framed h0 h1 (escape_bytes middle)

module _ (h0 h1 : ℕ) (middle : Bytes) (plain0 : IsPlain h0) (plain1 : IsPlain h1)
    (some_payload : 0 < length middle) where
  -- The buffer holds what has come, and the bytes still to come fit behind it.
  record Filling (room : ℕ) (buffer coming : Bytes) : Type 0 where
    buffer_length : length buffer ≡ input_buffer_length
    split : take (num_read room) buffer ++ coming ≡ wire h0 h1 middle
    room_le : room ≤ input_buffer_length
    coming_le : length coming ≤ room

  -- One more byte.
  Filling-set :
      (room : ℕ) (buffer coming : Bytes) (b : ℕ)
      → Filling (suc room) buffer (b ∷ coming)
      → Filling room (set buffer (num_read (suc room)) b) coming
  Filling-set room buffer coming b f =
      let n = num_read (suc room) in
      let e : num_read room ≡ suc n = num_read-suc room f.room_le in
      let filled : take (num_read room) (set buffer n b) ≡ take n buffer ++ b ∷ [] =
        rw e (take-set n buffer b (omega (arith, f.buffer_length, f.room_le))) in
      record {
        buffer_length = length-set buffer n b ∙ f.buffer_length;
        split =
            ap (λ (xs : Bytes). xs ++ coming) filled
            ∙ append_assoc (take n buffer) (b ∷ []) coming
            ∙ f.split;
        room_le = omega (arith, f.room_le);
        coming_le = omega (arith, f.coming_le);
      }

  -- The footer test after a byte: it succeeds when nothing more is to come.
  is_frame_end-Filling :
      (room : ℕ) (buffer coming : Bytes)
      → Filling room buffer coming
      → (is_frame_end_at buffer (num_read room) ≡ (length coming == 0))
        × (num_read room + length coming ≡ length (wire h0 h1 middle))
  is_frame_end-Filling room buffer coming f =
      let n = num_read room in
      let w = wire h0 h1 middle in
      let taken = length-take_le n buffer (omega (arith, f.buffer_length)) in
      let total : n + length coming ≡ length w =
        omega (arith, taken, ap length f.split, length-append (take n buffer) coming) in
      let same : take n buffer ≡ take n w =
        sym (take-append n (take n buffer) coming (sym taken)) ∙ ap (take n) f.split in
      (
        is_frame_end_at-prefix n buffer w same
            ∙ is_frame_end-escaped h0 h1 middle n plain0.0 plain1.0 (omega (arith, total))
            ∙ ground (arith, total),
        total,
      )

  received-Filling :
      (room : ℕ) (buffer : Bytes)
      → Filling room buffer []
      → received room buffer ≡ framed h0 h1 middle
  unfolding received
  received-Filling room buffer f =
      ap fix_duplicated_bytes (sym (append-nil _) ∙ f.split)
      ∙ ap fix_duplicated_bytes (sym (add_duplicated_bytes-framed h0 h1 middle))
      ∙ fix-add_duplicated_bytes h0 h1 middle plain0 plain1

frame_complete-false :
    (buffer : Bytes) (n : ℕ) → is_frame_end_at buffer n ≡ false → frame_complete buffer n ≡ false
unfolding frame_complete
frame_complete-false buffer n h = ground arith

frame_complete-true :
    (buffer : Bytes) (n : ℕ)
    → 4 < n
    → is_frame_end_at buffer n ≡ true
    → frame_complete buffer n ≡ true
unfolding frame_complete
frame_complete-true buffer n long h = ground arith

-- One round of the loop.
module _ (t : Transport) (retries room : ℕ) (buffer : Bytes) {s s' : t.State} where
  receive_loop-pause :
      t.get s ≡ (none, s')
      → receive_loop t (suc retries) (suc room) buffer s
        ≡ receive_loop t retries (suc room) buffer s'
  unfolding receive_loop
  receive_loop-pause e = rw e

  receive_loop-last :
      (b : ℕ)
      → t.get s ≡ (some b, s')
      → frame_complete (set buffer (num_read (suc room)) b) (num_read room) ≡ true
      → receive_loop t (suc retries) (suc room) buffer s
        ≡ (ok (received room (set buffer (num_read (suc room)) b)), s')
  unfolding receive_loop
  receive_loop-last b e test = ground arith

  receive_loop-next :
      (b : ℕ)
      → t.get s ≡ (some b, s')
      → frame_complete (set buffer (num_read (suc room)) b) (num_read room) ≡ false
      → receive_loop t (suc retries) (suc room) buffer s
        ≡ receive_loop t (suc retries) room (set buffer (num_read (suc room)) b) s'
  unfolding receive_loop
  receive_loop-next b e test = ground arith

module _ (t : Transport) (last : t.State) (h0 h1 : ℕ) (middle : Bytes) (plain0 : IsPlain h0)
    (plain1 : IsPlain h1) (some_payload : 0 < length middle) where
  length-wire : 4 < length (wire h0 h1 middle)
  length-wire =
      omega
        (arith, length-framed h0 h1 (escape_bytes middle), length-escape_bytes middle, some_payload)

  abbrev Holds : ℕ → Bytes → Bytes → Type 0
  Holds = Filling h0 h1 middle plain0 plain1 some_payload

  receive_loop-Filling :
      (retries room : ℕ) (buffer coming : Bytes) (s : t.State) (timeouts : ℕ)
      → Delivers t last s timeouts coming
      → timeouts < retries
      → 0 < length coming
      → Holds room buffer coming
      → receive_loop t retries room buffer s ≡ (ok (framed h0 h1 middle), last)
  receive_loop-Filling zero room buffer coming s n d few more f = elim few [ ]
  receive_loop-Filling (suc retries) zero buffer coming s n d few more f =
      absurd (omega (arith, f.coming_le))
  receive_loop-Filling (suc retries) (suc room) buffer _ s _ (done e) few more f = elim more [ ]
  receive_loop-Filling (suc retries) (suc room) buffer _ s _
        (pause {s' = s'} {b = b} {n = n} {bs = bs} e d) few more f =
      receive_loop-pause t retries room buffer e
      ∙ receive_loop-Filling retries (suc room) buffer (b ∷ bs) s' n d (omega arith) more f
  receive_loop-Filling (suc retries) (suc room) buffer _ s n (byte {s' = s'} {b = b} {bs = []} e d)
        few more f =
      let g = Filling-set h0 h1 middle plain0 plain1 some_payload room buffer [] b f in
      let (ends, total) =
        is_frame_end-Filling h0 h1 middle plain0 plain1 some_payload room _ [] g in
      let long : 4 < num_read room = omega (arith, total, length-wire) in
      receive_loop-last t retries room buffer b e (frame_complete-true _ _ long ends)
      ∙ ap₂ (λ (x : Bytes) (y : t.State). (ok x, y))
          (received-Filling h0 h1 middle plain0 plain1 some_payload room _ g)
          (Delivers-nil t last s' n d)
  receive_loop-Filling (suc retries) (suc room) buffer _ s n
        (byte {s' = s'} {b = b} {bs = x ∷ xs} e d) few more f =
      let g = Filling-set h0 h1 middle plain0 plain1 some_payload room buffer (x ∷ xs) b f in
      let (ends, total) =
        is_frame_end-Filling h0 h1 middle plain0 plain1 some_payload room _ (x ∷ xs) g in
      let test : frame_complete (set buffer (num_read (suc room)) b) (num_read room) ≡ false =
        frame_complete-false (set buffer (num_read (suc room)) b) (num_read room)
          (ends ∙ ==_ne (omega arith)) in
      receive_loop-next t retries room buffer b e test
      ∙ receive_loop-Filling (suc retries) room (set buffer (num_read (suc room)) b) (x ∷ xs) s' n d
          few (omega arith) g

  -- Whatever bytes a frame carries, the frame is received whole and de-escaped, and the transport is
  -- left just behind it, if the header bytes are no escapes, the frame as sent fits into the buffer
  -- and fewer than five reads time out.
  pub receive_data-frame :
      (s : t.State) (timeouts : ℕ)
      → Delivers t last s timeouts (framed h0 h1 (escape_bytes middle))
      → timeouts < max_retry
      → length (framed h0 h1 (escape_bytes middle)) ≤ input_buffer_length
      → receive_data t s ≡ (ok (framed h0 h1 middle), last)
  unfolding receive_data
  receive_data-frame s timeouts d few fits =
      receive_loop-Filling max_retry input_buffer_length empty_buffer _ s timeouts d few
        (omega arith)
        (record {
          buffer_length = length-replicate {A = ℕ} input_buffer_length 0;
          split = refl;
          room_le = omega arith;
          coming_le = fits;
        })
