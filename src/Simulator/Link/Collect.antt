-- ===== src/Simulator/Link/Collect.antt =====
-- The simulator collects an escaped frame, byte by byte, until its footer.
use stiebel_eltron_heatpump.Prelude.{
  ap₂, ℕ, ◌+◌, ◌≤◌, ◌<◌, ◌≡◌, refl, sym, ap, ◌∙◌, [], ◌∷◌, ◌++◌, append_assoc, append-nil, take,
  take-append, length, length-append, true, false, arith, ◌==◌, ==_ne,
}
use stiebel_eltron_heatpump.Errors.{ok}
use stiebel_eltron_heatpump.Protocol.Frame.{
  Bytes, data_available, escape_bytes, is_frame_end, fix_duplicated_bytes,
}
use stiebel_eltron_heatpump.Protocol.Frame.Escaping.{
  framed, IsPlain, length-framed, length-escape_bytes, add_duplicated_bytes-framed,
  fix-add_duplicated_bytes,
}
use stiebel_eltron_heatpump.Protocol.Frame.Footer.{is_frame_end-escaped}
use stiebel_eltron_heatpump.Protocol.Frame.Prefix.{is_frame_end_at-prefix}
use stiebel_eltron_heatpump.Simulator.{Simulator, Phase, collecting, await_ack}
use stiebel_eltron_heatpump.Simulator.Feed.{feed_collecting, feed_byte_in, feed_byte, feed}

-- The frame as it is sent.
abbrev pub wire : ℕ → ℕ → Bytes → Bytes
wire h0 h1 middle = framed h0 h1 (escape_bytes middle)

module _ (h0 h1 : ℕ) (middle : Bytes) (plain0 : IsPlain h0) (plain1 : IsPlain h1) where
  is_frame_end-part :
      (xs ys : Bytes) → xs ++ ys ≡ wire h0 h1 middle → is_frame_end xs ≡ (length ys == 0)
  unfolding is_frame_end
  is_frame_end-part xs ys split =
      let total : length xs + length ys ≡ length (wire h0 h1 middle) =
        omega (arith, ap length split, length-append xs ys) in
      let same : take (length xs) xs ≡ take (length xs) (wire h0 h1 middle) =
        ap (take (length xs)) (sym (append-nil xs))
        ∙ take-append (length xs) xs [] refl
        ∙ sym (take-append (length xs) xs ys refl)
        ∙ ap (take (length xs)) split in
      let here = is_frame_end-escaped h0 h1 middle (length xs) plain0.0 plain1.0 (omega arith) in
      is_frame_end_at-prefix (length xs) xs (wire h0 h1 middle) same ∙ here ∙ ground arith

  fixed_wire : fix_duplicated_bytes (wire h0 h1 middle) ≡ framed h0 h1 middle
  fixed_wire =
      ap fix_duplicated_bytes (sym (add_duplicated_bytes-framed h0 h1 middle))
      ∙ fix-add_duplicated_bytes h0 h1 middle plain0 plain1

module _ {F : Type 0} where
  feed_byte-collecting :
      (s : Simulator F) (b : ℕ)
      → s.phase ≡ collecting
      → feed_byte b s ≡ feed_collecting (s.frame_buffer ++ b ∷ []) s
  unfolding feed_byte feed_byte_in
  feed_byte-collecting s b e = ap (λ (p : Phase). feed_byte_in p b s) e

  module _ (buffer : Bytes) (s : Simulator F) where
    feed_collecting-more :
        is_frame_end buffer ≡ false
        → feed_collecting buffer s ≡ (ok [], record s { frame_buffer = buffer })
    unfolding feed_collecting
    feed_collecting-more h = ground arith

    feed_collecting-last :
        6 ≤ length buffer
        → is_frame_end buffer ≡ true
        → feed_collecting buffer s ≡ (
          ok data_available,
          record s {
            frame_buffer = buffer;
            pending = fix_duplicated_bytes buffer;
            phase = await_ack;
          },
        )
    unfolding feed_collecting
    feed_collecting-last long h = ground arith

  pub feed-step :
      (b : ℕ) (bytes out more : Bytes) (s s' last : Simulator F)
      → feed_byte b s ≡ (ok out, s')
      → feed bytes s' ≡ (ok more, last)
      → feed (b ∷ bytes) s ≡ (ok (out ++ more), last)
  unfolding feed
  feed-step b bytes out more s s' last e f = rw (e, f)

  pub feed-nil : (s : Simulator F) → feed [] s ≡ (ok [], s)
  unfolding feed
  feed-nil s = refl

  -- The simulator, once it has the frame.
  abbrev pub with_frame : Bytes → Bytes → Simulator F → Simulator F
  with_frame buffer frame s = record s { frame_buffer = buffer; pending = frame; phase = await_ack }

  module _ (h0 h1 : ℕ) (middle : Bytes) (plain0 : IsPlain h0) (plain1 : IsPlain h1)
      (some_payload : 2 ≤ length middle) where
    pub feed-frame :
        (coming : Bytes) (s : Simulator F)
        → s.phase ≡ collecting
        → s.frame_buffer ++ coming ≡ wire h0 h1 middle
        → 0 < length coming
        → feed coming s
          ≡ (ok data_available, with_frame (wire h0 h1 middle) (framed h0 h1 middle) s)
    feed-frame [] s collects split more = elim more [ ]
    feed-frame (b ∷ []) s collects split more =
        let buffer = s.frame_buffer ++ b ∷ [] in
        let long : 6 ≤ length buffer = omega (
          arith,
          ap length split,
          length-framed h0 h1 (escape_bytes middle),
          length-escape_bytes middle,
        ) in
        let ends =
          is_frame_end-part h0 h1 middle plain0 plain1 buffer [] (append-nil buffer ∙ split) in
        let step = feed_byte-collecting s b collects ∙ feed_collecting-last buffer s long ends in
        feed-step b [] data_available [] s _ _ step (feed-nil _)
        ∙ ap₂ (λ (x y : Bytes). (ok data_available, with_frame x y s)) split
            (ap fix_duplicated_bytes split ∙ fixed_wire h0 h1 middle plain0 plain1)
    feed-frame (b ∷ x ∷ xs) s collects split more =
        let buffer = s.frame_buffer ++ b ∷ [] in
        let split' : buffer ++ x ∷ xs ≡ wire h0 h1 middle =
          append_assoc s.frame_buffer (b ∷ []) (x ∷ xs) ∙ split in
        let ends = is_frame_end-part h0 h1 middle plain0 plain1 buffer (x ∷ xs) split' in
        let step =
          feed_byte-collecting s b collects
          ∙ feed_collecting-more buffer s (ends ∙ ==_ne (omega arith)) in
        feed-step b (x ∷ xs) [] data_available s (record s { frame_buffer = buffer }) _ step
          (feed-frame (x ∷ xs) (record s { frame_buffer = buffer }) collects split' (omega arith))
