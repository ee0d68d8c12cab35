-- ===== src/Simulator/Invariant/Frames.antt =====
-- What marking and encoding make of one frame.
use stiebel_eltron_heatpump.Prelude.{
  arith, ◌≡◌, refl, sym, ◌∙◌, ap, subst, ℕ, zero, suc, ◌+◌, ◌≤◌, [], ◌∷◌, set, true, ltb, ◌==◌, inl,
  inr, Bool-cases, ℤ, if◌then◌else◌, get_elem?,
}
use stiebel_eltron_heatpump.Errors.{ok, ◌>>=◌, chain-ok, ok-injective, or_index_error}
use stiebel_eltron_heatpump.Models.{FloatOps, Value, bool, int, float, ChannelDefinition}
use stiebel_eltron_heatpump.Protocol.Frame.{
  Bytes, header_start, header_check, verify_header, calculate_checksum,
}
use stiebel_eltron_heatpump.Protocol.Number.{store, short_to_bytes, set_bit}
use stiebel_eltron_heatpump.Protocol.Encode.{scaled_to_raw}
use stiebel_eltron_heatpump.Simulator.{mark_get}
use stiebel_eltron_heatpump.Simulator.Seeding.{encode_short, encode}
use stiebel_eltron_heatpump.Simulator.Seeding.Laws.{header_check-mark_get}

-- A frame of five bytes or more that begins with the header start and the mark.
abbrev pub IsMarked : ℕ → Bytes → Type 0
IsMarked mark frame =
    (c : ℕ) × (d : ℕ) × (e : ℕ) × (rest : Bytes) × (frame ≡ header_start ∷ mark ∷ c ∷ d ∷ e ∷ rest)

-- What is put at place 3 or behind it leaves the beginning.
set-IsMarked :
    (mark v p : ℕ) (frame : Bytes) → IsMarked mark frame → 3 ≤ p → IsMarked mark (set frame p v)
set-IsMarked mark v zero frame m far = absurd (omega arith)
set-IsMarked mark v (suc zero) frame m far = absurd (omega arith)
set-IsMarked mark v (suc (suc zero)) frame m far = absurd (omega arith)
set-IsMarked mark v (suc (suc (suc zero))) frame (c, d, e, rest, is) far =
    (c, v, e, rest, ap (λ x. set x 3 v) is)
set-IsMarked mark v (suc (suc (suc (suc zero)))) frame (c, d, e, rest, is) far =
    (c, d, v, rest, ap (λ x. set x 4 v) is)
set-IsMarked mark v (suc (suc (suc (suc (suc q))))) frame (c, d, e, rest, is) far =
    (c, d, e, set rest q v, ap (λ x. set x (suc (suc (suc (suc (suc q))))) v) is)

pub store-set :
    (frame frame' : Bytes) (p v : ℕ) → store frame p v ≡ ok frame' → set frame p v ≡ frame'
unfolding store
store-set frame frame' p v h = ground arith

pub store-IsMarked :
    (mark v p : ℕ) (frame frame' : Bytes)
    → store frame p v ≡ ok frame'
    → IsMarked mark frame
    → 3 ≤ p
    → IsMarked mark frame'
store-IsMarked mark v p frame frame' h m far =
    subst (IsMarked mark) (store-set frame frame' p v h) (set-IsMarked mark v p frame m far)

-- Marking gives a frame that passes the header check.
pub mark_get-checked :
    (mark : ℕ) (frame frame' : Bytes)
    → mark_get frame ≡ ok frame'
    → IsMarked mark frame
    → header_check frame' ≡ true
mark_get-checked mark frame frame' h (c, d, e, rest, is) =
    let (f, marked, checked) = header_check-mark_get mark c d e rest in
    let same : f ≡ frame' = ok-injective (sym marked ∙ (ap mark_get (sym is) ∙ h)) in
    ap header_check (sym same) ∙ checked

-- What passes the header check begins with a header start and has five bytes.
pub header_check-IsMarked :
    (frame : Bytes) → header_check frame ≡ true → (mark : ℕ) × IsMarked mark frame
unfolding header_check verify_header calculate_checksum
header_check-IsMarked [] h = cc
header_check-IsMarked (a ∷ []) h = cc
header_check-IsMarked (a ∷ b ∷ []) h = cc
header_check-IsMarked (a ∷ b ∷ c ∷ []) h = cc
header_check-IsMarked (a ∷ b ∷ c ∷ d ∷ []) h = absurd (ground arith)
header_check-IsMarked (a ∷ b ∷ c ∷ d ∷ e ∷ rest) h =
    let start : a ≡ header_start = ground arith in
    (b, (c, d, e, rest, ap (λ x. x ∷ b ∷ c ∷ d ∷ e ∷ rest) start))

module _ {F : Type 0} (ops : FloatOps F) (r : ChannelDefinition F) (behind : 3 ≤ r.position) where
  encode_short-IsMarked :
      (mark : ℕ) (frame frame' : Bytes) (n : ℤ)
      → encode_short frame n r ≡ ok frame'
      → IsMarked mark frame
      → IsMarked mark frame'
  unfolding encode_short
  encode_short-IsMarked mark frame frame' n h m = elim (Bool-cases (r.length == 1)) [
    | inl one ↦
        store-IsMarked mark (short_to_bytes n).0 r.position frame frame'
          (sym (rw (encode_short, one) refl) ∙ h) m behind
    | inr more ↦ elim (Bool-cases (r.length == 2)) [
      | inl two ↦
          let h' : (do
            written ← store frame r.position (short_to_bytes n).1
            store written (r.position + 1) (short_to_bytes n).0)
              ≡ ok frame' =
            sym (rw (encode_short, more, two) refl) ∙ h in
          let (written, e, h1) = chain-ok _ (store frame r.position (short_to_bytes n).1) h' in
          store-IsMarked mark (short_to_bytes n).0 (r.position + 1) written frame' h1
            (store-IsMarked mark (short_to_bytes n).1 r.position frame written e m behind)
            (omega arith)
      | inr four ↦
          subst (IsMarked mark) (ok-injective (sym (rw (encode_short, more, four) refl) ∙ h)) m
    ]
  ]

  pub encode-IsMarked :
      (mark : ℕ) (frame frame' : Bytes) (value : Value F)
      → encode ops frame r value ≡ ok frame'
      → IsMarked mark frame
      → IsMarked mark frame'
  unfolding encode
  encode-IsMarked mark frame frame' (int n) h m = encode_short-IsMarked mark frame frame' n h m
  encode-IsMarked mark frame frame' (float x) h m =
      let (n, e, h1) = chain-ok _ (scaled_to_raw ops x r.scale) h in
      encode_short-IsMarked mark frame frame' n h1 m
  encode-IsMarked mark frame frame' (bool b) h m = elim (Bool-cases (ltb 0 r.bit_position)) [
    | inl bit ↦
        let (old, e, h1) =
          chain-ok (λ old. store frame r.position (set_bit old r.bit_position b))
            (or_index_error (get_elem? frame r.position)) (sym (rw (encode, bit) refl) ∙ h) in
        store-IsMarked mark (set_bit old r.bit_position b) r.position frame frame' h1 m behind
    | inr whole ↦
        store-IsMarked mark (if b then 1 else 0) r.position frame frame'
          (sym (rw (encode, whole) refl) ∙ h) m behind
  ]
