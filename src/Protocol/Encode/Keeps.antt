-- ===== src/Protocol/Encode/Keeps.antt =====
-- A composed frame is well formed, and the channels outside the record's slot keep their values.
use stiebel_eltron_heatpump.Prelude.{
  ℕ, ◌+◌, ◌<◌, ◌≤◌, ◌≡◌, ap, ◌∙◌, sym, ℤ, ◌∷◌, length, get_elem?, set, get_elem?-set_ne,
  get_elem?-in_bounds, length-set, arith, Bool-cases, true, ◌⊎◌, inl, inr,
}
use stiebel_eltron_heatpump.Errors.{Result-cases, ok-injective, ok}
use stiebel_eltron_heatpump.Models.{FloatOps, ChannelDefinition, Value, bool, int, float}
use stiebel_eltron_heatpump.Protocol.Frame.{Bytes, header_start, set_mark, header_check}
use stiebel_eltron_heatpump.Protocol.Frame.Escaping.{framed}
use stiebel_eltron_heatpump.Protocol.Number.{short_to_bytes}
use stiebel_eltron_heatpump.Protocol.Decode.{as_invalid_data, parse_record}
use stiebel_eltron_heatpump.Protocol.Decode.Slot.{slot_value, parse_record-framed}
use stiebel_eltron_heatpump.Protocol.Encode.{compose_record, out_of_range, scaled_to_raw}
use stiebel_eltron_heatpump.Protocol.Encode.Shape.{
  set_frame, put_number, compose_record-int, compose_record-float, compose_record-bool, bool_byte,
  compose_record-out_of_range, compose_record-no_raw,
}
use stiebel_eltron_heatpump.Protocol.Encode.RoundTrip.{header_check-set_frame}

-- Place `i` is not one of the `size` places from `p` on.
abbrev pub Outside : ℕ → ℕ → ℕ → Type 0
Outside p size i = (i < p) ⊎ (p + size ≤ i)

-- `new` has the length of `old`, and differs from it in the slot at most.
pub record SameOutside (p size : ℕ) (old new : Bytes) : Type 0 where
  pub same_length : length new ≡ length old
  pub same_bytes : (i : ℕ) → Outside p size i → get_elem? new i ≡ get_elem? old i

SameOutside-set : (p size v : ℕ) (old : Bytes) → 0 < size → SameOutside p size old (set old p v)
SameOutside-set p size v old h = record {
  same_length = length-set old p v;
  same_bytes = λ i out. get_elem?-set_ne old p i v (omega arith);
}

SameOutside-put_number :
    (p size : ℕ) (n : ℤ) (old : Bytes) → SameOutside p size old (put_number old p size n)
SameOutside-put_number p size n old = record {
  same_length =
      let (low, high) = short_to_bytes n in
      ground (
        arith,
        length-set old p low,
        length-set old p high,
        length-set (set old p high) (p + 1) low,
      );
  same_bytes = λ i out.
      let (low, high) = short_to_bytes n in
      ground (
        arith,
        get_elem?-set_ne old p i low,
        get_elem?-set_ne old p i high,
        get_elem?-set_ne (set old p high) (p + 1) i low,
      );
}

module _ {F : Type 0} (ops : FloatOps F) (r : ChannelDefinition F) (h0 h1 c : ℕ) (payload : Bytes)
    (p : ℕ) (slot : r.position ≡ p + 3) (long : 0 < r.length)
    (fits : p + r.length ≤ length payload) where
  -- The frame that comes out for any value.
  compose_record-shape :
      (value : Value F) (frame : Bytes)
      → compose_record ops value (framed h0 h1 (c ∷ payload)) r ≡ ok frame
      → (payload' : Bytes) × (frame ≡ set_frame h0 payload')
        × SameOutside p r.length payload payload'
  compose_record-shape (bool b) frame h =
      let (old, old_is) = get_elem?-in_bounds payload p (omega arith) in
      let v = bool_byte r old b in
      (
        set payload p v,
        ok-injective
            (sym h ∙ compose_record-bool ops r h0 h1 c payload p slot fits b old long old_is),
        SameOutside-set p r.length v payload long,
      )
  compose_record-shape (int n) frame h = elim (Bool-cases (out_of_range ops (int n) r)) [
    | inl outside ↦ cc (h, compose_record-out_of_range ops r (int n) h0 h1 (c ∷ payload) outside)
    | inr inside ↦ (
      put_number payload p r.length n,
      ok-injective (sym h ∙ compose_record-int ops r h0 h1 c payload p slot fits n inside),
      SameOutside-put_number p r.length n payload,
    )
  ]
  compose_record-shape (float x) frame h = elim (Bool-cases (out_of_range ops (float x) r)) [
    | inl outside ↦ cc (h, compose_record-out_of_range ops r (float x) h0 h1 (c ∷ payload) outside)
    | inr inside ↦ elim (Result-cases (scaled_to_raw ops x r.scale)) [
      | inl (n, rounded) ↦ (
        put_number payload p r.length n,
        ok-injective
            (sym h ∙ compose_record-float ops r h0 h1 c payload p slot fits x n inside rounded),
        SameOutside-put_number p r.length n payload,
      )
      | inr (e, failed) ↦ cc (h, compose_record-no_raw ops r x h0 h1 (c ∷ payload) e inside failed)
    ]
  ]

-- A slot is read from its own bytes only.
slot_value-cong :
    {F : Type 0} (ops : FloatOps F) (r : ChannelDefinition F) (p : ℕ) (old new : Bytes)
    → ((k : ℕ) → k < r.length → get_elem? new (p + k) ≡ get_elem? old (p + k))
    → slot_value ops new p r ≡ slot_value ops old p r
slot_value-cong ops r p old new same =
    let first : 0 < r.length → get_elem? new p ≡ get_elem? old p =
      λ h. let e : p + 0 ≡ p = omega arith in rw e at (same 0 h) in
    ground (arith, first, same 1, same 2, same 3)

module _ {F : Type 0} (ops : FloatOps F) (r r' : ChannelDefinition F) (h1 c : ℕ) (payload : Bytes)
    (p p' : ℕ) (value : Value F) (frame : Bytes) where
  -- Whatever value is composed into a frame, the result passes the header check, and each record
  -- whose place in the payload does not overlap reads the same before and after.
  pub compose_record_keeps :
      r.position ≡ p + 3
      → 0 < r.length
      → p + r.length ≤ length payload
      → r'.position ≡ p' + 3
      → p' + r'.length ≤ length payload
      → (p' + r'.length ≤ p) ⊎ (p + r.length ≤ p')
      → compose_record ops value (framed header_start h1 (c ∷ payload)) r ≡ ok frame
      → (header_check frame ≡ true)
        × (parse_record ops frame r' ≡ parse_record ops (framed header_start h1 (c ∷ payload)) r')
  compose_record_keeps slot long fits slot' fits' apart done =
      let (payload', e, same) =
        compose_record-shape ops r header_start h1 c payload p slot long fits value frame done in
      let cong =
        slot_value-cong ops r' p' payload payload'
          (λ k h. same.same_bytes (p' + k) (omega (arith, apart))) in
      rw e (
        header_check-set_frame payload',
        parse_record-framed ops r' header_start set_mark _ payload' p' slot'
              (omega (arith, same.same_length))
            ∙ ap as_invalid_data cong
            ∙ sym (parse_record-framed ops r' header_start h1 c payload p' slot' fits'),
      )
