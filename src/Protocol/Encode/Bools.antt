-- ===== src/Protocol/Encode/Bools.antt =====
-- A bool that `compose_record` writes to a record of one byte is read back, and the other bits of
-- the byte keep their values.
use stiebel_eltron_heatpump.Prelude.{
  ==_iff, ==_ne, sym, ℕ, ◌+◌, ◌<◌, ◌≡◌, ◌≢◌, refl, ap, ◌∙◌, [], ◌∷◌, length, get_elem?, set,
  get_elem?-set_self, length-set, ◌==◌, if◌then◌else◌, arith, some, Bool, true, false, ◌⊎◌, inl,
  inr, not, is_zero,
}
use stiebel_eltron_heatpump.Errors.{ok}
use stiebel_eltron_heatpump.Models.{
  FloatOps, ChannelDefinition, bool, boolean, value_kind, is_switch,
}
use stiebel_eltron_heatpump.Protocol.Frame.{Bytes, header_start, set_mark, header_check}
use stiebel_eltron_heatpump.Protocol.Frame.Escaping.{framed}
use stiebel_eltron_heatpump.Protocol.Number.{signed_byte, set_bit}
use stiebel_eltron_heatpump.Protocol.Number.Bits.{bit_at, set_bit_lem, get_bit_from_bytes-one}
use stiebel_eltron_heatpump.Protocol.Decode.{as_invalid_data, decode_number, parse_record}
use stiebel_eltron_heatpump.Protocol.Decode.Slot.{slot_value, parse_record-framed}
use stiebel_eltron_heatpump.Protocol.Decode.Kind.{decode_number-bit, decode_number-switch}
use stiebel_eltron_heatpump.Protocol.Encode.{compose_record}
use stiebel_eltron_heatpump.Protocol.Encode.Shape.{set_frame, compose_record-bool, bool_byte}
use stiebel_eltron_heatpump.Protocol.Encode.RoundTrip.{header_check-set_frame}

bit_or_switch :
    {F : Type 0} (ops : FloatOps F) (r : ChannelDefinition F)
    → value_kind ops r ≡ boolean
    → (0 < r.bit_position) ⊎ ((r.bit_position ≡ 0) × (is_switch ops r ≡ true))
unfolding value_kind
bit_or_switch ops r h = ground arith

signed_byte-bool : (b : Bool) → not (is_zero (signed_byte (if b then 1 else 0))) ≡ b
unfolding signed_byte
signed_byte-bool true = refl
signed_byte-bool false = refl

module _ {F : Type 0} (ops : FloatOps F) (r : ChannelDefinition F) (one : r.length ≡ 1) where
  -- The decoded value of the byte that a bool leaves.
  decode_number-bool_byte :
      (old : ℕ) (b : Bool)
      → old < 256
      → r.bit_position < 8
      → value_kind ops r ≡ boolean
      → decode_number ops (bool_byte r old b ∷ []) (signed_byte (bool_byte r old b)) r ≡ ok (bool b)
  decode_number-bool_byte old b small low kind = elim (bit_or_switch ops r kind) [
    | inl bit ↦
        let e : bool_byte r old b ≡ set_bit old r.bit_position b = ground arith in
        rw e (
          decode_number-bit ops r _ _ bit
          ∙ rw (get_bit_from_bytes-one (set_bit old r.bit_position b) r.bit_position low) (
              ap (λ (x : Bool). ok (bool x))
                ((set_bit_lem old r.bit_position r.bit_position b small low low).0 ∙ ground arith)))
    | inr (none_, switch) ↦
        let e : bool_byte r old b ≡ (if b then 1 else 0) = ground arith in
        rw e (
          decode_number-switch ops r _ _ none_ switch
          ∙ ap (λ (x : Bool). ok (bool x)) (signed_byte-bool b))
  ]

  -- The value at a byte that was just written.
  slot_value-set :
      (payload : Bytes) (p v : ℕ)
      → p < length payload
      → slot_value ops (set payload p v) p r ≡ decode_number ops (v ∷ []) (signed_byte v) r
  slot_value-set payload p v h = let at_p = get_elem?-set_self payload p v h in ground arith

  -- A boolean channel of one byte reads back exactly the bool that was written, whether it is a bit
  -- of the byte or the whole byte, in a frame that passes the header check.
  pub parse-compose_record-bool :
      (h1 c : ℕ) (payload : Bytes) (p old : ℕ) (b : Bool)
      → r.position ≡ p + 3
      → p < length payload
      → get_elem? payload p ≡ some old
      → old < 256
      → value_kind ops r ≡ boolean
      → r.bit_position < 8
      → (frame : Bytes) × (compose_record ops (bool b) (framed header_start h1 (c ∷ payload)) r
          ≡ ok frame)
        × (parse_record ops frame r ≡ ok (bool b))
        × (header_check frame ≡ true)
  parse-compose_record-bool h1 c payload p old b slot inside old_is small kind low =
      let v = bool_byte r old b in
      (
        set_frame header_start (set payload p v),
        compose_record-bool ops r header_start h1 c payload p slot (omega arith) b old (omega arith)
            old_is,
        parse_record-framed ops r header_start set_mark _ (set payload p v) p slot
              (omega (arith, length-set payload p v))
            ∙ ap as_invalid_data
                (slot_value-set payload p v inside ∙ decode_number-bool_byte old b small low kind),
        header_check-set_frame (set payload p v),
      )

-- A record that is one bit of the byte at place `p`.
pub record IsBitAt {F : Type 0} (r : ChannelDefinition F) (p : ℕ) : Type 0 where
  pub one_byte : r.length ≡ 1
  pub slot : r.position ≡ p + 3
  pub above : 0 < r.bit_position
  pub below : r.bit_position < 8

module _ {F : Type 0} (ops : FloatOps F) where
  parse_record-bit :
      (r : ChannelDefinition F) (h0 h1 c p v : ℕ) (payload : Bytes)
      → IsBitAt r p
      → p < length payload
      → get_elem? payload p ≡ some v
      → parse_record ops (framed h0 h1 (c ∷ payload)) r ≡ ok (bool (bit_at v r.bit_position))
  parse_record-bit r h0 h1 c p v payload bit inside is =
      let one : (r.length == 1) ≡ true = (==_iff _ _).1 bit.one_byte in
      let read : slot_value ops payload p r ≡ ok (bool (bit_at v r.bit_position)) =
        rw (one, is)
          (decode_number-bit ops r (v ∷ []) (signed_byte v) bit.above
            ∙ rw (get_bit_from_bytes-one v r.bit_position bit.below)) in
      parse_record-framed ops r h0 h1 c payload p bit.slot (omega (arith, bit.one_byte))
      ∙ ap as_invalid_data read

  -- Writing one bit of a byte leaves the channels at the other bits of the byte as they were.
  pub parse-compose_record-other_bit :
      (r r' : ChannelDefinition F) (h1 c : ℕ) (payload : Bytes) (p old : ℕ) (b : Bool)
      → IsBitAt r p
      → IsBitAt r' p
      → r.bit_position ≢ r'.bit_position
      → p < length payload
      → get_elem? payload p ≡ some old
      → old < 256
      → (frame : Bytes) × (compose_record ops (bool b) (framed header_start h1 (c ∷ payload)) r
          ≡ ok frame)
        × (parse_record ops frame r' ≡ parse_record ops (framed header_start h1 (c ∷ payload)) r')
  parse-compose_record-other_bit r r' h1 c payload p old b bit bit' differ inside old_is small =
      let v = set_bit old r.bit_position b in
      let e : bool_byte r old b ≡ v = let above = bit.above in ground arith in
      let written =
        compose_record-bool ops r header_start h1 c payload p bit.slot (omega (arith, bit.one_byte))
          b old (omega (arith, bit.one_byte)) old_is in
      let same : bit_at v r'.bit_position ≡ bit_at old r'.bit_position =
        (set_bit_lem old r.bit_position r'.bit_position b small bit.below bit'.below).0
        ∙ rw (==_ne differ) in
      (
        set_frame header_start (set payload p v),
        (rw e at written),
        parse_record-bit r' header_start set_mark _ p v (set payload p v) bit'
              (omega (arith, length-set payload p v)) (get_elem?-set_self payload p v inside)
            ∙ ap (λ (x : Bool). ok (bool x)) same
            ∙ sym (parse_record-bit r' header_start h1 c p old payload bit' inside old_is),
      )
