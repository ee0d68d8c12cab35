-- ===== src/Protocol/Decode/Slot.antt =====
-- What `parse_record` reads of a frame is the record's slot of the payload.
use stiebel_eltron_heatpump.Prelude.{
  ℕ, ◌+◌, ◌<◌, ◌≤◌, ◌≡◌, ap, ◌∙◌, [], ◌∷◌, length, get_elem?, length-append, ltb, ◌==◌,
  if◌then◌else◌, arith, false,
}
use stiebel_eltron_heatpump.Errors.{Result, ok, err, ◌>>=◌, invalid_data, or_index_error}
use stiebel_eltron_heatpump.Models.{FloatOps, ChannelDefinition, Value, int}
use stiebel_eltron_heatpump.Protocol.Frame.{Bytes, footer}
use stiebel_eltron_heatpump.Protocol.Frame.Escaping.{framed}
use stiebel_eltron_heatpump.Protocol.Number.{signed_byte, unpack_short, unpack_int}
use stiebel_eltron_heatpump.Protocol.Encode.Shape.{get_elem?-framed}
use stiebel_eltron_heatpump.Protocol.Decode.{
  as_invalid_data, decode_number, parse_by_length, parse_record,
}

-- The value in the slot at place `p` of a payload.
abbrev pub slot_value :
    {F : Type 0} → FloatOps F → Bytes → ℕ → ChannelDefinition F → Result (Value F)
slot_value ops payload p r =
    if r.length == 1
    then (do b ← or_index_error (get_elem? payload p); decode_number ops (b ∷ []) (signed_byte b) r)
    else if r.length == 2
    then (do
      high ← or_index_error (get_elem? payload p)
      low ← or_index_error (get_elem? payload (p + 1))
      decode_number ops (high ∷ low ∷ []) (unpack_short high low) r)
    else if r.length == 4
    then (do
      a ← or_index_error (get_elem? payload p)
      b ← or_index_error (get_elem? payload (p + 1))
      c ← or_index_error (get_elem? payload (p + 2))
      d ← or_index_error (get_elem? payload (p + 3))
      ok (int (unpack_int a b c d)))
    else err invalid_data

module _ {F : Type 0} (ops : FloatOps F) (r : ChannelDefinition F) (h0 h1 c : ℕ) (payload : Bytes)
    (p : ℕ) (slot : r.position ≡ p + 3) (fits : p + r.length ≤ length payload) where
  first_byte :
      0 < r.length → get_elem? (framed h0 h1 (c ∷ payload)) r.position ≡ get_elem? payload p
  first_byte h = rw slot (get_elem?-framed h0 h1 c payload p (omega arith))

  later_byte :
      (k : ℕ)
      → k < r.length
      → get_elem? (framed h0 h1 (c ∷ payload)) (r.position + k) ≡ get_elem? payload (p + k)
  later_byte k h =
      let e : r.position + k ≡ p + k + 3 = omega arith in
      ap (get_elem? (framed h0 h1 (c ∷ payload))) e
      ∙ get_elem?-framed h0 h1 c payload (p + k) (omega arith)

  by_length : parse_by_length ops (framed h0 h1 (c ∷ payload)) r ≡ slot_value ops payload p r
  unfolding parse_by_length
  by_length = ground (arith, first_byte, later_byte 1, later_byte 2, later_byte 3)

  pub parse_record-framed :
      parse_record ops (framed h0 h1 (c ∷ payload)) r ≡ as_invalid_data (slot_value ops payload p r)
  unfolding parse_record
  parse_record-framed =
      let long : ltb (length (framed h0 h1 (c ∷ payload))) 2 ≡ false = ground arith in
      let enough : ltb (length (framed h0 h1 (c ∷ payload))) (r.position + r.length) ≡ false =
        ground (arith, length-append payload footer) in
      rw long (rw enough (ap as_invalid_data by_length))
