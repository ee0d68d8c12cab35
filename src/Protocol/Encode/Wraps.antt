-- ===== src/Protocol/Encode/Wraps.antt =====
-- Where the record's bytes are too short for what the channel's range allows.
use stiebel_eltron_heatpump.Prelude.{
  ℕ, ◌+◌, ◌<◌, ◌≤◌, ◌≡◌, ◌∙◌, ap, ℤ, pos, ◌∷◌, [], length, sub_ℕ, arith, false,
}
use stiebel_eltron_heatpump.Errors.{ok}
use stiebel_eltron_heatpump.Models.{FloatOps, ChannelDefinition, int, integer, value_kind}
use stiebel_eltron_heatpump.Protocol.Frame.{Bytes, header_start, set_mark}
use stiebel_eltron_heatpump.Protocol.Frame.Escaping.{framed}
use stiebel_eltron_heatpump.Protocol.Number.{short_to_bytes}
use stiebel_eltron_heatpump.Protocol.Number.Words.{signed_byte-wraps}
use stiebel_eltron_heatpump.Protocol.Decode.{as_invalid_data, decode_number, parse_record}
use stiebel_eltron_heatpump.Protocol.Decode.Slot.{parse_record-framed}
use stiebel_eltron_heatpump.Protocol.Decode.Kind.{decode_number-integer}
use stiebel_eltron_heatpump.Protocol.Encode.{compose_record, out_of_range}
use stiebel_eltron_heatpump.Protocol.Encode.Shape.{set_frame, put_number, compose_record-int}
use stiebel_eltron_heatpump.Protocol.Encode.RoundTrip.{length-put_number, slot_value-put_number_one}

-- A channel of one byte whose range allows a number from 128 to 255 accepts it, and then reads back
-- as that number less 256.
pub parse-compose_record-wraps :
    {F : Type 0} (ops : FloatOps F) (r : ChannelDefinition F) (h1 c : ℕ) (payload : Bytes) (p n : ℕ)
    → r.position ≡ p + 3
    → r.length ≡ 1
    → p < length payload
    → value_kind ops r ≡ integer
    → 128 ≤ n
    → n < 256
    → out_of_range ops (int (pos n)) r ≡ false
    → (frame : Bytes) × (compose_record ops (int (pos n)) (framed header_start h1 (c ∷ payload)) r
        ≡ ok frame)
      × (parse_record ops frame r ≡ ok (int (sub_ℕ n 256)))
parse-compose_record-wraps ops r h1 c payload p n slot one inside kind low high allowed =
    let fits : p + r.length ≤ length payload = omega arith in
    let payload' = put_number payload p r.length (pos n) in
    let raw = (short_to_bytes (pos n)).0 ∷ [] in
    (
      set_frame header_start payload',
      compose_record-int ops r header_start h1 c payload p slot fits (pos n) allowed,
      parse_record-framed ops r header_start set_mark _ payload' p slot
            (omega (arith, length-put_number ops r payload p fits (pos n)))
          ∙ ap as_invalid_data (
              slot_value-put_number_one ops r payload p fits (pos n) one
              ∙ ap (λ (k : ℤ). decode_number ops raw k r) (signed_byte-wraps n low high)
              ∙ decode_number-integer ops r raw (sub_ℕ n 256) kind (omega arith)),
    )
