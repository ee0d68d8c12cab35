-- ===== src/Tests/Seeds.antt =====
-- A counter of energy whose value spans two commands.
use stiebel_eltron_heatpump.Prelude.{
  list_eq, ap, false, ℤ, pos, ◌≡◌, ◌≢◌, refl, [], ◌∷◌, some, true, arith, inr,
}
use stiebel_eltron_heatpump.Errors.{ok}
use stiebel_eltron_heatpump.Dict.{Dict, lookup}
use stiebel_eltron_heatpump.Models.{ValueKind, codes, int, ChannelDefinition, value_kind, is_switch}
use stiebel_eltron_heatpump.Config.{Request}
use stiebel_eltron_heatpump.Protocol.Frame.{Bytes, header_start, get_mark, header_check}
use stiebel_eltron_heatpump.Protocol.Frame.Escaping.{framed}
use stiebel_eltron_heatpump.Protocol.Decode.{parse_records}
use stiebel_eltron_heatpump.Simulator.Seeding.{set_in_request}
use stiebel_eltron_heatpump.Simulator.Seeding.TwoCommands.{set_in_request-parse_records}
use stiebel_eltron_heatpump.Tests.Floats.{fixed}
use stiebel_eltron_heatpump.Tests.Records.{start_time}
use stiebel_eltron_heatpump.Tests.Gateway.{conversions}

abbrev energy : ChannelDefinition ℤ
energy = record start_time {
  channel_id = codes "sHeatDHW";
  request_byte = codes "0A092C";
  request_byte2 = some (codes "0A092D");
  position = 6;
  length = 2;
}

abbrev energy_request : Request ℤ
energy_request = record {
  request_byte = codes "0A092C";
  request_byte2 = some (codes "0A092D");
  records = energy ∷ [];
}

abbrev low_payload : Bytes
low_payload = 0x0A ∷ 0x09 ∷ 0x2C ∷ 0x00 ∷ 0x00 ∷ []

abbrev high_payload : Bytes
high_payload = 0x0A ∷ 0x09 ∷ 0x2D ∷ 0x00 ∷ 0x00 ∷ []

abbrev frames : Dict Bytes
frames =
    (codes "0A092C", framed header_start get_mark (0x40 ∷ low_payload))
    ∷ (codes "0A092D", framed header_start get_mark (0x41 ∷ high_payload))
    ∷ []

energy_kind : value_kind fixed energy ≡ ValueKind.integer
unfolding value_kind is_switch
energy_kind = refl

low_stored :
    lookup (codes "0A092C") frames ≡ some (framed header_start get_mark (0x40 ∷ low_payload))
unfolding lookup
low_stored = refl

high_stored :
    lookup (codes "0A092D") frames ≡ some (framed header_start get_mark (0x41 ∷ high_payload))
unfolding lookup
high_stored = refl

commands_differ : codes "0A092C" ≢ codes "0A092D"
commands_differ e = let same : true ≡ false = ap (list_eq (codes "0A092C")) e in cc

set_in_request-parse_records_example :
    (frames' : Dict Bytes) × (frame frame2 : Bytes) × (set_in_request fixed conversions energy
        (int (pos 12345))
        (some energy_request)
        frames
      ≡ ok frames')
    × (lookup (codes "0A092C") frames' ≡ some frame)
    × (lookup (codes "0A092D") frames' ≡ some frame2)
    × (parse_records fixed frame (energy ∷ []) (some frame2)
        ≡ ok ((codes "sHeatDHW", int (pos 12345)) ∷ []))
    × (header_check frame ≡ true)
    × (header_check frame2 ≡ true)
set_in_request-parse_records_example =
    set_in_request-parse_records fixed conversions energy energy_request (codes "0A092D") frames
      0x40 0x41 low_payload high_payload 3 refl (omega arith) (omega arith) refl commands_differ
      low_stored high_stored (pos 12345) energy_kind (inr (refl, omega arith))
      (inr (refl, omega arith))
