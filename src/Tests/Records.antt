-- ===== src/Tests/Records.antt =====
-- Records: channels of device_configs/ and the vectors of test_parser.py.
use stiebel_eltron_heatpump.Prelude.{
  [], ◌∷◌, ◌≡◌, refl, ℤ, pos, negsuc, none, arith, true, inl, inr, sub_ℕ, ◌==◌, if◌then◌else◌,
}
use stiebel_eltron_heatpump.Errors.{ok, ◌>>=◌}
use stiebel_eltron_heatpump.Models.{
  codes, ChannelDefinition, settings, bool, int, float, integer, value_kind, is_switch,
}
use stiebel_eltron_heatpump.Protocol.Frame.{
  Bytes, footer, header_start, header_check, calculate_checksum,
}
use stiebel_eltron_heatpump.Protocol.Frame.Escaping.{framed}
use stiebel_eltron_heatpump.Protocol.Number.{signed_byte, set_bit, store}
use stiebel_eltron_heatpump.Protocol.Decode.{
  as_invalid_data, parse_record, parse_by_length, decode_number,
}
use stiebel_eltron_heatpump.Protocol.Decode.Kind.{kind_of, kind_of-parse_record}
use stiebel_eltron_heatpump.Protocol.Encode.{
  compose_record, encode_value, encode_bool, out_of_range,
}
use stiebel_eltron_heatpump.Protocol.Encode.RoundTrip.{
  parse-compose_record-int, parse-compose_record-float,
}
use stiebel_eltron_heatpump.Protocol.Encode.Bools.{parse-compose_record-bool}
use stiebel_eltron_heatpump.Protocol.Encode.Keeps.{compose_record_keeps}
use stiebel_eltron_heatpump.Protocol.Encode.Wraps.{parse-compose_record-wraps}
use stiebel_eltron_heatpump.Tests.Floats.{fixed}

-- LWZ_THZ504_7_59.xml
abbrev cooling : ChannelDefinition ℤ
cooling = record {
  channel_id = codes "p99CoolingHC1Switch";
  request_byte = codes "0B0287";
  request_byte2 = none;
  data_type = settings;
  position = 7;
  length = 1;
  scale = pos 100;
  bit_position = 7;
  min = pos 0;
  max = pos 100;
  step = pos 100;
  unit = none;
}

abbrev other_bit : ChannelDefinition ℤ
other_bit = record cooling { bit_position = 3 }

abbrev cooling_payload : Bytes
cooling_payload = 0x0B ∷ 0x02 ∷ 0x87 ∷ 0x00 ∷ 0x00 ∷ []

-- test_compose_record_cooling_switch
compose_cooling :
    compose_record fixed (bool true) (framed 0x01 0x00 (0x96 ∷ cooling_payload)) cooling
    ≡ ok (0x01 ∷ 0x80 ∷ 0x16 ∷ 0x0B ∷ 0x02 ∷ 0x87 ∷ 0x00 ∷ 0x01 ∷ footer)
unfolding compose_record encode_value encode_bool store set_bit calculate_checksum
compose_cooling = refl

parse-compose_record-bool_example :
    (frame : Bytes) × (compose_record fixed
        (bool true)
        (framed header_start 0x00 (0x96 ∷ cooling_payload))
        cooling
      ≡ ok frame)
    × (parse_record fixed frame cooling ≡ ok (bool true))
    × (header_check frame ≡ true)
unfolding value_kind
parse-compose_record-bool_example =
    parse-compose_record-bool fixed cooling refl 0x00 0x96 cooling_payload 4 0x00 true (omega arith)
      (omega arith) refl (omega arith) refl (omega arith)

-- A time channel of one byte, and a temperature of two bytes with scale 0.1.
abbrev pub start_time : ChannelDefinition ℤ
start_time = record cooling {
  channel_id = codes "programDhwMo1Start";
  request_byte = codes "0A1711";
  position = 6;
  bit_position = 0;
  min = pos 0;
  max = pos 9600;
}

abbrev temperature : ChannelDefinition ℤ
temperature = record start_time { length = 2; scale = pos 10; min = pos 1000; max = pos 3000 }

abbrev pub time_payload : Bytes
time_payload = 0x0A ∷ 0x17 ∷ 0x11 ∷ 0x80 ∷ 0x80 ∷ []

parse-compose_record-int_example :
    (frame : Bytes) × (compose_record fixed
        (int (pos 45))
        (framed header_start 0x00 (0x33 ∷ time_payload))
        start_time
      ≡ ok frame)
    × (parse_record fixed frame start_time ≡ ok (int (pos 45)))
    × (header_check frame ≡ true)
unfolding value_kind is_switch out_of_range
parse-compose_record-int_example =
    parse-compose_record-int fixed start_time time_payload 3 (omega arith) 0x00 0x33 (pos 45)
      (omega arith) refl (inl (omega arith)) refl

-- 21.76 degrees, stored as 218 tenths
parse-compose_record-float_example :
    (frame : Bytes) × (compose_record fixed
        (float (pos 2176))
        (framed header_start 0x00 (0x33 ∷ time_payload))
        temperature
      ≡ ok frame)
    × (parse_record fixed frame temperature
        ≡ as_invalid_data (do
          stored ← fixed.of_int (pos 218)
          cents ←
              fixed.floor (
                fixed.add (fixed.mul (fixed.mul stored temperature.scale) fixed.hundred) fixed.half)
          rounded ← fixed.of_int cents
          y ← fixed.div rounded fixed.hundred
          ok (float y)))
    × (header_check frame ≡ true)
unfolding value_kind is_switch out_of_range
parse-compose_record-float_example =
    parse-compose_record-float fixed temperature time_payload 3 (omega arith) 0x00 0x33 (pos 2176)
      (pos 21760) (pos 218) (omega arith) refl refl refl (inr (omega arith)) refl

-- LWZ_THZ303_2_06.xml allows 240 for a record of one byte.
abbrev time_delay : ChannelDefinition ℤ
time_delay = record start_time {
  channel_id = codes "p33TimeDelayElectricalReheating";
  request_byte = codes "07";
  position = 5;
  max = pos 24000;
}

parse-compose_record-wraps_example :
    (frame : Bytes) × (compose_record fixed
        (int (pos 200))
        (framed header_start 0x00 (0x33 ∷ time_payload))
        time_delay
      ≡ ok frame)
    × (parse_record fixed frame time_delay ≡ ok (int (sub_ℕ 200 256)))
unfolding value_kind is_switch out_of_range
parse-compose_record-wraps_example =
    parse-compose_record-wraps fixed time_delay 0x00 0x33 time_payload 2 200 (omega arith) refl
      (omega arith) refl (omega arith) (omega arith) refl

-- The time in the next byte stays when the switch in the byte before it is set.
abbrev switch : ChannelDefinition ℤ
switch = record cooling { position = 5 }

abbrev switched : Bytes
switched = 0x01 ∷ 0x80 ∷ 0xB3 ∷ 0x0A ∷ 0x17 ∷ 0x11 ∷ 0x80 ∷ 0x80 ∷ footer

compose_switch :
    compose_record fixed (bool true) (framed header_start 0x00 (0x33 ∷ time_payload)) switch
    ≡ ok switched
unfolding compose_record encode_value encode_bool store set_bit calculate_checksum
compose_switch = refl

compose_record_keeps_example :
    (header_check switched ≡ true)
    × (parse_record fixed switched start_time
        ≡ parse_record fixed (framed header_start 0x00 (0x33 ∷ time_payload)) start_time)
compose_record_keeps_example =
    compose_record_keeps fixed switch start_time 0x00 0x33 time_payload 2 3 (bool true) switched
      (omega arith) (omega arith) (omega arith) (omega arith) (omega arith) (omega arith)
      compose_switch

-- test_read_request: 0x80 is -128
read_time :
    parse_record fixed (framed header_start 0x00 (0x33 ∷ time_payload)) start_time
    ≡ ok (int (negsuc 127))
unfolding parse_record parse_by_length decode_number is_switch signed_byte
read_time = refl

kind_of-parse_record_example :
    kind_of {F = ℤ} (int (negsuc 127))
    ≡ (if start_time.length == 4 then integer else value_kind fixed start_time)
kind_of-parse_record_example =
    kind_of-parse_record fixed start_time (framed header_start 0x00 (0x33 ∷ time_payload))
      (int (negsuc 127)) read_time
