-- ===== src/Tests/Clocks.antt =====
-- Setting the clock with scripted devices.
use stiebel_eltron_heatpump.Prelude.{ℤ, ◌≡◌, refl, [], ◌∷◌, none, some, pos, true, ◌⊎◌, arith}
use stiebel_eltron_heatpump.Errors.{ok, err, protocol_error, too_much_data}
use stiebel_eltron_heatpump.Dict.{Dict, lookup, insert, update}
use stiebel_eltron_heatpump.Models.{codes, int, Value, ChannelDefinition}
use stiebel_eltron_heatpump.Config.{Request, request_bytes}
use stiebel_eltron_heatpump.Protocol.Frame.{header_check, verify_header, calculate_checksum}
use stiebel_eltron_heatpump.Protocol.Encode.{out_of_range}
use stiebel_eltron_heatpump.Communication.{message_for}
use stiebel_eltron_heatpump.Communication.Clock.{
  Now, Reported, decoded, time_text, clock_values, report, write_register, registers_loop,
  set_time_via_registers, set_time_via_frame, read_back, finish_time, set_time,
}
use stiebel_eltron_heatpump.Communication.Clock.Order.{Writes, set_time-Writes}
use stiebel_eltron_heatpump.Communication.Clock.Unconfirmed.{
  AllSettable, has_slot, AllTold, set_time_via_frame-unconfirmed,
}
use stiebel_eltron_heatpump.Tests.Floats.{fixed}
use stiebel_eltron_heatpump.Tests.Links.{Script, scripted}
use stiebel_eltron_heatpump.Tests.Records.{start_time, time_payload}
use stiebel_eltron_heatpump.Tests.Talks.{
  conversation, time_frame, time_request, time_command, time_message,
}
use stiebel_eltron_heatpump.Tests.Writes.{confirmation, refusal, write_values_time, read_before}

abbrev now : Now
now = record {
  year = 2024;
  month = 5;
  day = 17;
  hour = 11;
  minute = 45;
  last_update = codes "2024-05-17 11:45:00";
}

abbrev reported : Dict (Reported ℤ)
reported =
    (start_time.channel_id, decoded (int (pos 45)))
    ∷ (codes "lastUpdate", time_text (codes "2024-05-17 11:45:00"))
    ∷ []

clock_set :
    set_time scripted fixed none
      ((codes "minutes", start_time) ∷ [])
      now
      (conversation time_frame (conversation confirmation []))
    ≡ (ok reported, [])
unfolding set_time set_time_via_registers registers_loop write_register read_back finish_time report
    lookup insert update
clock_set = rw write_values_time

set_time-Writes_example :
    (middle : Script) × Writes scripted fixed
      ((codes "minutes", start_time) ∷ [])
      (clock_values now)
      middle
      (codes "day" ∷ codes "month" ∷ codes "year" ∷ codes "hours" ∷ codes "minutes" ∷ [])
      (conversation time_frame (conversation confirmation []))
    × (lookup (codes "lastUpdate") reported ≡ some (time_text (codes "2024-05-17 11:45:00")))
set_time-Writes_example =
    set_time-Writes scripted fixed now none (codes "minutes") start_time [] reported
      (conversation time_frame (conversation confirmation [])) [] clock_set

-- The register of an older device.
abbrev minutes : ChannelDefinition ℤ
minutes = record start_time { channel_id = codes "minutes" }

abbrev clock_request : Request ℤ
clock_request = record time_request { records = minutes ∷ [] }

clock_message : message_for (request_bytes clock_request) ≡ ok time_message
clock_message = unfold request_bytes in time_command

clock_checked : header_check time_frame ≡ true
unfolding header_check verify_header calculate_checksum
clock_checked = refl

clock_settable : AllSettable fixed (clock_values now) 5 clock_request.records
unfolding lookup out_of_range
clock_settable = (has_slot 3 (pos 45) (omega arith) (omega arith) refl refl, tt)

-- The device refuses the SET.
set_time_via_frame-unconfirmed_example :
    ((written : Dict (Value ℤ)) × ((set_time_via_frame scripted fixed clock_request
          (clock_values now)
          (conversation time_frame (conversation refusal []))).0
        ≡ ok written)
      × AllTold (clock_values now) written clock_request.records)
    ⊎ ((set_time_via_frame scripted fixed clock_request
          (clock_values now)
          (conversation time_frame (conversation refusal []))).0
        ≡ err (protocol_error too_much_data))
set_time_via_frame-unconfirmed_example =
    set_time_via_frame-unconfirmed scripted fixed now clock_request time_message 0x00 0x33
      time_payload (conversation time_frame (conversation refusal [])) (conversation refusal [])
      clock_message (read_before (conversation refusal [])) clock_checked clock_settable
