-- ===== src/Tests/Writes.antt =====
-- Whole writes with scripted devices.
use stiebel_eltron_heatpump.Prelude.{
  ◌∙◌, length, ap, negsuc, ℤ, ◌≡◌, refl, [], ◌∷◌, ◌++◌, pos, arith, inl, ◌⊎◌,
}
use stiebel_eltron_heatpump.Errors.{ok, err, protocol_error, write_not_confirmed, bad_checksum}
use stiebel_eltron_heatpump.Dict.{Dict}
use stiebel_eltron_heatpump.Protocol.Decode.{parse_record, parse_by_length, decode_number}
use stiebel_eltron_heatpump.Protocol.Number.{signed_byte, store, short_to_bytes}
use stiebel_eltron_heatpump.Protocol.Encode.{
  compose_record, encode_value, encode_number, raw_of_value, out_of_range,
}
use stiebel_eltron_heatpump.Models.{Value, int, value_kind, is_switch}
use stiebel_eltron_heatpump.Config.{from_hex, request_bytes}
use stiebel_eltron_heatpump.Protocol.Frame.{
  Bytes, footer, escape_bytes, verify_header, calculate_checksum, add_duplicated_bytes,
}
use stiebel_eltron_heatpump.Protocol.Frame.Escaping.{framed}
use stiebel_eltron_heatpump.Protocol.Connector.{get_data, set_data}
use stiebel_eltron_heatpump.Protocol.Connector.Handshake.{get_data-frame, set_data-frame}
use stiebel_eltron_heatpump.Communication.{message_for, write_data}
use stiebel_eltron_heatpump.Communication.Confirmed.{Written, write_data-int, write_data-refused}
use stiebel_eltron_heatpump.Communication.Writing.{IsConfirmed, write_values-ok}
use stiebel_eltron_heatpump.Communication.{write_values}
use stiebel_eltron_heatpump.Tests.Talks.{
  conversation, time_message, time_frame, conversation-Handshake, time_command,
}
use stiebel_eltron_heatpump.Tests.Floats.{fixed}
use stiebel_eltron_heatpump.Tests.Links.{Script, scripted, scripted_bytes, Delivers-scripted}
use stiebel_eltron_heatpump.Tests.Records.{start_time, time_payload}

-- A write of 45, which is a quarter of an hour past eleven.
abbrev set_payload : Bytes
set_payload = 0x0A ∷ 0x17 ∷ 0x11 ∷ 0x2D ∷ 0x80 ∷ []

abbrev pub new_frame : Bytes
new_frame = framed 0x01 0x80 (0x60 ∷ set_payload)

abbrev pub confirmation : Bytes
confirmation = framed 0x01 0x80 (0xB3 ∷ 0x0A ∷ 0x17 ∷ 0x11 ∷ [])

-- An answer with a wrong checksum.
abbrev pub refusal : Bytes
refusal = framed 0x01 0x80 (0x00 ∷ 0x0A ∷ 0x17 ∷ 0x11 ∷ [])

pub composed : compose_record fixed (int (pos 45)) time_frame start_time ≡ ok new_frame
unfolding compose_record encode_value encode_number raw_of_value out_of_range store short_to_bytes
    calculate_checksum
composed = refl

pub read_before :
    (rest : Script)
    → get_data scripted time_message (conversation time_frame rest) ≡ (ok time_frame, rest)
read_before rest =
    get_data-frame scripted time_message (conversation time_frame rest)
      (scripted_bytes time_frame ++ rest) (conversation-Handshake time_message time_frame rest) 0x01
      0x00 (0x33 ∷ time_payload) (omega arith, omega arith) (omega arith, omega arith) (omega arith)
      rest 0 (unfold escape_bytes in Delivers-scripted time_frame rest) (omega arith)
      (unfold escape_bytes in omega arith)

pub new_frame_sent : add_duplicated_bytes new_frame ≡ new_frame
unfolding add_duplicated_bytes
new_frame_sent = refl

set_data-frame_again :
    set_data scripted new_frame (conversation confirmation []) ≡ (ok confirmation, [])
set_data-frame_again =
    set_data-frame scripted new_frame (conversation confirmation [])
      (scripted_bytes confirmation ++ []) (conversation-Handshake new_frame confirmation []) 0x01
      0x80 (0xB3 ∷ 0x0A ∷ 0x17 ∷ 0x11 ∷ []) (omega arith, omega arith) (omega arith, omega arith)
      (omega arith) [] 0 (unfold escape_bytes in Delivers-scripted confirmation []) (omega arith)
      (unfold escape_bytes in omega arith)

pub refused_answer : set_data scripted new_frame (conversation refusal []) ≡ (ok refusal, [])
refused_answer =
    set_data-frame scripted new_frame (conversation refusal []) (scripted_bytes refusal ++ [])
      (conversation-Handshake new_frame refusal []) 0x01 0x80 (0x00 ∷ 0x0A ∷ 0x17 ∷ 0x11 ∷ [])
      (omega arith, omega arith) (omega arith, omega arith) (omega arith) [] 0
      (unfold escape_bytes in Delivers-scripted refusal []) (omega arith)
      (unfold escape_bytes in omega arith)

start_time_command : message_for (from_hex start_time.request_byte) ≡ ok time_message
start_time_command = unfold request_bytes in time_command

written :
    (answer : Bytes)
    → set_data scripted new_frame (conversation answer []) ≡ (ok answer, [])
    → Written scripted fixed start_time
        (int (pos 45))
        (conversation time_frame (conversation answer []))
        time_frame
        new_frame
        answer
        []
written answer e = record {
  message = time_message;
  s1 = conversation answer [];
  command = start_time_command;
  read = read_before (conversation answer []);
  other = λ h. absurd (omega (arith, ap length h));
  composed = composed;
  sent = ap (λ (x : Bytes). set_data scripted x (conversation answer [])) new_frame_sent ∙ e;
}

confirmed : verify_header confirmation ≡ ok tt
unfolding verify_header calculate_checksum
confirmed = refl

write_data-int_example :
    (write_data scripted fixed
        (int (pos 45))
        start_time
        (conversation time_frame (conversation confirmation []))
      ≡ (ok ((start_time.channel_id, int (pos 45)) ∷ []), []))
    × (parse_record fixed new_frame start_time ≡ ok (int (pos 45)))
unfolding value_kind is_switch out_of_range
write_data-int_example =
    write_data-int scripted fixed start_time 0x00 0x33 3 time_payload new_frame confirmation
      (conversation time_frame (conversation confirmation [])) [] (omega arith) (pos 45)
      (written confirmation set_data-frame_again) (omega arith) refl (inl (omega arith)) refl
      confirmed

refused : verify_header refusal ≡ err (protocol_error bad_checksum)
unfolding verify_header calculate_checksum
refused = refl

old_time : parse_record fixed time_frame start_time ≡ ok (int (negsuc 127))
unfolding parse_record parse_by_length decode_number is_switch signed_byte
old_time = refl

pub time_refused :
    write_data scripted fixed
      (int (pos 45))
      start_time
      (conversation time_frame (conversation refusal []))
    ≡ (err write_not_confirmed, [])
time_refused =
    write_data-refused scripted fixed start_time (int (pos 45))
      (conversation time_frame (conversation refusal [])) [] 0x01
      (0x00 ∷ 0x33 ∷ (time_payload ++ footer)) new_frame refusal (written refusal refused_answer)
      (int (negsuc 127)) (protocol_error bad_checksum) old_time refused

write_data-refused_example :
    write_data scripted fixed
      (int (pos 45))
      start_time
      (conversation time_frame (conversation refusal []))
    ≡ (err write_not_confirmed, [])
write_data-refused_example =
    write_data-refused scripted fixed start_time (int (pos 45))
      (conversation time_frame (conversation refusal [])) [] 0x01
      (0x00 ∷ 0x33 ∷ (time_payload ++ footer)) new_frame refusal (written refusal refused_answer)
      (int (negsuc 127)) (protocol_error bad_checksum) old_time refused

pub time_written :
    write_data scripted fixed
      (int (pos 45))
      start_time
      (conversation time_frame (conversation confirmation []))
    ≡ (ok ((start_time.channel_id, int (pos 45)) ∷ []), [])
time_written =
    (write_data-int scripted fixed start_time 0x00 0x33 3 time_payload new_frame confirmation
      (conversation time_frame (conversation confirmation [])) [] (omega arith) (pos 45)
      (written confirmation set_data-frame_again) (omega arith)
      (unfold value_kind is_switch in refl) (inl (omega arith)) (unfold out_of_range in refl)
      confirmed).0

pub write_values_time :
    write_values scripted fixed
      ((int (pos 45), start_time) ∷ [])
      (conversation time_frame (conversation confirmation []))
    ≡ (ok ((start_time.channel_id, int (pos 45)) ∷ []), [])
write_values_time = unfold write_data in time_written

abbrev reported : Dict (Value ℤ)
reported = (start_time.channel_id, int (pos 45)) ∷ []

abbrev script_end : Script
script_end = []

write_values-ok_example :
    (message : Bytes) × (read_response : Bytes) × (s1 : Script) × (get_data scripted message
        (conversation time_frame (conversation confirmation []))
      ≡ (ok read_response, s1))
    × (((message ≡ read_response) × (reported ≡ []) × (script_end ≡ s1))
        ⊎ IsConfirmed scripted fixed
            ((int (pos 45), start_time) ∷ [])
            read_response
            s1
            script_end
            reported)
write_values-ok_example =
    write_values-ok scripted fixed ((int (pos 45), start_time) ∷ [])
      (conversation time_frame (conversation confirmation [])) script_end reported write_values_time
