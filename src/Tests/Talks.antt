-- ===== src/Tests/Talks.antt =====
-- Whole reads with scripted devices.
use stiebel_eltron_heatpump.Prelude.{negsuc, ℤ, ◌≡◌, refl, [], ◌∷◌, ◌++◌, none, some, arith, true}
use stiebel_eltron_heatpump.Errors.{ok, err, protocol_error, not_established, is_protocol_error}
use stiebel_eltron_heatpump.Dict.{insert}
use stiebel_eltron_heatpump.Protocol.Decode.{
  parse_records, parse_loop, parse_into, combine_response, is_short_result, parse_record,
  parse_by_length, decode_number,
}
use stiebel_eltron_heatpump.Protocol.Number.{signed_byte}
use stiebel_eltron_heatpump.Models.{codes, int, is_switch}
use stiebel_eltron_heatpump.Config.{
  request_bytes2, Request, from_hex, hex_digit, is_space, request_bytes,
}
use stiebel_eltron_heatpump.Protocol.Frame.{
  Bytes, footer, escape_bytes, header_check, verify_header, calculate_checksum,
  create_request_message, request_frame, add_duplicated_bytes,
}
use stiebel_eltron_heatpump.Protocol.Frame.Escaping.{framed}
use stiebel_eltron_heatpump.Protocol.Transport.{done, byte, pause}
use stiebel_eltron_heatpump.Protocol.Connector.{disconnect, connect, get_data, start}
use stiebel_eltron_heatpump.Protocol.Connector.Handshake.{Handshake, get_data-frame}
use stiebel_eltron_heatpump.Communication.{
  read_second, get_checked, message_for, restart, read_attempt, read_request,
}
use stiebel_eltron_heatpump.Communication.Reading.{
  again, no_more, read_request-ok, read_request_sound, IsDecoded,
}
use stiebel_eltron_heatpump.Tests.Floats.{fixed}
use stiebel_eltron_heatpump.Tests.Links.{Script, scripted, scripted_bytes, Delivers-scripted}
use stiebel_eltron_heatpump.Tests.Records.{start_time, time_payload}

-- What a device sends for one frame: the answers of the handshake, with a timeout, and the frame.
abbrev pub conversation : Bytes → Script → Script
conversation frame rest = some 0x10 ∷ none ∷ some 0x10 ∷ some 0x02 ∷ (scripted_bytes frame ++ rest)

abbrev pub time_message : Bytes
time_message = 0x01 ∷ 0x00 ∷ 0x33 ∷ 0x0A ∷ 0x17 ∷ 0x11 ∷ footer

abbrev pub time_frame : Bytes
time_frame = framed 0x01 0x00 (0x33 ∷ time_payload)

pub conversation-Handshake :
    (message frame : Bytes) (rest : Script)
    → Handshake scripted message (conversation frame rest) (scripted_bytes frame ++ rest)
conversation-Handshake message frame rest = record {
  s1 = conversation frame rest;
  s2 = none ∷ some 0x10 ∷ some 0x02 ∷ (scripted_bytes frame ++ rest);
  s3 = none ∷ some 0x10 ∷ some 0x02 ∷ (scripted_bytes frame ++ rest);
  s4 = scripted_bytes frame ++ rest;
  timeouts = 1;
  started = refl;
  acknowledged = refl;
  sent = refl;
  available = pause refl (byte refl (byte refl (done refl)));
  in_time = omega arith;
  requested = refl;
}

pub time_got : get_data scripted time_message (conversation time_frame []) ≡ (ok time_frame, [])
time_got =
    get_data-frame scripted time_message (conversation time_frame [])
      (scripted_bytes time_frame ++ []) (conversation-Handshake time_message time_frame []) 0x01
      0x00 (0x33 ∷ time_payload) (omega arith, omega arith) (omega arith, omega arith) (omega arith)
      [] 0 (unfold escape_bytes in Delivers-scripted time_frame []) (omega arith)
      (unfold escape_bytes in omega arith)

get_data-frame_example :
    get_data scripted time_message (conversation time_frame []) ≡ (ok time_frame, [])
get_data-frame_example =
    get_data-frame scripted time_message (conversation time_frame [])
      (scripted_bytes time_frame ++ []) (conversation-Handshake time_message time_frame []) 0x01
      0x00 (0x33 ∷ time_payload) (omega arith, omega arith) (omega arith, omega arith) (omega arith)
      [] 0 (unfold escape_bytes in Delivers-scripted time_frame []) (omega arith)
      (unfold escape_bytes in omega arith)

abbrev pub time_request : Request ℤ
time_request = record {
  request_byte = codes "0A1711";
  request_byte2 = none;
  records = start_time ∷ [];
}

pub time_command : message_for (request_bytes time_request) ≡ ok time_message
unfolding request_bytes from_hex hex_digit is_space create_request_message request_frame
    calculate_checksum add_duplicated_bytes
time_command = refl

time_values :
    parse_records fixed time_frame time_request.records none
    ≡ ok ((start_time.channel_id, int (negsuc 127)) ∷ [])
unfolding parse_records parse_loop parse_into combine_response is_short_result parse_record
    parse_by_length decode_number insert is_switch signed_byte
time_values = refl

-- The attempt with a device that answers, from the theorem on `get_data`.
time_attempt :
    read_attempt scripted fixed time_request (conversation time_frame [])
    ≡ (ok ((start_time.channel_id, int (negsuc 127)) ∷ []), [])
unfolding read_attempt get_checked read_second request_bytes2 header_check verify_header
    calculate_checksum
time_attempt = rw (time_command, time_got, time_values)

-- Before that, the device does not answer the start of the communication twice.
abbrev pub silent : Script → Script
silent rest = none ∷ rest

pub failed_start :
    (rest : Script)
    → read_attempt scripted fixed time_request (silent rest)
      ≡ (err (protocol_error not_established), rest)
unfolding read_attempt get_checked get_data start
failed_start rest = rw time_command

pub restarted : (rest : Script) → restart scripted fixed rest ≡ (ok tt, rest)
unfolding restart connect disconnect
restarted rest = refl

pub protocol_error_is : is_protocol_error (protocol_error not_established) ≡ true
unfolding is_protocol_error
protocol_error_is = refl

pub time_read :
    read_request scripted fixed time_request (silent (silent (conversation time_frame [])))
    ≡ (ok ((start_time.channel_id, int (negsuc 127)) ∷ []), [])
time_read =
    read_request-ok scripted fixed time_request 2 (silent (silent (conversation time_frame [])))
      (conversation time_frame []) [] ((start_time.channel_id, int (negsuc 127)) ∷ [])
      (again (failed_start (silent (conversation time_frame []))) protocol_error_is
        (restarted (silent (conversation time_frame [])))
        (again (failed_start (conversation time_frame [])) protocol_error_is
          (restarted (conversation time_frame [])) (no_more refl)))
      (omega arith) time_attempt

read_request-ok_example :
    read_request scripted fixed time_request (silent (silent (conversation time_frame [])))
    ≡ (ok ((start_time.channel_id, int (negsuc 127)) ∷ []), [])
read_request-ok_example =
    read_request-ok scripted fixed time_request 2 (silent (silent (conversation time_frame [])))
      (conversation time_frame []) [] ((start_time.channel_id, int (negsuc 127)) ∷ [])
      (again (failed_start (silent (conversation time_frame []))) protocol_error_is
        (restarted (silent (conversation time_frame [])))
        (again (failed_start (conversation time_frame [])) protocol_error_is
          (restarted (conversation time_frame [])) (no_more refl)))
      (omega arith) time_attempt

read_request_sound_example :
    IsDecoded scripted fixed time_request ((start_time.channel_id, int (negsuc 127)) ∷ [])
read_request_sound_example =
    read_request_sound scripted fixed time_request (silent (silent (conversation time_frame []))) []
      ((start_time.channel_id, int (negsuc 127)) ∷ []) time_read
