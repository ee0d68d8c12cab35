-- ===== src/Tests/Lifespans.antt =====
-- Requests that end with an exception, and the life span of the application.
use stiebel_eltron_heatpump.Prelude.{◌≡◌, refl, [], ◌∷◌, none, pos, false, true, inl, arith, ◌++◌}
use stiebel_eltron_heatpump.Errors.{ok, runtime_error, index_error}
use stiebel_eltron_heatpump.Exec.{pure, raise}
use stiebel_eltron_heatpump.Models.{int, writable}
use stiebel_eltron_heatpump.Config.{from_hex, hex_digit, is_space}
use stiebel_eltron_heatpump.Protocol.Frame.{
  Bytes, escape_bytes, get_mark, create_request_message, request_frame, calculate_checksum,
  add_duplicated_bytes,
}
use stiebel_eltron_heatpump.Protocol.Frame.Escaping.{framed}
use stiebel_eltron_heatpump.Protocol.Encode.{out_of_range, raw_of_value}
use stiebel_eltron_heatpump.Protocol.Connector.{get_data}
use stiebel_eltron_heatpump.Protocol.Connector.Handshake.{get_data-frame}
use stiebel_eltron_heatpump.Protocol.Serial.{SerialPort, new_transport, serial}
use stiebel_eltron_heatpump.Service.{given_value}
use stiebel_eltron_heatpump.Api.{unhandled, read_route, write_route}
use stiebel_eltron_heatpump.Api.WriteAnswers.{IsWriteAnswer, write_route-IsWriteAnswer}
use stiebel_eltron_heatpump.Api.Unhandled.{write_route-short_frame}
use stiebel_eltron_heatpump.Api.Lifespan.{get_version, get_channel, startup, serve_calls, lifespan}
use stiebel_eltron_heatpump.Api.Lifespan.Closed.{lifespan-closed, startup-unconnected}
use stiebel_eltron_heatpump.Tests.Floats.{fixed}
use stiebel_eltron_heatpump.Tests.Links.{scripted, scripted_bytes, Delivers-scripted}
use stiebel_eltron_heatpump.Tests.Records.{start_time}
use stiebel_eltron_heatpump.Tests.Talks.{
  conversation, conversation-Handshake, time_message, time_request,
}
use stiebel_eltron_heatpump.Tests.Gateway.{gateway, conversions, time_requested}
use stiebel_eltron_heatpump.Tests.Statuses.{time_found, time_coerced}
use stiebel_eltron_heatpump.Tests.Simulations.{command}
use stiebel_eltron_heatpump.Tests.Outcomes.{time_commands}

-- The answer to an unknown command, as `_KNOWN_ERRORS` has it, ends before the place of the time.
abbrev error_frame : Bytes
error_frame = framed 0x01 0x03 (0x04 ∷ [])

error_got : get_data scripted time_message (conversation error_frame []) ≡ (ok error_frame, [])
error_got =
    get_data-frame scripted time_message (conversation error_frame [])
      (scripted_bytes error_frame ++ []) (conversation-Handshake time_message error_frame []) 0x01
      0x03 (0x04 ∷ []) (omega arith, omega arith) (omega arith, omega arith) (omega arith) [] 0
      (unfold escape_bytes in Delivers-scripted error_frame []) (omega arith)
      (unfold escape_bytes in omega arith)

command_is : from_hex start_time.request_byte ≡ ok command
unfolding from_hex hex_digit is_space
command_is = refl

message_is : create_request_message command get_mark ≡ ok time_message
unfolding create_request_message request_frame calculate_checksum add_duplicated_bytes
message_is = refl

write_route-short_frame_example :
    write_route scripted fixed gateway true conversions start_time.channel_id
      (given_value (int (pos 45)))
      (conversation error_frame [])
    ≡ (unhandled index_error, [])
unfolding writable
write_route-short_frame_example =
    write_route-short_frame scripted fixed gateway conversions start_time.channel_id
      (given_value (int (pos 45))) (int (pos 45)) (pos 45) start_time command time_message
      error_frame (conversation error_frame []) [] time_found refl time_coerced (inl refl)
      (unfold out_of_range in refl) (unfold raw_of_value in refl) command_is message_is error_got
      refl (omega arith) (omega arith)

-- A port that cannot be opened.
abbrev absent_port : SerialPort
absent_port = record {
  State = Unit {0};
  open_port = raise runtime_error;
  close_port = pure tt;
  write_port = λ bytes. pure tt;
  read_port = λ s. (none, s);
}

startup-unconnected_example :
    (serve_calls
        (serial absent_port (λ x. x))
        fixed
        conversions
        gateway
        (get_version ∷ [])
        (startup (serial absent_port (λ x. x)) true (false, (new_transport, tt)))
      ≡ (false, (new_transport, tt)))
    × (read_route
          (serial absent_port (λ x. x))
          fixed
          gateway
          true
          start_time.channel_id
          (new_transport, tt)
        ≡ (unhandled runtime_error, (new_transport, tt)))
startup-unconnected_example =
    startup-unconnected absent_port (λ x. x) fixed conversions gateway (get_version ∷ [])
      runtime_error tt tt start_time.channel_id start_time time_request refl time_found
      time_requested time_commands

-- A port that opens, and never has a byte.
abbrev silent_port : SerialPort
silent_port = record absent_port { open_port = pure tt }

lifespan-closed_example :
    (lifespan
      (serial silent_port (λ x. x))
      fixed
      conversions
      gateway
      true
      (get_version ∷ get_channel start_time.channel_id ∷ [])
      (false, (new_transport, tt))).1.0.is_open
    ≡ false
lifespan-closed_example =
    lifespan-closed silent_port (λ x. x) fixed conversions gateway true
      (get_version ∷ get_channel start_time.channel_id ∷ []) (false, (new_transport, tt)) refl

-- The serial port before it is opened: the first write raises an error that no handler takes.
write_route-IsWriteAnswer_example :
    IsWriteAnswer
      (serial silent_port (λ x. x))
      start_time
      (write_route
        (serial silent_port (λ x. x))
        fixed
        gateway
        true
        conversions
        start_time.channel_id
        (given_value (int (pos 45)))
        (new_transport, tt)).0
unfolding writable
write_route-IsWriteAnswer_example =
    write_route-IsWriteAnswer (serial silent_port (λ x. x)) fixed gateway conversions
      start_time.channel_id (given_value (int (pos 45))) (int (pos 45)) (pos 45) start_time command
      time_found refl time_coerced (unfold raw_of_value in refl) command_is (new_transport, tt)
