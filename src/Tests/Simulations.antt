-- ===== src/Tests/Simulations.antt =====
-- The simulator, started from a configuration of one channel, and the stack over it.
use stiebel_eltron_heatpump.Prelude.{
  ◌≤◌, ℤ, ◌≡◌, refl, ap, [], ◌∷◌, length, none, some, pos, arith, true, inl,
}
use stiebel_eltron_heatpump.Errors.{ok}
use stiebel_eltron_heatpump.Dict.{lookup, insert}
use stiebel_eltron_heatpump.Models.{codes, Text, int, value_kind, is_switch}
use stiebel_eltron_heatpump.Config.{
  from_hex, hex_digit, is_space, requests, channel, by_id, group_requests, group_loop, add_channel,
  request_key, upper, request_bytes, request_bytes2,
}
use stiebel_eltron_heatpump.Protocol.Frame.{
  Bytes, header_start, get_mark, set_mark, escape_bytes, calculate_checksum, header_check,
}
use stiebel_eltron_heatpump.Protocol.Frame.Escaping.{framed}
use stiebel_eltron_heatpump.Protocol.Frame.Checksum.{byte_sum}
use stiebel_eltron_heatpump.Protocol.Number.{store, short_to_bytes, signed_byte}
use stiebel_eltron_heatpump.Protocol.Decode.{
  parse_record, parse_records, parse_loop, parse_into, combine_response, is_short_result,
  parse_by_length, decode_number,
}
use stiebel_eltron_heatpump.Protocol.Encode.{out_of_range}
use stiebel_eltron_heatpump.Protocol.Connector.{get_data}
use stiebel_eltron_heatpump.Communication.{write_data}
use stiebel_eltron_heatpump.Simulator.{
  Simulator, idle, with_checksum, match_command, match_loop, match_step, is_longer, carries,
}
use stiebel_eltron_heatpump.Simulator.Link.{simulated}
use stiebel_eltron_heatpump.Simulator.Link.Collect.{wire, with_frame}
use stiebel_eltron_heatpump.Simulator.Link.Talk.{get_data-build_response}
use stiebel_eltron_heatpump.Simulator.Answers.{get_frame, build_response-get}
use stiebel_eltron_heatpump.Simulator.Stack.{body, after, updated_by}
use stiebel_eltron_heatpump.Simulator.RoundTrip.{Knows, written, write-read}
use stiebel_eltron_heatpump.Simulator.Seeding.{
  build_frame, data_end, data_end_from, put_command, put_footer, set_value, set_in_channel,
}
use stiebel_eltron_heatpump.Simulator.Seeding.Start.{
  new_simulator, add_requests, add_command, default_version, set_values, split_name, last_digits,
  is_digits,
}
use stiebel_eltron_heatpump.Tests.Floats.{fixed}
use stiebel_eltron_heatpump.Tests.Records.{start_time}
use stiebel_eltron_heatpump.Tests.Talks.{time_request}
use stiebel_eltron_heatpump.Tests.Gateway.{gateway, conversions}

abbrev pub key : Text
key = codes "0A1711"

abbrev pub command : Bytes
command = 0x0A ∷ 0x17 ∷ 0x11 ∷ []

abbrev pub payload : Bytes
payload = 0x0A ∷ 0x17 ∷ 0x11 ∷ 0x00 ∷ []

-- What the simulator makes of the configuration.
abbrev pub device : Simulator ℤ
device = record {
  config = gateway;
  frames = (key, framed 0x01 0x00 (0x33 ∷ payload)) ∷ [];
  commands = (key, time_request) ∷ [];
  phase = idle;
  frame_buffer = [];
  pending = [];
}

pub start_device : new_simulator fixed conversions gateway [] ≡ ok device
unfolding new_simulator add_requests add_command default_version set_values requests group_requests
    group_loop add_channel from_hex request_key upper is_space hex_digit build_frame store data_end
    data_end_from put_footer put_command with_checksum calculate_checksum last_digits by_id channel
    insert lookup is_digits split_name set_value set_in_channel
start_device = refl

pub key_command : from_hex key ≡ ok command
unfolding from_hex hex_digit is_space
key_command = refl

stored : lookup key device.frames ≡ some (get_frame header_start payload)
unfolding lookup byte_sum
stored = refl

taken :
    match_loop device.commands (framed header_start get_mark (body get_mark command)) none
    ≡ ok (some key)
unfolding match_loop match_step is_longer carries
taken = rw key_command

taken_set :
    match_loop device.commands
      (framed header_start set_mark
        (body set_mark (written fixed start_time key command payload 3 (pos 45) device)))
      none
    ≡ ok (some key)
unfolding match_loop match_step is_longer carries short_to_bytes
taken_set = rw key_command

pub knows : Knows fixed start_time key command payload 3 (pos 45) device
unfolding escape_bytes byte_sum
knows = record {
  waiting = refl;
  some_command = omega arith;
  command_short = omega arith;
  some_payload = omega arith;
  payload_short = omega arith;
  named = key_command;
  same_command = key_command;
  takes_get = taken;
  takes_set = taken_set;
  stored = stored;
  not_echo = λ h. absurd (omega (arith, ap length h));
}

write-read_example :
    (frame : Bytes) × (last : Simulator ℤ) × (write_data
        (simulated ℤ)
        fixed
        (int (pos 45))
        start_time
        (device, [])
      ≡ (
        ok ((start_time.channel_id, int (pos 45)) ∷ []),
        (
          updated_by key (written fixed start_time key command payload 3 (pos 45) device) device,
          [],
        ),
      ))
    × (get_data (simulated ℤ) (wire header_start get_mark (body get_mark command)) (
      updated_by key (written fixed start_time key command payload 3 (pos 45) device) device,
      [],
    )
        ≡ (ok frame, (last, [])))
    × (parse_record fixed frame start_time ≡ ok (int (pos 45)))
    × (header_check frame ≡ true)
unfolding value_kind is_switch out_of_range
write-read_example =
    write-read fixed start_time key command payload 3 (pos 45) device knows (omega arith)
      (omega arith) refl (inl (omega arith)) refl

time_values :
    parse_records fixed (get_frame header_start payload) time_request.records none
    ≡ ok ((start_time.channel_id, int (pos 0)) ∷ [])
unfolding parse_records parse_loop parse_into combine_response is_short_result parse_record
    parse_by_length decode_number insert is_switch signed_byte
time_values = refl

payload_fits : length (wire header_start get_mark (body get_mark payload)) ≤ 1024
unfolding escape_bytes byte_sum
payload_fits = omega arith

pub first_command : request_bytes time_request ≡ ok command
unfolding request_bytes
first_command = key_command

pub no_second : request_bytes2 time_request ≡ ok none
unfolding request_bytes2
no_second = refl

matched_ready :
    match_command
      (with_frame
        (wire header_start get_mark (body get_mark command))
        (framed header_start get_mark (body get_mark command))
        device)
      (framed header_start get_mark (body get_mark command))
    ≡ ok (some key)
matched_ready = unfold match_command in taken

get_data-build_response_example :
    get_data (simulated ℤ) (wire header_start get_mark (body get_mark command)) (device, [])
    ≡ (ok (framed 0x01 0x00 (body get_mark payload)), (after get_mark command device, []))
get_data-build_response_example =
    get_data-build_response header_start get_mark (body get_mark command) (omega arith, omega arith)
      (omega arith, omega arith) (omega arith) device
      (with_frame (wire header_start get_mark (body get_mark command))
        (framed header_start get_mark (body get_mark command)) device)
      refl header_start get_mark (body get_mark payload) (omega arith, omega arith)
      (omega arith, omega arith) (omega arith) payload_fits
      (build_response-get _ key header_start get_mark _ command matched_ready
        (get_frame header_start payload) (omega arith) stored)
