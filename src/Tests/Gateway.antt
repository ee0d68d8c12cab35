-- ===== src/Tests/Gateway.antt =====
-- Configuration and service over scripted devices.
use stiebel_eltron_heatpump.Prelude.{◌≡◌, refl, [], ◌∷◌, none, some, ℤ, pos, negsuc, true}
use stiebel_eltron_heatpump.Errors.{ok}
use stiebel_eltron_heatpump.Dict.{lookup, insert}
use stiebel_eltron_heatpump.Models.{
  Conversions, codes, ChannelDefinition, int, settings, writable, value_kind, is_switch,
}
use stiebel_eltron_heatpump.Config.{
  HeatPumpConfig, channel, by_id, upper, request_for_channel, requests, group_requests, group_loop,
  add_channel, request_key, find_request, has_channel,
}
use stiebel_eltron_heatpump.Config.Grouping.{records_for, with_key, records_for-group_requests}
use stiebel_eltron_heatpump.Service.{
  given_value, ChannelValue, coerce, coerce_integer, to_channel_value, require_channel, found,
  value_or,
}
use stiebel_eltron_heatpump.Service.Operations.{
  read_found, read_channel, write_writable, write_channel,
}
use stiebel_eltron_heatpump.Tests.Floats.{fixed}
use stiebel_eltron_heatpump.Tests.Links.{scripted}
use stiebel_eltron_heatpump.Tests.Records.{start_time}
use stiebel_eltron_heatpump.Tests.Talks.{conversation, time_frame, silent, time_request, time_read}
use stiebel_eltron_heatpump.Tests.Writes.{confirmation, time_written}

abbrev pub gateway : HeatPumpConfig ℤ
gateway = record { name = codes "test"; channels = start_time ∷ [] }

-- Texts are no numbers here, and hundredths are cut off.
abbrev pub conversions : Conversions ℤ
conversions = record {
  int_of_text = λ _. ok (pos 0);
  float_of_text = λ _. ok (pos 0);
  truncate = λ x. fixed.floor x;
}

abbrev answer_of : ℤ → ChannelValue ℤ
answer_of n = record {
  channel_id = start_time.channel_id;
  value = int n;
  unit = none;
  data_type = settings;
  can_write = true;
}

pub time_configured : require_channel gateway start_time.channel_id ≡ ok start_time
unfolding require_channel channel by_id insert lookup
time_configured = refl

pub time_requested : request_for_channel gateway start_time.channel_id ≡ some time_request
unfolding request_for_channel requests group_requests group_loop add_channel request_key upper
    find_request has_channel
time_requested = refl

time_channel :
    read_channel scripted fixed gateway start_time.channel_id
      (silent (silent (conversation time_frame [])))
    ≡ (ok (answer_of (negsuc 127)), [])
unfolding read_channel read_found found lookup to_channel_value writable
time_channel = rw (time_configured, time_requested, time_read)

time_channel_written :
    write_channel scripted fixed gateway conversions start_time.channel_id
      (given_value (int (pos 45)))
      (conversation time_frame (conversation confirmation []))
    ≡ (ok (answer_of (pos 45)), [])
unfolding write_channel write_writable coerce coerce_integer value_kind is_switch value_or lookup
    to_channel_value writable
time_channel_written = rw (time_configured, time_written)

-- A second channel of another request in between.
abbrev other_time : ChannelDefinition ℤ
other_time = record start_time { channel_id = codes "other"; request_byte = codes "0a0b" }

records_for-group_requests_example :
    records_for (codes "0A1711", none) (group_requests (start_time ∷ other_time ∷ start_time ∷ []))
    ≡ with_key (codes "0A1711", none) (start_time ∷ other_time ∷ start_time ∷ [])
records_for-group_requests_example =
    records_for-group_requests (codes "0A1711", none) (start_time ∷ other_time ∷ start_time ∷ [])
