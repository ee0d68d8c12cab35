-- ===== src/Tests/Statuses.antt =====
-- Routes over scripted devices.
use stiebel_eltron_heatpump.Prelude.{inl, ℤ, ◌≡◌, refl, [], ◌∷◌, some, pos, true, arith}
use stiebel_eltron_heatpump.Errors.{ok}
use stiebel_eltron_heatpump.Dict.{lookup, insert}
use stiebel_eltron_heatpump.Models.{ChannelDefinition, int, value_kind, is_switch}
use stiebel_eltron_heatpump.Config.{
  Request, HeatPumpConfig, channel, by_id, requests, request_for_channel, group_requests,
  group_loop, add_channel, request_key, upper, find_request, has_channel,
}
use stiebel_eltron_heatpump.Protocol.Frame.{header_check, verify_header, calculate_checksum}
use stiebel_eltron_heatpump.Communication.{message_for}
use stiebel_eltron_heatpump.Communication.Reading.{no_more}
use stiebel_eltron_heatpump.Config.{request_bytes, request_bytes2}
use stiebel_eltron_heatpump.Service.{given_value, coerce, coerce_integer}
use stiebel_eltron_heatpump.Api.{http_error, read_route}
use stiebel_eltron_heatpump.Api.Refusals.{read_route-missing}
use stiebel_eltron_heatpump.Tests.Floats.{fixed}
use stiebel_eltron_heatpump.Tests.Links.{scripted}
use stiebel_eltron_heatpump.Tests.Records.{start_time}
use stiebel_eltron_heatpump.Tests.Talks.{
  time_message, conversation, time_frame, time_request, time_command, time_got,
}
use stiebel_eltron_heatpump.Tests.Gateway.{gateway, conversions}

pub time_found : channel gateway start_time.channel_id ≡ some start_time
unfolding channel by_id insert lookup
time_found = refl

pub time_coerced :
    coerce fixed conversions start_time (given_value (int (pos 45))) ≡ ok (int (pos 45))
unfolding coerce coerce_integer value_kind is_switch
time_coerced = refl

-- A channel behind the end of the response.
abbrev far : ChannelDefinition ℤ
far = record start_time { position = 50 }

abbrev far_gateway : HeatPumpConfig ℤ
far_gateway = record gateway { channels = far ∷ [] }

abbrev far_request : Request ℤ
far_request = record time_request { records = far ∷ [] }

far_found : channel far_gateway far.channel_id ≡ some far
unfolding channel by_id insert lookup
far_found = refl

far_requested : request_for_channel far_gateway far.channel_id ≡ some far_request
unfolding request_for_channel requests group_requests group_loop add_channel request_key upper
    find_request has_channel
far_requested = refl

far_command : request_bytes far_request ≡ request_bytes time_request
unfolding request_bytes
far_command = refl

far_message : message_for (request_bytes far_request) ≡ ok time_message
far_message = rw far_command time_command

far_checked : header_check time_frame ≡ true
unfolding header_check verify_header calculate_checksum
far_checked = refl

read_route-missing_example :
    read_route scripted fixed far_gateway true far.channel_id (conversation time_frame [])
    ≡ (http_error 404, [])
unfolding request_bytes2
read_route-missing_example =
    read_route-missing scripted fixed far_gateway far.channel_id far far_request far_found
      far_requested 0 time_message time_frame (conversation time_frame [])
      (conversation time_frame []) [] far_message refl (no_more refl) (omega arith) time_got
      far_checked (inl (omega arith), tt)
