-- ===== src/Api/Refusals.antt =====
-- The statuses that tell why a request did not succeed.
use stiebel_eltron_heatpump.Prelude.{◌<◌, ℕ, ◌≡◌, none, some, true, false, ◌⊎◌}
use stiebel_eltron_heatpump.Errors.{
  ok, err, Exn, is_protocol_error, write_not_confirmed, channel_not_found, value_error, type_error,
}
use stiebel_eltron_heatpump.Models.{Text, Conversions, FloatOps, Value, ChannelDefinition, writable}
use stiebel_eltron_heatpump.Config.{
  request_bytes2, request_bytes, Request, HeatPumpConfig, channel, request_for_channel,
}
use stiebel_eltron_heatpump.Protocol.Frame.{header_check, Bytes}
use stiebel_eltron_heatpump.Protocol.Connector.{get_data}
use stiebel_eltron_heatpump.Protocol.Decode.Records.{AllCut, parse_records-cut}
use stiebel_eltron_heatpump.Protocol.Transport.{Transport}
use stiebel_eltron_heatpump.Communication.{message_for, max_tries, write_data}
use stiebel_eltron_heatpump.Communication.Reading.{
  read_attempt-one, read_request-ok, Fails, read_request-exhausted,
}
use stiebel_eltron_heatpump.Service.{Requested, require_channel, coerce, found}
use stiebel_eltron_heatpump.Service.Operations.{
  read_found, read_channel, write_writable, write_channel,
}
use stiebel_eltron_heatpump.Api.{
  http_error, handled, read_error, write_error, read_route, write_route,
}

module _ (t : Transport) {F : Type 0} (ops : FloatOps F) (config : HeatPumpConfig F) where
  pub require_channel-some :
      (channel_id : Text) (r : ChannelDefinition F)
      → channel config channel_id ≡ some r
      → require_channel config channel_id ≡ ok r
  unfolding require_channel
  require_channel-some channel_id r e = rw (e, require_channel)

  pub require_channel-none :
      (channel_id : Text)
      → channel config channel_id ≡ none
      → require_channel config channel_id ≡ err channel_not_found
  unfolding require_channel
  require_channel-none channel_id e = rw (e, require_channel)

  module _ (conv : Conversions F) where
    -- Why a write is refused before the device hears of it, with its status.
    pub data IsRefused (channel_id : Text) (value : Requested F) (code : ℕ) : Type 0 where
      unknown : channel config channel_id ≡ none → code ≡ 404 → IsRefused channel_id value code
      read_only :
          (r : ChannelDefinition F)
          → channel config channel_id ≡ some r
          → writable r ≡ false
          → code ≡ 409
          → IsRefused channel_id value code
      bad_value :
          (r : ChannelDefinition F) (e : Exn)
          → channel config channel_id ≡ some r
          → writable r ≡ true
          → coerce ops conv r value ≡ err e
          → (e ≡ value_error) ⊎ (e ≡ type_error)
          → code ≡ 400
          → IsRefused channel_id value code

    -- If the device did not confirm the write of the converted value, so that `write_data` raised
    -- WriteNotConfirmed, then the status is 502.
    pub write_route-refused :
        (channel_id : Text) (value : Requested F) (coerced : Value F) (r : ChannelDefinition F)
        (s s' : t.State)
        → channel config channel_id ≡ some r
        → writable r ≡ true
        → coerce ops conv r value ≡ ok coerced
        → write_data t ops coerced r s ≡ (err write_not_confirmed, s')
        → write_route t ops config true conv channel_id value s ≡ (http_error 502, s')
    unfolding write_route write_channel write_writable write_error handled
    write_route-refused channel_id value coerced r s s' e w f g =
        rw (require_channel-some channel_id r e, w, f, g)

  module _ (channel_id : Text) (r : ChannelDefinition F) (request : Request F)
      (configured : channel config channel_id ≡ some r)
      (requested : request_for_channel config channel_id ≡ some request) where
    -- If the device cannot be read, in three attempts that fail with a protocol error and after
    -- which the connection comes up again, then a read of a configured channel ends with 503.
    pub read_route-unreachable :
        (s last : t.State)
        → Fails t ops request last s max_tries
        → read_route t ops config true channel_id s ≡ (http_error 503, last)
    unfolding read_route read_channel read_found read_error handled is_protocol_error
    read_route-unreachable s last fails = rw (
      require_channel-some channel_id r configured,
      requested,
      read_request-exhausted t ops request s last fails,
    )

    -- If the records of a configured channel all end behind the end of the device's response, which
    -- passes the header check and comes in the first or, after protocol errors and restarts, in the
    -- second or third attempt, then a read of the channel, for whose request one command is sent,
    -- ends with 404, the status of a channel that is not configured.
    pub read_route-missing :
        (n : ℕ) (message response : Bytes) (s last s' : t.State)
        → message_for (request_bytes request) ≡ ok message
        → request_bytes2 request ≡ ok none
        → Fails t ops request last s n
        → n < max_tries
        → get_data t message last ≡ (ok response, s')
        → header_check response ≡ true
        → AllCut response channel_id request.records
        → read_route t ops config true channel_id s ≡ (http_error 404, s')
    unfolding read_route read_channel read_found found read_error
    read_route-missing n message response s last s' m one fails few g c cut =
        let (values, e, missing) = parse_records-cut ops response channel_id request.records cut in
        let read =
          read_request-ok t ops request n s last s' values fails few
            (read_attempt-one t ops request message response values last s' m one g c e) in
        rw (require_channel-some channel_id r configured, requested, read, missing)
