-- ===== src/Service/Operations.antt =====
-- The operations of `HeatPumpService`. Its lock lets one operation at a time use the connection, so
-- each is one step from state to state.
use stiebel_eltron_heatpump.Prelude.{
  ◌∷◌, [], List, Option, none, some, Bool, true, false, if◌then◌else◌,
}
use stiebel_eltron_heatpump.Errors.{
  Result, ok, err, channel_not_found, channel_not_writable, attribute_error,
}
use stiebel_eltron_heatpump.Exec.{Exec, pure, raise, lift, ◌>>=◌}
use stiebel_eltron_heatpump.Dict.{Dict, lookup, insert}
use stiebel_eltron_heatpump.Models.{
  Conversions, Text, codes, FloatOps, Value, DataType, ChannelDefinition, writable,
}
use stiebel_eltron_heatpump.Config.{
  channel, Request, HeatPumpConfig, requests, request_for_channel, request_by_bytes,
}
use stiebel_eltron_heatpump.Communication.Clock.{Now, Reported, set_time}
use stiebel_eltron_heatpump.Protocol.Transport.{Transport}
use stiebel_eltron_heatpump.Protocol.Connector.{connect, disconnect}
use stiebel_eltron_heatpump.Communication.{
  Version, unknown_version, get_version, read_request, read_requests, write_data,
}
use stiebel_eltron_heatpump.Service.{
  Requested, ChannelValue, coerce, to_channel_value, require_channel, found, value_or, requests_for,
  all_known, select, is_one_of, is_type, types_or_default, requests_of_type,
}

-- `_connected`, and the connection.
abbrev pub Connection : Transport → Type 0
Connection t = Bool × t.State

abbrev pub connected_after :
    {S : Type 0} → Bool → Bool → Result (Unit {0}) × S → Result (Unit {0}) × (Bool × S)
connected_after before after (ok _, s) = (ok tt, (after, s))
connected_after before after (err e, s) = (err e, (before, s))

-- `connect` of the service, which opens the connection once.
unfoldable pub open_service : (t : Transport) → Exec (Connection t) (Unit {0})
open_service t (true, s) = (ok tt, (true, s))
open_service t (false, s) = connected_after false true (connect t s)

-- `close` of the service.
unfoldable pub close_service : (t : Transport) → Exec (Connection t) (Unit {0})
close_service t (true, s) = connected_after true false (disconnect t s)
close_service t (false, s) = (ok tt, (false, s))

module _ (t : Transport) {F : Type 0} (ops : FloatOps F) (config : HeatPumpConfig F) where
  unfoldable pub version_by_request : Option (Request F) → Exec t.State (Version F)
  version_by_request none = pure unknown_version
  version_by_request (some request) = get_version t ops request

  unfoldable pub service_version : Exec t.State (Version F)
  service_version = version_by_request (request_by_bytes config (codes "FD"))

  -- `read_request(request)`: without a request there is no attribute to read.
  unfoldable pub read_found : Option (Request F) → Exec t.State (Dict (Value F))
  read_found none = raise attribute_error
  read_found (some request) = read_request t ops request

  unfoldable pub read_channel : Text → Exec t.State (ChannelValue F)
  read_channel channel_id = do
    r ← lift (require_channel config channel_id)
    values ← read_found (request_for_channel config channel_id)
    value ← lift (found (lookup channel_id values))
    pure (to_channel_value r value)

  unfoldable pub read_channels : List Text → Exec t.State (List (ChannelValue F))
  read_channels wanted =
      if all_known config wanted
      then (do
        values ← read_requests t ops (requests_for config wanted)
        pure (select config (λ channel_id _. is_one_of wanted channel_id) values))
      else raise channel_not_found

  unfoldable pub read_all : List DataType → Exec t.State (List (ChannelValue F))
  read_all data_types = do
    let types = types_or_default data_types
    values ← read_requests t ops (requests_of_type types (requests config))
    pure (select config (λ _ r. is_type types r.data_type) values)

  module _ (conv : Conversions F) where
    unfoldable pub write_writable :
        ChannelDefinition F → Text → Requested F → Exec t.State (ChannelValue F)
    write_writable r channel_id value = do
      coerced ← lift (coerce ops conv r value)
      values ← write_data t ops coerced r
      pure (to_channel_value r (value_or (lookup channel_id values) coerced))

    unfoldable pub write_channel : Text → Requested F → Exec t.State (ChannelValue F)
    write_channel channel_id value = do
      r ← lift (require_channel config channel_id)
      if writable r then write_writable r channel_id value else raise channel_not_writable

-- `_CLOCK_REGISTERS`
abbrev pub clock_registers : List (Text × Text)
clock_registers =
    (codes "day", codes "pClockDay")
    ∷ (codes "month", codes "pClockMonth")
    ∷ (codes "year", codes "pClockYear")
    ∷ (codes "hours", codes "pClockHour")
    ∷ (codes "minutes", codes "pClockMinutes")
    ∷ []

module _ {F : Type 0} where
  abbrev add_register :
      Text → Option (ChannelDefinition F) → Dict (ChannelDefinition F) → Dict (ChannelDefinition F)
  add_register field none registers = registers
  add_register field (some r) registers = insert field r registers

  -- The loop of `set_time` over `_CLOCK_REGISTERS`.
  unfoldable pub clock_records :
      HeatPumpConfig F
      → List (Text × Text)
      → Dict (ChannelDefinition F)
      → Dict (ChannelDefinition F)
  clock_records config [] registers = registers
  clock_records config ((field, channel_id) ∷ rest) registers =
      clock_records config rest (add_register field (channel config channel_id) registers)

module _ (t : Transport) {F : Type 0} (ops : FloatOps F) (config : HeatPumpConfig F) where
  unfoldable pub service_set_time : Now → Exec t.State (Dict (Reported F))
  service_set_time now =
      set_time t ops (request_by_bytes config (codes "FC"))
        (clock_records config clock_registers []) now
