-- ===== src/Api/Answers.antt =====
-- The statuses that a read can have, whatever the device does.
use stiebel_eltron_heatpump.Prelude.{
  arith, ◌≡◌, refl, Option, none, some, ◌≢◌, true, false, inl, inr, Option-cases,
}
use stiebel_eltron_heatpump.Errors.{
  Result, ok, err, Exn, is_protocol_error, protocol_error, invalid_data, write_not_confirmed,
  value_out_of_range, index_error, channel_not_found, channel_not_writable, attribute_error,
  key_error, value_error, type_error, overflow_error, zero_division, runtime_error,
}
use stiebel_eltron_heatpump.Exec.{next, pure}
use stiebel_eltron_heatpump.Exec.Raises.{Within, is_link_error}
use stiebel_eltron_heatpump.Dict.{Dict, lookup}
use stiebel_eltron_heatpump.Models.{Text, FloatOps, Value, ChannelDefinition}
use stiebel_eltron_heatpump.Config.{Request, HeatPumpConfig, channel, request_for_channel}
use stiebel_eltron_heatpump.Config.Lookup.{request_for_channel-some}
use stiebel_eltron_heatpump.Protocol.Transport.{Transport, Raises}
use stiebel_eltron_heatpump.Protocol.Connector.Outcomes.{Fails, link, raised}
use stiebel_eltron_heatpump.Communication.{read_request}
use stiebel_eltron_heatpump.Communication.Outcomes.{HasCommands, read_request-Fails}
use stiebel_eltron_heatpump.Service.{ChannelValue, found, to_channel_value}
use stiebel_eltron_heatpump.Service.Selection.{Tells, to_channel_value-Tells}
use stiebel_eltron_heatpump.Service.Operations.{read_found, read_channel}
use stiebel_eltron_heatpump.Api.{
  unhandled, Outcome, answered, http_error, handled, read_error, read_route, respond,
}
use stiebel_eltron_heatpump.Api.Refusals.{require_channel-some, require_channel-none}

-- A value of the configured channel, 404 or 503, or what comes of an exception of the transport.
pub data IsReadAnswer (t : Transport) {F : Type 0} (config : HeatPumpConfig F) (channel_id : Text)
    (o : Outcome (ChannelValue F)) : Type 0 where
  value_of :
      (r : ChannelDefinition F) (v : Value F) (answer : ChannelValue F)
      → channel config channel_id ≡ some r
      → Tells r v answer
      → o ≡ answered answer
      → IsReadAnswer t config channel_id o
  not_found : o ≡ http_error 404 → IsReadAnswer t config channel_id o
  unavailable : o ≡ http_error 503 → IsReadAnswer t config channel_id o
  not_confirmed :
      Raises t write_not_confirmed → o ≡ http_error 502 → IsReadAnswer t config channel_id o
  not_handled :
      (e : Exn)
      → Raises t e
      → is_protocol_error e ≡ false
      → e ≢ channel_not_found
      → o ≡ unhandled e
      → IsReadAnswer t config channel_id o

module _ (t : Transport) {F : Type 0} (ops : FloatOps F) (config : HeatPumpConfig F)
    (channel_id : Text) where
  read_error-link :
      (e : Exn) → is_link_error e ≡ true → read_error {A = ChannelValue F} e ≡ http_error 503
  unfolding read_error handled is_link_error is_protocol_error
  read_error-link e h = ground arith

  read_error-raised : (e : Exn) → Raises t e → IsReadAnswer t config channel_id (read_error e)
  unfolding read_error handled is_protocol_error
  read_error-raised (protocol_error reason) h = unavailable refl
  read_error-raised invalid_data h = unavailable refl
  read_error-raised write_not_confirmed h = not_confirmed h refl
  read_error-raised channel_not_found h = not_found refl
  read_error-raised value_out_of_range h = not_handled _ h refl (λ e. cc) refl
  read_error-raised index_error h = not_handled _ h refl (λ e. cc) refl
  read_error-raised channel_not_writable h = not_handled _ h refl (λ e. cc) refl
  read_error-raised attribute_error h = not_handled _ h refl (λ e. cc) refl
  read_error-raised key_error h = not_handled _ h refl (λ e. cc) refl
  read_error-raised value_error h = not_handled _ h refl (λ e. cc) refl
  read_error-raised type_error h = not_handled _ h refl (λ e. cc) refl
  read_error-raised overflow_error h = not_handled _ h refl (λ e. cc) refl
  read_error-raised zero_division h = not_handled _ h refl (λ e. cc) refl
  read_error-raised runtime_error h = not_handled _ h refl (λ e. cc) refl

  read_error-IsReadAnswer : (e : Exn) → Fails t e → IsReadAnswer t config channel_id (read_error e)
  read_error-IsReadAnswer e (link is) = unavailable (read_error-link e is)
  read_error-IsReadAnswer e (raised of) = read_error-raised e of

  found-IsReadAnswer :
      (r : ChannelDefinition F) (o : Option (Value F)) (s : t.State)
      → channel config channel_id ≡ some r
      → IsReadAnswer t config channel_id
          (respond read_error (next (λ value. pure (to_channel_value r value)) (found o, s)).0)
  unfolding found read_error
  found-IsReadAnswer r none s e = not_found refl
  found-IsReadAnswer r (some v) s e =
      value_of r v (to_channel_value r v) e (to_channel_value-Tells r v) refl

  read-IsReadAnswer :
      (r : ChannelDefinition F) (p : Result (Dict (Value F)) × t.State)
      → channel config channel_id ≡ some r
      → Within (Fails t) p.0
      → IsReadAnswer t config channel_id (
          respond read_error
            (next
              (λ values s.
                next
                  (λ value. pure (to_channel_value r value))
                  (found (lookup channel_id values), s))
              p).0)
  read-IsReadAnswer r (ok values, s) e h = found-IsReadAnswer r (lookup channel_id values) s e
  read-IsReadAnswer r (err x, s) e h = read_error-IsReadAnswer x (h x refl)

  -- Whatever the device sends and whenever it is silent, over any transport, a read of a channel
  -- whose request has hexadecimal commands ends with a value under the channel's id, unit and type,
  -- with 404 or with 503; or, if a call of the transport itself raises WriteNotConfirmed, with 502,
  -- and if one raises an exception that is neither a protocol error nor ChannelNotFound, with that
  -- one unhandled.
  pub read_route-IsReadAnswer :
      ((request : Request F)
        → request_for_channel config channel_id ≡ some request
        → HasCommands request)
      → (s : t.State)
      → IsReadAnswer t config channel_id (read_route t ops config true channel_id s).0
  unfolding read_route read_channel read_found read_error
  read_route-IsReadAnswer commands s = elim (Option-cases (channel config channel_id)) [
    | inl e ↦ rw (require_channel-none t ops config channel_id e) (not_found refl)
    | inr (r, e) ↦
        let (request, is, _) = request_for_channel-some config channel_id r e in
        rw (require_channel-some t ops config channel_id r e, is)
          (read-IsReadAnswer r (read_request t ops request s) e
            (read_request-Fails t ops request (commands request is) s))
  ]
