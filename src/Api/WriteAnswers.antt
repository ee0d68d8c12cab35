-- ===== src/Api/WriteAnswers.antt =====
-- The statuses that a write can have, whatever the device does.
use stiebel_eltron_heatpump.Prelude.{◌≡◌, refl, ℤ, some, true, false}
use stiebel_eltron_heatpump.Errors.{
  Result, ok, err, Exn, protocol_error, invalid_data, write_not_confirmed, value_out_of_range,
  index_error, is_protocol_error, channel_not_found, channel_not_writable, attribute_error,
  key_error, value_error, type_error, overflow_error, zero_division, runtime_error,
}
use stiebel_eltron_heatpump.Exec.{next, pure}
use stiebel_eltron_heatpump.Dict.{Dict, lookup}
use stiebel_eltron_heatpump.Models.{Text, Conversions, FloatOps, Value, ChannelDefinition, writable}
use stiebel_eltron_heatpump.Config.{HeatPumpConfig, channel, from_hex}
use stiebel_eltron_heatpump.Protocol.Frame.{Bytes}
use stiebel_eltron_heatpump.Protocol.Encode.{raw_of_value}
use stiebel_eltron_heatpump.Protocol.Transport.{Transport, Raises}
use stiebel_eltron_heatpump.Exec.Raises.{Within}
use stiebel_eltron_heatpump.Communication.{write_data}
use stiebel_eltron_heatpump.Communication.Failures.{is_write_failure}
use stiebel_eltron_heatpump.Communication.Failures.Writes.{
  WriteFails, failure, raised_by, write_data-WriteFails,
}
use stiebel_eltron_heatpump.Service.{Requested, ChannelValue, coerce, value_or, to_channel_value}
use stiebel_eltron_heatpump.Service.Selection.{Tells, to_channel_value-Tells}
use stiebel_eltron_heatpump.Service.Operations.{write_writable, write_channel}
use stiebel_eltron_heatpump.Api.{
  Outcome, answered, http_error, unhandled, handled, write_error, write_route, respond,
}
use stiebel_eltron_heatpump.Api.Refusals.{require_channel-some}

-- A value of the channel, 400, 502 or 503, an IndexError that no handler takes, or what comes of an
-- exception of the transport.
pub data IsWriteAnswer (t : Transport) {F : Type 0} (r : ChannelDefinition F)
    (o : Outcome (ChannelValue F)) : Type 0 where
  written :
      (v : Value F) (answer : ChannelValue F)
      → Tells r v answer
      → o ≡ answered answer
      → IsWriteAnswer t r o
  out_of_limits : o ≡ http_error 400 → IsWriteAnswer t r o
  not_confirmed : o ≡ http_error 502 → IsWriteAnswer t r o
  unavailable : o ≡ http_error 503 → IsWriteAnswer t r o
  out_of_frame : o ≡ unhandled index_error → IsWriteAnswer t r o
  not_found : Raises t channel_not_found → o ≡ http_error 404 → IsWriteAnswer t r o
  conflict : Raises t channel_not_writable → o ≡ http_error 409 → IsWriteAnswer t r o
  not_handled :
      (e : Exn) → Raises t e → is_protocol_error e ≡ false → o ≡ unhandled e → IsWriteAnswer t r o

module _ (t : Transport) {F : Type 0} (r : ChannelDefinition F) where
  write_error-IsWriteAnswer :
      (e : Exn) → is_write_failure e ≡ true → IsWriteAnswer t r (write_error e)
  unfolding write_error handled is_protocol_error is_write_failure
  write_error-IsWriteAnswer (protocol_error reason) h = unavailable refl
  write_error-IsWriteAnswer invalid_data h = unavailable refl
  write_error-IsWriteAnswer write_not_confirmed h = not_confirmed refl
  write_error-IsWriteAnswer value_out_of_range h = out_of_limits refl
  write_error-IsWriteAnswer index_error h = out_of_frame refl
  write_error-IsWriteAnswer channel_not_found h = absurd (cc h)
  write_error-IsWriteAnswer channel_not_writable h = absurd (cc h)
  write_error-IsWriteAnswer attribute_error h = absurd (cc h)
  write_error-IsWriteAnswer key_error h = absurd (cc h)
  write_error-IsWriteAnswer value_error h = absurd (cc h)
  write_error-IsWriteAnswer type_error h = absurd (cc h)
  write_error-IsWriteAnswer overflow_error h = absurd (cc h)
  write_error-IsWriteAnswer zero_division h = absurd (cc h)
  write_error-IsWriteAnswer runtime_error h = absurd (cc h)

  write_error-raised : (e : Exn) → Raises t e → IsWriteAnswer t r (write_error e)
  unfolding write_error handled is_protocol_error
  write_error-raised (protocol_error reason) h = unavailable refl
  write_error-raised invalid_data h = unavailable refl
  write_error-raised write_not_confirmed h = not_confirmed refl
  write_error-raised value_out_of_range h = out_of_limits refl
  write_error-raised value_error h = out_of_limits refl
  write_error-raised type_error h = out_of_limits refl
  write_error-raised index_error h = out_of_frame refl
  write_error-raised channel_not_found h = not_found h refl
  write_error-raised channel_not_writable h = conflict h refl
  write_error-raised attribute_error h = not_handled _ h refl refl
  write_error-raised key_error h = not_handled _ h refl refl
  write_error-raised overflow_error h = not_handled _ h refl refl
  write_error-raised zero_division h = not_handled _ h refl refl
  write_error-raised runtime_error h = not_handled _ h refl refl

  WriteFails-IsWriteAnswer : (e : Exn) → WriteFails t e → IsWriteAnswer t r (write_error e)
  WriteFails-IsWriteAnswer e (failure is) = write_error-IsWriteAnswer e is
  WriteFails-IsWriteAnswer e (raised_by of) = write_error-raised e of

  respond-IsWriteAnswer :
      {S : Type 0} (channel_id : Text) (coerced : Value F) (p : Result (Dict (Value F)) × S)
      → Within (WriteFails t) p.0
      → IsWriteAnswer t r (
          respond write_error
            (next
              (λ values. pure (to_channel_value r (value_or (lookup channel_id values) coerced)))
              p).0)
  respond-IsWriteAnswer channel_id coerced (ok values, s) h =
      let v = value_or (lookup channel_id values) coerced in
      written v (to_channel_value r v) (to_channel_value-Tells r v) refl
  respond-IsWriteAnswer channel_id coerced (err e, s) h = WriteFails-IsWriteAnswer e (h e refl)

-- Whatever the device sends and whenever it is silent, over any transport, a write to a setting
-- whose command is hexadecimal, of a value that can be converted to the channel's kind and to its
-- bytes, ends with a value under the channel's id, unit and type, with 400, 502 or 503, or with an
-- IndexError; or, if a call of the transport itself raises an exception that is no protocol error,
-- with that one unhandled, or with 404 or 409 if it is ChannelNotFound or ChannelNotWritable.
pub write_route-IsWriteAnswer :
    (t : Transport) {F : Type 0} (ops : FloatOps F) (config : HeatPumpConfig F)
    (conv : Conversions F) (channel_id : Text) (value : Requested F) (coerced : Value F) (raw : ℤ)
    (r : ChannelDefinition F) (command : Bytes)
    → channel config channel_id ≡ some r
    → writable r ≡ true
    → coerce ops conv r value ≡ ok coerced
    → raw_of_value ops coerced r ≡ ok raw
    → from_hex r.request_byte ≡ ok command
    → (s : t.State) → IsWriteAnswer t r (write_route t ops config true conv channel_id value s).0
unfolding write_route write_channel write_writable
write_route-IsWriteAnswer t ops config conv channel_id value coerced raw r command e w c is hex s =
    rw (require_channel-some t ops config channel_id r e, w, c)
      (respond-IsWriteAnswer t r channel_id coerced (write_data t ops coerced r s)
        (write_data-WriteFails t ops r coerced raw is command hex s))
