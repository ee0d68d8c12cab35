-- ===== src/Api/Unhandled.antt =====
-- The exceptions that no handler of the application takes, which end a request with status 500.
use stiebel_eltron_heatpump.Prelude.{
  ◌≤◌, list_eq, ◌⊎◌, ℤ, arith, ◌≡◌, refl, List, ◌∷◌, [], some, true, false, inl,
}
use stiebel_eltron_heatpump.Errors.{ok, err, runtime_error, is_protocol_error, index_error}
use stiebel_eltron_heatpump.Items.{Item, first_command, compose_items}
use stiebel_eltron_heatpump.Models.{Text, FloatOps, Value, ChannelDefinition, Conversions, writable}
use stiebel_eltron_heatpump.Config.{Request, HeatPumpConfig, channel, request_for_channel, from_hex}
use stiebel_eltron_heatpump.Protocol.Frame.{
  Bytes, get_mark, start_communication, create_request_message,
}
use stiebel_eltron_heatpump.Protocol.Frame.Header.{create_request_message_lem}
use stiebel_eltron_heatpump.Protocol.Encode.{out_of_range, raw_of_value}
use stiebel_eltron_heatpump.Protocol.Encode.Short.{compose_record-short}
use stiebel_eltron_heatpump.Protocol.Transport.{Transport}
use stiebel_eltron_heatpump.Protocol.Serial.{SerialPort, Both, serial, write_serial}
use stiebel_eltron_heatpump.Protocol.Connector.{start, get_data}
use stiebel_eltron_heatpump.Communication.{
  write_read, write_frame, write_data, get_checked, read_attempt, read_loop, read_request,
  write_values,
}
use stiebel_eltron_heatpump.Communication.Outcomes.{HasCommands}
use stiebel_eltron_heatpump.Service.{Requested, coerce}
use stiebel_eltron_heatpump.Service.Operations.{
  read_found, read_channel, write_channel, write_writable,
}
use stiebel_eltron_heatpump.Api.{
  length, unhandled, handled, read_error, read_route, write_route, write_error,
}
use stiebel_eltron_heatpump.Api.Refusals.{require_channel-some}

module _ (t : Transport) {F : Type 0} (ops : FloatOps F) (s : t.State)
    (closed : (bytes : Bytes) → t.write bytes s ≡ (err runtime_error, s)) where
  get_data-closed : (message : Bytes) → get_data t message s ≡ (err runtime_error, s)
  unfolding get_data start
  get_data-closed message = rw (closed (start_communication ∷ [])) refl

  read_request-closed :
      (request : Request F)
      → HasCommands request
      → read_request t ops request s ≡ (err runtime_error, s)
  unfolding read_request read_loop read_attempt get_checked is_protocol_error
  read_request-closed request commands =
      let (message, m, _, _) = create_request_message_lem commands.command get_mark (inl refl) in
      rw (commands.first_is, m, get_data-closed message) refl

  write_values-closed :
      (items : List (Item F)) (command : Bytes)
      → first_command items ≡ ok command
      → write_values t ops items s ≡ (err runtime_error, s)
  unfolding write_values
  write_values-closed items command e =
      let (message, m, _, _) = create_request_message_lem command get_mark (inl refl) in
      rw (e, m, get_data-closed message) refl

  module _ (config : HeatPumpConfig F) (channel_id : Text) (r : ChannelDefinition F)
      (configured : channel config channel_id ≡ some r) where
    read_route-closed :
        (request : Request F)
        → request_for_channel config channel_id ≡ some request
        → HasCommands request
        → read_route t ops config true channel_id s ≡ (unhandled runtime_error, s)
    unfolding read_route read_channel read_found read_error handled is_protocol_error
    read_route-closed request is commands =
        rw
          (
            require_channel-some t ops config channel_id r configured,
            is,
            read_request-closed request commands,
          )
          refl

-- A device that could not be opened when the application started stays unreachable: as long as the
-- port is not open, a read of a configured channel ends with an exception that no handler takes,
-- and opens nothing, whatever the thread does meanwhile.
pub read_route-unconnected :
    (port : SerialPort) (wait : Both port → Both port) {F : Type 0} (ops : FloatOps F)
    (config : HeatPumpConfig F) (channel_id : Text) (r : ChannelDefinition F) (request : Request F)
    (x : Both port)
    → channel config channel_id ≡ some r
    → request_for_channel config channel_id ≡ some request
    → HasCommands request
    → x.0.is_open ≡ false
    → read_route (serial port wait) ops config true channel_id x ≡ (unhandled runtime_error, x)
unfolding write_serial
read_route-unconnected port wait ops config channel_id r request x e is commands closed =
    read_route-closed (serial port wait) ops x (λ bytes. rw closed refl) config channel_id r e
      request is commands

-- A device that answers the read before a write with a frame that ends before the record's place,
-- as an error frame may, ends the write with an exception that no handler takes: `_write_values`
-- checks the header of the confirmation, but not of this answer. The value is in the range of a
-- record of one or two bytes.
pub write_route-short_frame :
    (t : Transport) {F : Type 0} (ops : FloatOps F) (config : HeatPumpConfig F)
    (conv : Conversions F) (channel_id : Text) (value : Requested F) (coerced : Value F) (raw : ℤ)
    (r : ChannelDefinition F) (command message frame : Bytes) (s s' : t.State)
    → channel config channel_id ≡ some r
    → writable r ≡ true
    → coerce ops conv r value ≡ ok coerced
    → (r.length ≡ 1) ⊎ (r.length ≡ 2)
    → out_of_range ops coerced r ≡ false
    → raw_of_value ops coerced r ≡ ok raw
    → from_hex r.request_byte ≡ ok command
    → create_request_message command get_mark ≡ ok message
    → get_data t message s ≡ (ok frame, s')
    → list_eq message frame ≡ false
    → 2 ≤ length frame
    → length frame ≤ r.position
    → write_route t ops config true conv channel_id value s ≡ (unhandled index_error, s')
unfolding write_route write_channel write_writable write_error handled is_protocol_error write_data
    write_values first_command write_frame compose_items write_read
write_route-short_frame t ops config conv channel_id value coerced raw r command message [] s s' e w
      c size fits is hex m got differs two short =
    absurd (omega arith)
write_route-short_frame t ops config conv channel_id value coerced raw r command message (b ∷ bs) s
      s' e w c size fits is hex m got differs two short =
    rw
      (
        require_channel-some t ops config channel_id r e,
        w,
        c,
        hex,
        m,
        got,
        write_read,
        differs,
        compose_record-short ops r (b ∷ bs) coerced raw size fits is two short,
      )
      refl
