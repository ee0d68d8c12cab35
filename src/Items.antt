-- ===== src/Items.antt =====
-- The lists of values and records that `_write_values` and `_set_time_via_frame` of
-- stiebel_heatpump/protocol/communication.py go through.
use stiebel_eltron_heatpump.Prelude.{List, [], ◌∷◌, none, some, if◌then◌else◌}
use stiebel_eltron_heatpump.Errors.{
  Result, ok, err, ◌>>=◌, is_protocol_error, write_not_confirmed, index_error,
}
use stiebel_eltron_heatpump.Dict.{Dict, lookup, insert}
use stiebel_eltron_heatpump.Models.{FloatOps, Value, ChannelDefinition}
use stiebel_eltron_heatpump.Config.{from_hex}
use stiebel_eltron_heatpump.Protocol.Frame.{Bytes}
use stiebel_eltron_heatpump.Protocol.Decode.{parse_record}
use stiebel_eltron_heatpump.Protocol.Encode.{compose_record}

abbrev pub Item : Type 0 → Type 0
Item F = Value F × ChannelDefinition F

module _ {F : Type 0} (ops : FloatOps F) where
  -- `for value, record in items: parser.compose_record(value, update, record)`
  unfoldable pub compose_items : List (Item F) → Bytes → Result Bytes
  compose_items [] frame = ok frame
  compose_items ((value, r) ∷ items) frame = do
    written ← compose_record ops value frame r
    compose_items items written

  -- `{record.channel_id: parser.parse_record(frame, record) for _, record in items}`
  unfoldable pub parse_items : Bytes → List (Item F) → Dict (Value F) → Result (Dict (Value F))
  parse_items frame [] values = ok values
  parse_items frame ((_, r) ∷ items) values = do
    value ← parse_record ops frame r
    parse_items frame items (insert r.channel_id value values)

  -- The end of `_write_values`, by the outcome of `verify_header`. The values that the device kept
  -- are parsed for the message, which can raise too.
  unfoldable pub confirm :
      Bytes → Bytes → List (Item F) → Result (Unit {0}) → Result (Dict (Value F))
  confirm read_response updated items (ok _) = parse_items updated items []
  confirm read_response updated items (err e) =
      if is_protocol_error e
      then (do unchanged ← parse_items read_response items []; err write_not_confirmed)
      else err e

module _ {F : Type 0} where
  -- `bytes.fromhex(items[0][1].request_byte)`
  unfoldable pub first_command : List (Item F) → Result Bytes
  first_command [] = err index_error
  first_command ((_, r) ∷ items) = from_hex r.request_byte

module _ {F : Type 0} (ops : FloatOps F) where
  -- The loop of `_set_time_via_frame`, from the frame and the values so far.
  unfoldable pub compose_clock :
      List (ChannelDefinition F)
      → Dict (Value F)
      → Bytes
      → Dict (Value F)
      → Result (Bytes × Dict (Value F))
  compose_clock [] values frame written = ok (frame, written)
  compose_clock (r ∷ records) values frame written = elim (lookup r.channel_id values) [
    | none ↦ compose_clock records values frame written
    | some value ↦ do
      composed ← compose_record ops value frame r
      compose_clock records values composed (insert r.channel_id value written)
  ]
