-- ===== src/Protocol/Encode.antt =====
-- Composing a value into a frame: `compose_record` of stiebel_heatpump/protocol/parser.py.
pub mod Shape
pub mod RoundTrip
pub mod Bools
pub mod Keeps
pub mod Wraps
pub mod Short
use stiebel_eltron_heatpump.Prelude.{
  ◌||◌, ◌+◌, Bool, false, ℤ, pos, get_elem?, ltb, ◌==◌, if◌then◌else◌,
}
use stiebel_eltron_heatpump.Errors.{
  value_out_of_range, ◌>>◌, raise_if, Result, ok, ◌>>=◌, or_index_error,
}
use stiebel_eltron_heatpump.Models.{FloatOps, ChannelDefinition, Value, bool, int, float}
use stiebel_eltron_heatpump.Protocol.Frame.{calculate_checksum, set_mark, Bytes}
use stiebel_eltron_heatpump.Protocol.Number.{short_to_bytes, set_bit, store}

module _ {F : Type 0} where
  -- The bytes of a number go to the record's place; a record of 4 bytes is left as it is.
  unfoldable pub encode_number : Bytes → ℤ → ChannelDefinition F → Result Bytes
  encode_number frame raw r =
      let (low, high) = short_to_bytes raw in
      if r.length == 1
      then store frame r.position low
      else if r.length == 2
      then (do written ← store frame r.position high; store written (r.position + 1) low)
      else ok frame

  unfoldable pub encode_bool : Bytes → Bool → ChannelDefinition F → Result Bytes
  encode_bool frame value r =
      if ltb 0 r.bit_position
      then (do
        old ← or_index_error (get_elem? frame r.position)
        store frame r.position (set_bit old r.bit_position value))
      else store frame r.position (if value then 1 else 0)

module _ {F : Type 0} (ops : FloatOps F) where
  unfoldable pub scaled_to_raw : F → F → Result ℤ
  scaled_to_raw value scale = do q ← ops.div value scale; ops.floor (ops.add q ops.half)

  -- `new_value > record.max or new_value < record.min`
  unfoldable pub out_of_range : Value F → ChannelDefinition F → Bool
  out_of_range (bool b) r = false
  out_of_range (int n) r = ops.lt_int r.max n || ops.int_lt n r.min
  out_of_range (float x) r = ops.lt r.max x || ops.lt x r.min

  -- `short_value`
  unfoldable pub raw_of_value : Value F → ChannelDefinition F → Result ℤ
  raw_of_value (bool b) r = ok (if b then pos 1 else pos 0)
  raw_of_value (int n) r = ok n
  raw_of_value (float x) r = scaled_to_raw x r.scale

  -- The two branches of `compose_record` by the type of the value.
  unfoldable pub encode_value : Value F → Bytes → ChannelDefinition F → Result Bytes
  encode_value (bool b) frame r = encode_bool frame b r
  encode_value value frame r = do
    raise_if (out_of_range value r) value_out_of_range
    raw ← raw_of_value value r
    encode_number frame raw r

  unfoldable pub compose_record : Value F → Bytes → ChannelDefinition F → Result Bytes
  compose_record new_value response r = do
    marked ← store response 1 set_mark
    written ← encode_value new_value marked r
    checksum ← calculate_checksum written
    store written 2 checksum
