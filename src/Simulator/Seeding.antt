-- ===== src/Simulator/Seeding.antt =====
-- The values that the simulator reports: `_build_frame`, `set_value` and `_encode`. The state after
-- a raise in the middle of a change is not modelled.
pub mod Laws
pub mod Start
pub mod TwoCommands
use stiebel_eltron_heatpump.Prelude.{
  ℕ, ◌+◌, ◌-◌, List, [], ◌∷◌, ◌++◌, length, take, drop, set, replicate, get_elem?, Option, none,
  some, Bool, true, false, not, ◌&&◌, ◌||◌, ltb, leb, ◌==◌, if◌then◌else◌, ℤ, pos, div_ℤ, mod_ℤ,
}
use stiebel_eltron_heatpump.Errors.{Result, ok, err, ◌>>=◌, or_index_error}
use stiebel_eltron_heatpump.Dict.{Dict, lookup, insert}
use stiebel_eltron_heatpump.Models.{
  Text, codes, FloatOps, Conversions, Value, bool, int, float, ChannelDefinition,
}
use stiebel_eltron_heatpump.Config.{
  HeatPumpConfig, Request, given, from_hex, requests, channel, request_for_channel,
}
use stiebel_eltron_heatpump.Protocol.Frame.{Bytes, escape, end, header_start, get_mark}
use stiebel_eltron_heatpump.Protocol.Number.{store, short_to_bytes, set_bit}
use stiebel_eltron_heatpump.Protocol.Encode.{scaled_to_raw}
use stiebel_eltron_heatpump.Simulator.{Simulator, idle, with_checksum, mark_get, or_key_error}

-- `max(…)` of two positions.
abbrev larger : ℕ → ℕ → ℕ
larger a b = if ltb a b then b else a

-- `frame[3 : 3 + len(command)] = command`, which lengthens a frame that is too short.
unfoldable pub put_command : Bytes → Bytes → Bytes
put_command frame command = take 3 frame ++ (command ++ drop (3 + length command) frame)

-- `frame[-2]` and `frame[-1]`
unfoldable pub put_footer : Bytes → Result Bytes
put_footer frame = do
  escaped ← store frame (length frame - 2) escape
  store escaped (length escaped - 1) end

module _ {F : Type 0} where
  -- `max((r.position + r.length for r in request.records), default=5)`
  unfoldable pub data_end_from : ℕ → List (ChannelDefinition F) → ℕ
  data_end_from so_far [] = so_far
  data_end_from so_far (r ∷ records) = data_end_from (larger so_far (r.position + r.length)) records

  unfoldable pub data_end : List (ChannelDefinition F) → ℕ
  data_end [] = 5
  data_end (r ∷ records) = data_end_from (r.position + r.length) records

  unfoldable pub build_frame : Request F → Bytes → Result Bytes
  build_frame request command = do
    started ← store (replicate (data_end request.records + 2) 0) 0 header_start
    marked ← store started 1 get_mark
    closed ← put_footer (put_command marked command)
    with_checksum closed

  unfoldable pub encode_short : Bytes → ℤ → ChannelDefinition F → Result Bytes
  encode_short frame short_value r =
      let (low, high) = short_to_bytes short_value in
      if r.length == 1
      then store frame r.position low
      else if r.length == 2
      then (do written ← store frame r.position high; store written (r.position + 1) low)
      else ok frame

-- A change of the frame that the store holds under a key; the frame is the same object
-- wherever the code has it.
unfoldable pub modify : Text → (Bytes → Result Bytes) → Dict Bytes → Result (Dict Bytes)
modify key change frames = do
  frame ← or_key_error (lookup key frames)
  changed ← change frame
  ok (insert key changed frames)

module _ {F : Type 0} where
  -- `int(value)` for a value that is no bool.
  unfoldable pub int_of_value : Conversions F → Value F → Result ℤ
  int_of_value conv (bool b) = ok (if b then pos 1 else pos 0)
  int_of_value conv (int n) = ok n
  int_of_value conv (float x) = conv.truncate x

  -- `request.request_byte2 and not isinstance(value, bool)`
  abbrev pub second_command : Option Text → Value F → Option Text
  second_command command2 (bool b) = none
  second_command command2 value = given command2

module _ {F : Type 0} (ops : FloatOps F) where
  -- `_encode`
  unfoldable pub encode : Bytes → ChannelDefinition F → Value F → Result Bytes
  encode frame r (bool value) =
      if ltb 0 r.bit_position
      then (do
        old ← or_index_error (get_elem? frame r.position)
        store frame r.position (set_bit old r.bit_position value))
      else store frame r.position (if value then 1 else 0)
  encode frame r (float value) = do
    short_value ← scaled_to_raw ops value r.scale
    encode_short frame short_value r
  encode frame r (int value) = encode_short frame value r

  -- The two branches of `set_value`, by the second command.
  unfoldable pub encode_parts :
      Conversions F
      → Request F
      → ChannelDefinition F
      → Value F
      → Option Text
      → Dict Bytes
      → Result (Dict Bytes)
  encode_parts conv request r value none frames =
      modify request.request_byte (λ frame. encode frame r value) frames
  encode_parts conv request r value (some request_byte2) frames = do
    n ← int_of_value conv value
    lower ← modify request.request_byte (λ frame. encode frame r (int (pos (mod_ℤ n 1000)))) frames
    upper ← modify request_byte2 (λ frame. encode frame r (int (div_ℤ n 1000))) lower
    modify request_byte2 mark_get upper

  unfoldable pub set_in_request :
      Conversions F
      → ChannelDefinition F
      → Value F
      → Option (Request F)
      → Dict Bytes
      → Result (Dict Bytes)
  set_in_request conv r value none frames = ok frames
  set_in_request conv r value (some request) frames = do
    encoded ← encode_parts conv request r value (second_command request.request_byte2 value) frames
    modify request.request_byte mark_get encoded

  unfoldable pub set_in_channel :
      Conversions F
      → HeatPumpConfig F
      → Value F
      → Option (ChannelDefinition F)
      → Text
      → Dict Bytes
      → Result (Dict Bytes)
  set_in_channel conv config value none channel_id frames = ok frames
  set_in_channel conv config value (some r) channel_id frames =
      set_in_request conv r value (request_for_channel config channel_id) frames

  unfoldable pub set_value : Conversions F → Text → Value F → Simulator F → Result (Simulator F)
  set_value conv channel_id value s = do
    frames ← set_in_channel conv s.config value (channel s.config channel_id) channel_id s.frames
    ok (record s { frames = frames })
