-- ===== src/Protocol/Decode.antt =====
-- Decoding the values of a response: `parse_record` and `parse_records` of
-- stiebel_heatpump/protocol/parser.py.
pub mod Slot
pub mod Kind
pub mod Records
pub mod Total
use stiebel_eltron_heatpump.Prelude.{
  some, none, [], ◌+ℤ◌, is_zero, ◌∷◌, ◌*ℤ◌, List, Option, ◌+◌, Bool, false, not, ℤ, pos, length,
  get_elem?, ltb, ◌==◌, if◌then◌else◌,
}
use stiebel_eltron_heatpump.Dict.{Dict, insert}
use stiebel_eltron_heatpump.Errors.{invalid_data, Result, ok, err, ◌>>=◌, or_index_error}
use stiebel_eltron_heatpump.Models.{FloatOps, ChannelDefinition, Value, bool, int, float, is_switch}
use stiebel_eltron_heatpump.Protocol.Frame.{Bytes}
use stiebel_eltron_heatpump.Protocol.Number.{
  signed_byte, unpack_short, unpack_int, get_bit_from_bytes,
}

-- `except InvalidDataException: raise` and `except Exception: raise InvalidDataException`
abbrev pub as_invalid_data {ℓ} : {A : Type ℓ} → Result A → Result A
as_invalid_data (ok a) = ok a
as_invalid_data (err _) = err invalid_data

module _ {F : Type 0} (ops : FloatOps F) where
  -- `math.floor(scaled * 100.0 + 0.5) / 100.0` for `scaled = number * record.scale`
  unfoldable pub scale_number : ℤ → F → Result F
  scale_number number scale = do
    n ← ops.of_int number
    rounded ← ops.floor (ops.add (ops.mul (ops.mul n scale) ops.hundred) ops.half)
    q ← ops.of_int rounded
    ops.div q ops.hundred

  -- The end of `parse_record`, for a number read from one or two bytes.
  unfoldable pub decode_number : Bytes → ℤ → ChannelDefinition F → Result (Value F)
  decode_number raw number r =
      if ltb 0 r.bit_position
      then (do b ← get_bit_from_bytes raw r.bit_position; ok (bool b))
      else if is_switch ops r
      then ok (bool (not (is_zero number)))
      else if not (ops.eq r.scale ops.one)
      then (do x ← scale_number number r.scale; ok (float x))
      else ok (int number)

  -- The cases of `parse_record` by the record's length, inside its `try`.
  unfoldable pub parse_by_length : Bytes → ChannelDefinition F → Result (Value F)
  parse_by_length response r =
      if r.length == 1
      then (do
        b ← or_index_error (get_elem? response r.position)
        decode_number (b ∷ []) (signed_byte b) r)
      else if r.length == 2
      then (do
        high ← or_index_error (get_elem? response r.position)
        low ← or_index_error (get_elem? response (r.position + 1))
        decode_number (high ∷ low ∷ []) (unpack_short high low) r)
      else if r.length == 4
      then (do
        a ← or_index_error (get_elem? response r.position)
        b ← or_index_error (get_elem? response (r.position + 1))
        c ← or_index_error (get_elem? response (r.position + 2))
        d ← or_index_error (get_elem? response (r.position + 3))
        ok (int (unpack_int a b c d)))
      else err invalid_data

  unfoldable pub parse_record : Bytes → ChannelDefinition F → Result (Value F)
  parse_record response r =
      if ltb (length response) 2
      then err invalid_data
      else if ltb (length response) (r.position + r.length)
      then err invalid_data
      else as_invalid_data (parse_by_length response r)

  -- `isinstance(value, int) and not isinstance(value, bool) and record.length != 4`
  unfoldable pub is_short_result : Value F → ChannelDefinition F → Bool
  is_short_result (int _) r = not (r.length == 4)
  is_short_result _ r = false

  -- `value2 * 1000 + value` for an integer `value`; a bool counts as 0 or 1.
  unfoldable pub combine_values : Value F → ℤ → Result (Value F)
  combine_values (int n) value = ok (int (n *ℤ pos 1000 +ℤ value))
  combine_values (bool b) value = ok (int ((if b then pos 1 else pos 0) *ℤ pos 1000 +ℤ value))
  combine_values (float x) value = do
    k ← ops.of_int (pos 1000)
    v ← ops.of_int value
    ok (float (ops.add (ops.mul x k) v))

  -- The second half of the loop body of `parse_records`, for the value of the first response.
  unfoldable pub combine_response : Option Bytes → ChannelDefinition F → Value F → Result (Value F)
  combine_response none r value = ok value
  combine_response (some response2) r (int n) =
      if is_short_result (int n) r
      then (do value2 ← parse_record response2 r; combine_values value2 n)
      else ok (int n)
  combine_response (some response2) r value = ok value

  -- One round of the loop: a record that cannot be parsed is left out, `except
  -- InvalidDataException: continue`.
  unfoldable pub parse_into :
      Bytes → Option Bytes → ChannelDefinition F → Dict (Value F) → Result (Dict (Value F))
  parse_into response response2 r result =
      elim (parse_record response r >>= combine_response response2 r) [
        | ok value ↦ ok (insert r.channel_id value result)
        | err invalid_data ↦ ok result
        | err e ↦ err e
      ]

  unfoldable pub parse_loop :
      Bytes → Option Bytes → List (ChannelDefinition F) → Dict (Value F) → Result (Dict (Value F))
  parse_loop response response2 [] result = ok result
  parse_loop response response2 (r ∷ rs) result = do
    next ← parse_into response response2 r result
    parse_loop response response2 rs next

  abbrev pub too_short : Option Bytes → Bool
  too_short none = false
  too_short (some response2) = ltb (length response2) 2

  unfoldable pub parse_records :
      Bytes → List (ChannelDefinition F) → Option Bytes → Result (Dict (Value F))
  parse_records response records response2 =
      if ltb (length response) 2
      then ok []
      else if too_short response2
      then ok []
      else parse_loop response response2 records []
