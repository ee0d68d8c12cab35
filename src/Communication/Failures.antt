-- ===== src/Communication/Failures.antt =====
-- What composing a value into a frame and confirming it can raise.
pub mod Writes
use stiebel_eltron_heatpump.Prelude.{
  arith, ◌≡◌, refl, sym, ◌∙◌, ap, ℕ, zero, suc, ◌+◌, ℤ, List, [], ◌∷◌, length, Option, none, some,
  Bool, true, false, inl, inr, Bool-cases, if◌then◌else◌, ltb, ◌==◌, list_eq, get_elem?,
}
use stiebel_eltron_heatpump.Errors.{
  Result, ok, err, Exn, protocol_error, invalid_data, write_not_confirmed, value_out_of_range,
  index_error, no_current_value, too_much_data, is_protocol_error, ◌>>=◌, ◌>>◌, raise_if,
  or_index_error, Result-cases,
}
use stiebel_eltron_heatpump.Exec.{next}
use stiebel_eltron_heatpump.Exec.Raises.{Only-next, Only, Only-err, Only-bind, Only-if}
use stiebel_eltron_heatpump.Dict.{Dict, insert}
use stiebel_eltron_heatpump.Models.{FloatOps, Value, bool, int, float, ChannelDefinition}
use stiebel_eltron_heatpump.Items.{first_command, Item, compose_items, parse_items, confirm}
use stiebel_eltron_heatpump.Protocol.Frame.{
  Bytes, escape, get_mark, create_request_message, add_duplicated_bytes, set_mark, verify_header,
  calculate_checksum,
}
use stiebel_eltron_heatpump.Protocol.Frame.Header.{verify_header_errors, create_request_message_lem}
use stiebel_eltron_heatpump.Config.{from_hex}
use stiebel_eltron_heatpump.Protocol.Transport.{Transport}
use stiebel_eltron_heatpump.Protocol.Connector.{
  start, establish_request, receive_data, finish_set, set_data, get_data,
}
use stiebel_eltron_heatpump.Communication.{
  message_for, write_frame, write_read, write_values, write_data,
}
use stiebel_eltron_heatpump.Protocol.Number.{store, short_to_bytes, set_bit}
use stiebel_eltron_heatpump.Protocol.Decode.{parse_record}
use stiebel_eltron_heatpump.Protocol.Decode.Records.{parse_record-err}
use stiebel_eltron_heatpump.Protocol.Encode.{
  compose_record, encode_value, encode_number, encode_bool, out_of_range, raw_of_value,
}

-- A protocol error, ValueOutOfRange or IndexError.
unfoldable pub is_write_failure : Exn → Bool
is_write_failure (protocol_error _) = true
is_write_failure invalid_data = true
is_write_failure write_not_confirmed = true
is_write_failure value_out_of_range = true
is_write_failure index_error = true
is_write_failure _ = false

abbrev pub OnlyFailure {ℓ} : {A : Type ℓ} → Result A → Type ℓ
OnlyFailure r = Only is_write_failure r

pub OnlyFailure-ok {ℓ} : {A : Type ℓ} (a : A) → OnlyFailure (ok a)
OnlyFailure-ok a e h = cc

store-OnlyFailure : (frame : Bytes) (i v : ℕ) → OnlyFailure (store frame i v)
unfolding store is_write_failure
store-OnlyFailure frame i v e h = ground arith

index-OnlyFailure : (o : Option ℕ) → OnlyFailure (or_index_error o)
unfolding is_write_failure
index-OnlyFailure none e h = ground arith
index-OnlyFailure (some b) e h = cc

checksum-OnlyFailure : (frame : Bytes) → OnlyFailure (calculate_checksum frame)
unfolding calculate_checksum is_write_failure
checksum-OnlyFailure frame e h = ground arith

range_then :
    {A : Type 0} (outside : Bool) (rest : Result A)
    → OnlyFailure rest
    → OnlyFailure (raise_if outside value_out_of_range >> rest)
unfolding is_write_failure
range_then true rest h e eq = ground arith
range_then false rest h e eq = h e eq

module _ {F : Type 0} (ops : FloatOps F) (r : ChannelDefinition F) where
  encode_number-OnlyFailure : (frame : Bytes) (raw : ℤ) → OnlyFailure (encode_number frame raw r)
  unfolding encode_number
  encode_number-OnlyFailure frame raw =
      let (low, high) = short_to_bytes raw in
      Only-if is_write_failure (r.length == 1) _ _ (store-OnlyFailure frame r.position low) (
        Only-if is_write_failure (r.length == 2) _ _
          (Only-bind is_write_failure (store frame r.position high) _
            (store-OnlyFailure frame r.position high)
            (λ written e. store-OnlyFailure written (r.position + 1) low))
          (OnlyFailure-ok frame))

  encode_bool-OnlyFailure : (frame : Bytes) (value : Bool) → OnlyFailure (encode_bool frame value r)
  unfolding encode_bool
  encode_bool-OnlyFailure frame value =
      Only-if is_write_failure (ltb 0 r.bit_position) _ _
        (Only-bind is_write_failure (or_index_error (get_elem? frame r.position)) _
          (index-OnlyFailure (get_elem? frame r.position))
          (λ old e. store-OnlyFailure frame r.position (set_bit old r.bit_position value)))
        (store-OnlyFailure frame r.position (if value then 1 else 0))

  encode_value-OnlyFailure :
      (value : Value F) (raw : ℤ) (frame : Bytes)
      → raw_of_value ops value r ≡ ok raw
      → OnlyFailure (encode_value ops value frame r)
  unfolding encode_value
  encode_value-OnlyFailure (bool b) raw frame is = encode_bool-OnlyFailure frame b
  encode_value-OnlyFailure (int n) raw frame is =
      rw is (range_then (out_of_range ops (int n) r) _ (encode_number-OnlyFailure frame raw))
  encode_value-OnlyFailure (float x) raw frame is =
      rw is (range_then (out_of_range ops (float x) r) _ (encode_number-OnlyFailure frame raw))

  pub compose_record-OnlyFailure :
      (value : Value F) (raw : ℤ) (frame : Bytes)
      → raw_of_value ops value r ≡ ok raw
      → OnlyFailure (compose_record ops value frame r)
  unfolding compose_record
  compose_record-OnlyFailure value raw frame is =
      Only-bind is_write_failure (store frame 1 set_mark) _ (store-OnlyFailure frame 1 set_mark)
        (λ marked e.
          Only-bind is_write_failure (encode_value ops value marked r) _
            (encode_value-OnlyFailure value raw marked is)
            (λ written f.
              Only-bind is_write_failure (calculate_checksum written) _
                (checksum-OnlyFailure written)
                (λ checksum g. store-OnlyFailure written 2 checksum)))

module _ {F : Type 0} (ops : FloatOps F) where
  parse_items-OnlyFailure :
      (frame : Bytes) (items : List (Item F)) (values : Dict (Value F))
      → OnlyFailure (parse_items ops frame items values)
  unfolding parse_items is_write_failure
  parse_items-OnlyFailure frame [] values = OnlyFailure-ok values
  parse_items-OnlyFailure frame ((v, r) ∷ items) values =
      Only-bind is_write_failure (parse_record ops frame r) _
        (λ e h. ground (arith, parse_record-err ops frame r e h))
        (λ value h. parse_items-OnlyFailure frame items (insert r.channel_id value values))

  -- What `verify_header` raises is a ProtocolError.
  pub confirm-OnlyFailure :
      (read_response updated : Bytes) (items : List (Item F)) (response : Bytes)
      → OnlyFailure (confirm ops read_response updated items (verify_header response))
  unfolding confirm
  confirm-OnlyFailure read_response updated items response =
      elim (Result-cases (verify_header response)) [
        | inl (u, e) ↦ rw (e, confirm) (parse_items-OnlyFailure updated items [])
        | inr (x, e) ↦
            rw (e, confirm, verify_header_errors response x e)
              (Only-bind is_write_failure (parse_items ops read_response items []) _
                (parse_items-OnlyFailure read_response items [])
                (λ unchanged h.
                  Only-err is_write_failure write_not_confirmed (unfold is_write_failure in refl)))
      ]
