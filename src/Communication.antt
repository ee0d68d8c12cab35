-- ===== src/Communication.antt =====
-- stiebel_heatpump/protocol/communication.py over a connector. The pauses are not modelled.
pub mod Reading
pub mod Writing
pub mod Confirmed
pub mod Clock
pub mod Outcomes
pub mod Closed
pub mod Failures
use stiebel_eltron_heatpump.Prelude.{
  ℕ, zero, suc, List, [], ◌∷◌, Option, none, some, Bool, true, false, not, list_eq, ℤ,
  if◌then◌else◌,
}
use stiebel_eltron_heatpump.Errors.{
  Result, ok, err, Exn, protocol_error, is_protocol_error, invalid_response, read_exhausted,
  no_current_value, write_not_confirmed, index_error,
}
use stiebel_eltron_heatpump.Exec.{Exec, pure, raise, lift, ◌>>=◌, ◌>>◌}
use stiebel_eltron_heatpump.Dict.{Dict, lookup, insert, update}
use stiebel_eltron_heatpump.Models.{Text, codes, FloatOps, Value, int, ChannelDefinition}
use stiebel_eltron_heatpump.Config.{Request, from_hex, request_bytes, request_bytes2}
use stiebel_eltron_heatpump.Items.{Item, compose_items, confirm, first_command}
use stiebel_eltron_heatpump.Protocol.Frame.{
  Bytes, get_mark, header_check, verify_header, create_request_message, add_duplicated_bytes,
}
use stiebel_eltron_heatpump.Protocol.Decode.{parse_record, parse_records}
use stiebel_eltron_heatpump.Protocol.Encode.{compose_record}
use stiebel_eltron_heatpump.Protocol.Transport.{Transport}
use stiebel_eltron_heatpump.Protocol.Connector.{connect, disconnect, get_data, set_data}

abbrev pub max_tries : ℕ
max_tries = 3

-- `parser.create_request_message(command)`
abbrev pub message_for : Result Bytes → Result Bytes
message_for (ok command) = create_request_message command get_mark
message_for (err e) = err e

-- `get_version`: the text "<UNKNOWN_VERSION>", or what `str` makes of a value.
pub data Version (F : Type 0) : Type 0 where
  unknown_version : Version F
  version_of : Value F → Version F

abbrev version_option : {F : Type 0} → Option (Value F) → Version F
version_option none = unknown_version
version_option (some value) = version_of value

module _ (t : Transport) {F : Type 0} (ops : FloatOps F) where
  -- `_restart`
  unfoldable pub restart : Exec t.State (Unit {0})
  restart = disconnect t >> connect t

  -- `get_data`, and the header check behind it.
  unfoldable pub get_checked : Bytes → Exec t.State Bytes
  get_checked message = do
    response ← get_data t message
    if header_check response then pure response else raise (protocol_error invalid_response)

  unfoldable pub read_second : Request F → Bytes → Option Bytes → Exec t.State (Dict (Value F))
  read_second request response none = lift (parse_records ops response request.records none)
  read_second request response (some command2) = do
    message2 ← lift (create_request_message command2 get_mark)
    response2 ← get_checked message2
    lift (parse_records ops response request.records (some response2))

  -- The body of the `try` in `read_request`.
  unfoldable pub read_attempt : Request F → Exec t.State (Dict (Value F))
  read_attempt request = do
    message ← lift (message_for (request_bytes request))
    response ← get_checked message
    second ← lift (request_bytes2 request)
    read_second request response second

  -- What one round of the loop of `read_request` does with the outcome of its attempt.
  abbrev pub retry :
      Exec t.State (Dict (Value F))
      → Result (Dict (Value F)) × t.State
      → Result (Dict (Value F)) × t.State
  retry again (ok data_map, s) = (ok data_map, s)
  retry again (err e, s) = elim (is_protocol_error e) [
    | true ↦ (restart >> again) s
    | false ↦ (err e, s)
  ]

  unfoldable pub read_loop : ℕ → Request F → Exec t.State (Dict (Value F))
  read_loop zero request s = (err (protocol_error read_exhausted), s)
  read_loop (suc tries) request s = retry (read_loop tries request) (read_attempt request s)

  unfoldable pub read_request : Request F → Exec t.State (Dict (Value F))
  read_request request = read_loop max_tries request

  -- The loop of `read_requests`, from the data read so far.
  unfoldable pub read_each : List (Request F) → Dict (Value F) → Exec t.State (Dict (Value F))
  read_each [] data_map = pure data_map
  read_each (request ∷ requests) data_map = do
    values ← read_request request
    read_each requests (update data_map values)

  unfoldable pub read_requests : List (Request F) → Exec t.State (Dict (Value F))
  read_requests requests = read_each requests []

  unfoldable pub get_version : Request F → Exec t.State (Version F)
  get_version version_request = do
    values ← read_request version_request
    pure (version_option (lookup (codes "version") values))

  -- The part of `_write_values` that writes.
  unfoldable pub write_frame : Bytes → List (Item F) → Exec t.State (Dict (Value F))
  write_frame read_response items = do
    updated ← lift (compose_items ops items read_response)
    set_response ← set_data t (add_duplicated_bytes updated)
    lift (confirm ops read_response updated items (verify_header set_response))

  unfoldable pub write_read : Bytes → Bytes → List (Item F) → Exec t.State (Dict (Value F))
  write_read read_request_message [] items =
      if list_eq read_request_message [] then pure [] else raise (protocol_error no_current_value)
  write_read read_request_message (b ∷ bs) items =
      if list_eq read_request_message (b ∷ bs) then pure [] else write_frame (b ∷ bs) items

  -- `_write_values`
  unfoldable pub write_values : List (Item F) → Exec t.State (Dict (Value F))
  write_values items = do
    read_request_message ← lift (message_for (first_command items))
    read_response ← get_data t read_request_message
    write_read read_request_message read_response items

  unfoldable pub write_data : Value F → ChannelDefinition F → Exec t.State (Dict (Value F))
  write_data new_value r = write_values ((new_value, r) ∷ [])

  unfoldable pub write_time_quarter_pair :
      Value F → Value F → ChannelDefinition F → ChannelDefinition F → Exec t.State (Dict (Value F))
  write_time_quarter_pair start_value end_value record_start record_end =
      write_values ((start_value, record_start) ∷ (end_value, record_end) ∷ [])
