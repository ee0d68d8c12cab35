-- ===== src/Communication/Clock.antt =====
-- `set_time` of stiebel_heatpump/protocol/communication.py. The current time is an argument, with
-- the text that `strftime` makes of it.
pub mod Order
pub mod Unconfirmed
use stiebel_eltron_heatpump.Prelude.{
  ℕ, ◌%◌, List, [], ◌∷◌, Option, none, some, Bool, true, false, pos, map, if◌then◌else◌,
}
use stiebel_eltron_heatpump.Errors.{Result, ok, err, key_error}
use stiebel_eltron_heatpump.Exec.{Exec, pure, raise, lift, ◌>>=◌, ◌>>◌}
use stiebel_eltron_heatpump.Dict.{Dict, lookup, insert, update}
use stiebel_eltron_heatpump.Models.{Text, codes, FloatOps, Value, int, ChannelDefinition}
use stiebel_eltron_heatpump.Config.{Request, request_bytes}
use stiebel_eltron_heatpump.Items.{compose_clock}
use stiebel_eltron_heatpump.Protocol.Frame.{Bytes, header_check, add_duplicated_bytes}
use stiebel_eltron_heatpump.Protocol.Decode.{parse_records}
use stiebel_eltron_heatpump.Protocol.Encode.{compose_record}
use stiebel_eltron_heatpump.Protocol.Transport.{Transport}
use stiebel_eltron_heatpump.Protocol.Connector.{get_data, set_data}
use stiebel_eltron_heatpump.Communication.{message_for, write_values}

-- `datetime.now()`
pub record Now : Type 0 where
  pub year : ℕ
  pub month : ℕ
  pub day : ℕ
  pub hour : ℕ
  pub minute : ℕ
  pub last_update : Text

-- A value of the answer of `set_time`: a decoded value, or the text of the time.
pub data Reported (F : Type 0) : Type 0 where
  decoded : Value F → Reported F
  time_text : Text → Reported F

-- `_CLOCK_FIELDS`
abbrev pub clock_fields : List Text
clock_fields = codes "day" ∷ codes "month" ∷ codes "year" ∷ codes "hours" ∷ codes "minutes" ∷ []

module _ {F : Type 0} where
  -- `values` of `set_time`
  abbrev pub clock_values : Now → Dict (Value F)
  clock_values now =
      (codes "day", int (pos now.day))
      ∷ (codes "month", int (pos now.month))
      ∷ (codes "year", int (pos (now.year % 100)))
      ∷ (codes "hours", int (pos now.hour))
      ∷ (codes "minutes", int (pos now.minute))
      ∷ []

  -- `values[field]`
  abbrev pub value_of : Option (Value F) → Result (Value F)
  value_of none = err key_error
  value_of (some value) = ok value

  unfoldable pub report : Dict (Value F) → Dict (Reported F)
  report [] = []
  report ((key, value) ∷ values) = (key, decoded value) ∷ report values

module _ (t : Transport) {F : Type 0} (ops : FloatOps F) where
  -- One round of the loop of `_set_time_via_registers`.
  unfoldable pub write_register :
      Text
      → Option (ChannelDefinition F)
      → Dict (Value F)
      → Dict (Value F)
      → Exec t.State (Dict (Value F))
  write_register field none values written = pure written
  write_register field (some r) values written = do
    value ← lift (value_of (lookup field values))
    answer ← write_values t ops ((value, r) ∷ [])
    pure (update written answer)

  unfoldable pub registers_loop :
      List Text
      → Dict (ChannelDefinition F)
      → Dict (Value F)
      → Dict (Value F)
      → Exec t.State (Dict (Value F))
  registers_loop [] clock_records values written = pure written
  registers_loop (field ∷ fields) clock_records values written = do
    written' ← write_register field (lookup field clock_records) values written
    registers_loop fields clock_records values written'

  unfoldable pub set_time_via_registers :
      Dict (ChannelDefinition F) → Dict (Value F) → Exec t.State (Dict (Value F))
  set_time_via_registers clock_records values = registers_loop clock_fields clock_records values []

  -- The part of `_set_time_via_frame` that writes. What the device answers to the SET is not read.
  unfoldable pub send_clock :
      Bytes → List (ChannelDefinition F) → Dict (Value F) → Exec t.State (Dict (Value F))
  send_clock response records values = do
    composed ← lift (compose_clock ops records values response [])
    answer ← set_data t (add_duplicated_bytes composed.0)
    pure composed.1

  unfoldable pub set_time_via_frame : Request F → Dict (Value F) → Exec t.State (Dict (Value F))
  set_time_via_frame read_request values = do
    message ← lift (message_for (request_bytes read_request))
    response ← get_data t message
    if header_check response then send_clock response read_request.records values else pure []

  -- What `set_time` reads back in the end.
  unfoldable pub read_back : Option (Request F) → Exec t.State (Dict (Value F))
  read_back none = pure []
  read_back (some read_request) = do
    message ← lift (message_for (request_bytes read_request))
    response ← get_data t message
    if header_check response
        then lift (parse_records ops response read_request.records none)
        else pure []

  unfoldable pub finish_time :
      Option (Request F) → Now → Dict (Value F) → Exec t.State (Dict (Reported F))
  finish_time read_request now written = do
    values ← read_back read_request
    pure (insert (codes "lastUpdate") (time_text now.last_update) (report (update values written)))

  -- `set_time`, where no clock registers and an empty dictionary of them are the same.
  unfoldable pub set_time :
      Option (Request F) → Dict (ChannelDefinition F) → Now → Exec t.State (Dict (Reported F))
  set_time none [] now = pure []
  set_time (some read_request) [] now = do
    written ← set_time_via_frame read_request (clock_values now)
    finish_time (some read_request) now written
  set_time read_request (record_ ∷ clock_records) now = do
    written ← set_time_via_registers (record_ ∷ clock_records) (clock_values now)
    finish_time read_request now written
