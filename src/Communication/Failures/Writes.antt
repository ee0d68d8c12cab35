-- ===== src/Communication/Failures/Writes.antt =====
-- What a write can raise, whatever the device does.
use stiebel_eltron_heatpump.Prelude.{
  ◌≡◌, refl, true, arith, ℤ, [], ◌∷◌, inl, inr, Bool-cases, list_eq,
}
use stiebel_eltron_heatpump.Errors.{
  Exn, Result, ok, err, protocol_error, no_current_value, too_much_data,
}
use stiebel_eltron_heatpump.Exec.{◌>>◌}
use stiebel_eltron_heatpump.Exec.Raises.{
  is_link_error, Within, Within-next, Only-next, Only-err, Only-bind,
}
use stiebel_eltron_heatpump.Models.{FloatOps, Value, ChannelDefinition}
use stiebel_eltron_heatpump.Items.{first_command, compose_items}
use stiebel_eltron_heatpump.Protocol.Frame.{Bytes, escape, get_mark, add_duplicated_bytes}
use stiebel_eltron_heatpump.Protocol.Frame.Header.{create_request_message_lem}
use stiebel_eltron_heatpump.Config.{from_hex}
use stiebel_eltron_heatpump.Protocol.Transport.{Transport, Raises}
use stiebel_eltron_heatpump.Protocol.Connector.{
  start, establish_request, receive_data, finish_set, set_data, get_data,
}
use stiebel_eltron_heatpump.Protocol.Connector.Outcomes.{
  Fails, link, raised, IsReceived, bounded, too_much, receive_data-IsReceived, get_data-Fails,
}
use stiebel_eltron_heatpump.Communication.{write_frame, write_read, write_values, write_data}
use stiebel_eltron_heatpump.Protocol.Encode.{compose_record, raw_of_value}
use stiebel_eltron_heatpump.Communication.Failures.{
  is_write_failure, OnlyFailure, OnlyFailure-ok, compose_record-OnlyFailure, confirm-OnlyFailure,
}

-- A protocol error, ValueOutOfRange, IndexError, or what a call of the transport raises.
pub data WriteFails (t : Transport) (e : Exn) : Type 0 where
  failure : is_write_failure e ≡ true → WriteFails t e
  raised_by : Raises t e → WriteFails t e

link-WriteFails : (t : Transport) (e : Exn) → is_link_error e ≡ true → WriteFails t e
unfolding is_write_failure is_link_error
link-WriteFails t e h = let is : is_write_failure e ≡ true = ground arith in failure is

module _ (t : Transport) where
  Fails-WriteFails : {A : Type 0} (r : Result A) → Within (Fails t) r → Within (WriteFails t) r
  Fails-WriteFails r h e eq = elim (h e eq) [
    | link is ↦ link-WriteFails t e is
    | raised of ↦ raised_by of
  ]

  IsReceived-OnlyFailure : (r : Result Bytes) → IsReceived r → OnlyFailure r
  unfolding is_write_failure
  IsReceived-OnlyFailure r (bounded bytes is few) e h = cc
  IsReceived-OnlyFailure r (too_much is) e h =
      let same : e ≡ protocol_error too_much_data = cc in rw same refl

  finish_set-OnlyFailure : {A : Type 0} (p : Result A × t.State) → OnlyFailure (finish_set t p).0
  finish_set-OnlyFailure (ok a, s) =
      IsReceived-OnlyFailure (receive_data t s).0 (receive_data-IsReceived t s)
  finish_set-OnlyFailure (err x, s) = OnlyFailure-ok []

  set_data-OnlyFailure : (message : Bytes) (s : t.State) → OnlyFailure (set_data t message s).0
  unfolding set_data
  set_data-OnlyFailure message s =
      finish_set-OnlyFailure ((start t >> (establish_request t message >> t.write (escape ∷ []))) s)

  module _ {F : Type 0} (ops : FloatOps F) (r : ChannelDefinition F) (value : Value F) (raw : ℤ)
      (is : raw_of_value ops value r ≡ ok raw) where
    compose_items-OnlyFailure :
        (frame : Bytes) → OnlyFailure (compose_items ops ((value, r) ∷ []) frame)
    unfolding compose_items
    compose_items-OnlyFailure frame =
        Only-bind is_write_failure (compose_record ops value frame r) _
          (compose_record-OnlyFailure ops r value raw frame is)
          (λ written e. OnlyFailure-ok written)

    write_frame-OnlyFailure :
        (response : Bytes) (s : t.State)
        → OnlyFailure (write_frame t ops response ((value, r) ∷ []) s).0
    unfolding write_frame
    write_frame-OnlyFailure response s =
        Only-next is_write_failure _ (compose_items ops ((value, r) ∷ []) response, s)
          (compose_items-OnlyFailure response)
          (λ updated s1 e.
            Only-next is_write_failure _ (set_data t (add_duplicated_bytes updated) s1)
              (set_data-OnlyFailure (add_duplicated_bytes updated) s1)
              (λ answer s2 f. confirm-OnlyFailure ops response updated ((value, r) ∷ []) answer))

    write_read-OnlyFailure :
        (message response : Bytes) (s : t.State)
        → OnlyFailure (write_read t ops message response ((value, r) ∷ []) s).0
    unfolding write_read
    write_read-OnlyFailure message [] s = elim (Bool-cases (list_eq message [])) [
      | inl same ↦ rw same (OnlyFailure-ok [])
      | inr other ↦ rw other (
          Only-err is_write_failure (protocol_error no_current_value)
            (unfold is_write_failure in refl))
    ]
    write_read-OnlyFailure message (b ∷ bs) s = elim (Bool-cases (list_eq message (b ∷ bs))) [
      | inl same ↦ rw same (OnlyFailure-ok [])
      | inr other ↦ rw other (write_frame-OnlyFailure (b ∷ bs) s)
    ]

    -- Whatever the device does, a write of a value that can be converted ends with values, with a
    -- protocol error, with ValueOutOfRange, with an IndexError or with an exception that a call of
    -- the transport raises.
    pub write_data-WriteFails :
        (command : Bytes)
        → from_hex r.request_byte ≡ ok command
        → (s : t.State) → Within (WriteFails t) (write_data t ops value r s).0
    unfolding write_data write_values first_command
    write_data-WriteFails command hex s =
        let (message, m, _, _) = create_request_message_lem command get_mark (inl refl) in
        rw (hex, m)
          (Within-next (WriteFails t) _ (get_data t message s)
            (Fails-WriteFails (get_data t message s).0 (get_data-Fails t message s))
            (λ response s1 e x h. failure (write_read-OnlyFailure message response s1 x h)))
