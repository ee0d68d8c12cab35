-- ===== src/Communication/Closed.antt =====
-- While a transport refuses every write, the operations leave it as it is.
use stiebel_eltron_heatpump.Prelude.{
  sym, subst, ℕ, ◌+◌, ◌*◌, ◌∙◌, arith, ◌≡◌, refl, sym, subst, List, [], ◌∷◌, Option, none, some,
  false, inl, inr, Bool-cases,
}
use stiebel_eltron_heatpump.Errors.{
  ◌>>=◌, Result, ok, err, Exn, runtime_error, value_error, is_protocol_error, Result-cases,
}
use stiebel_eltron_heatpump.Exec.{Exec, next, lift}
use stiebel_eltron_heatpump.Dict.{Dict, lookup, update}
use stiebel_eltron_heatpump.Models.{Text, FloatOps, Value, ChannelDefinition}
use stiebel_eltron_heatpump.Config.{Request, from_hex, hex_digit, is_space, request_bytes}
use stiebel_eltron_heatpump.Items.{Item, first_command}
use stiebel_eltron_heatpump.Protocol.Frame.{Bytes, get_mark, start_communication}
use stiebel_eltron_heatpump.Protocol.Frame.Header.{create_request_message_lem}
use stiebel_eltron_heatpump.Protocol.Transport.{Transport}
use stiebel_eltron_heatpump.Protocol.Connector.{start, get_data}
use stiebel_eltron_heatpump.Communication.{
  message_for, get_checked, read_attempt, retry, read_loop, read_request, read_each, get_version,
  write_values,
}
use stiebel_eltron_heatpump.Communication.Clock.{
  Now, write_register, registers_loop, set_time_via_registers, set_time_via_frame, read_back,
  finish_time, set_time, value_of, clock_values, clock_fields,
}

module _ {S : Type 0} (s : S) where
  -- The statement leaves the state `s` as it is.
  abbrev pub IsStill : {A : Type 0} → Exec S A → Type 0
  IsStill m = (m s).1 ≡ s

  pub next-IsStill :
      {A B : Type 0} (m : Exec S A) (f : A → Exec S B)
      → IsStill m
      → ((a : A) → IsStill (f a))
      → (next f (m s)).1 ≡ s
  next-IsStill m f h k = next_in (m s) f h k
    where
      next_in :
          {A B : Type 0} (p : Result A × S) (f : A → Exec S B)
          → p.1 ≡ s
          → ((a : A) → IsStill (f a))
          → (next f p).1 ≡ s
      next_in (ok a, s') f h k = subst (λ x. (f a x).1 ≡ s) (sym h) (k a)
      next_in (err e, s') f h k = h

hex_digit-err : (c : ℕ) (e : Exn) → hex_digit c ≡ err e → e ≡ value_error
unfolding hex_digit
hex_digit-err c e h = ground arith

message_for-err : (r : Result Bytes) (e : Exn) → message_for r ≡ err e → r ≡ err e
message_for-err (ok command) e h =
    let (message, m, _, _) = create_request_message_lem command get_mark (inl refl) in absurd (cc)
message_for-err (err x) e h = h

-- The three statements that read one byte.
from_hex-pair :
    (high low : Result ℕ) (rest : Result Bytes) (e : Exn)
    → (high ≡ err e → e ≡ value_error)
    → (low ≡ err e → e ≡ value_error)
    → (rest ≡ err e → e ≡ value_error)
    → (do h ← high; l ← low; data_bytes ← rest; ok ((h * 16 + l) ∷ data_bytes)) ≡ err e
    → e ≡ value_error
from_hex-pair (err x) low rest e f g k h = f (cc)
from_hex-pair (ok a) (err x) rest e f g k h = g (cc)
from_hex-pair (ok a) (ok b) (err x) e f g k h = k (cc)
from_hex-pair (ok a) (ok b) (ok data_bytes) e f g k h = cc

from_hex-err : (text : Text) (e : Exn) → from_hex text ≡ err e → e ≡ value_error
unfolding from_hex
from_hex-err [] e h = cc
from_hex-err (c ∷ []) e h = ground arith
from_hex-err (c ∷ d ∷ rest) e h = elim (Bool-cases (is_space c)) [
  | inl blank ↦ from_hex-err (d ∷ rest) e (sym (rw (from_hex, blank) refl) ∙ h)
  | inr other ↦
      from_hex-pair (hex_digit c) (hex_digit d) (from_hex rest) e (hex_digit-err c e)
        (hex_digit-err d e) (from_hex-err rest e) (sym (rw (from_hex, other) refl) ∙ h)
]

module _ (t : Transport) {F : Type 0} (ops : FloatOps F) (s : t.State)
    (closed : (bytes : Bytes) → t.write bytes s ≡ (err runtime_error, s)) where
  pub get_data-closed : (message : Bytes) → get_data t message s ≡ (err runtime_error, s)
  unfolding get_data start
  get_data-closed message = rw (closed (start_communication ∷ [])) refl

  -- A chain that begins with a read of the device.
  get_data-IsStill :
      {A : Type 0} (message : Bytes) (f : Bytes → Exec t.State A)
      → (next f (get_data t message s)).1 ≡ s
  get_data-IsStill message f = rw (get_data-closed message) refl

  attempt-closed :
      (request : Request F)
      → (e : Exn) × (read_attempt t ops request s ≡ (err e, s)) × (is_protocol_error e ≡ false)
  unfolding read_attempt get_checked is_protocol_error request_bytes
  attempt-closed request = elim (Result-cases (message_for (request_bytes request))) [
    | inl (message, m) ↦ (runtime_error, rw (m, get_data-closed message) refl, refl)
    | inr (e, m) ↦
        let is : e ≡ value_error =
          from_hex-err request.request_byte e (message_for-err (request_bytes request) e m) in
        (e, rw m refl, rw is refl)
  ]

  pub read_request-IsStill : (request : Request F) → IsStill s (read_request t ops request)
  unfolding read_request read_loop
  read_request-IsStill request =
      let (e, is, other) = attempt-closed request in rw (is, retry, other) refl

  pub read_each-IsStill :
      (requests : List (Request F)) (values : Dict (Value F))
      → IsStill s (read_each t ops requests values)
  unfolding read_each
  read_each-IsStill [] values = refl
  read_each-IsStill (request ∷ requests) values =
      next-IsStill s (read_request t ops request) _ (read_request-IsStill request)
        (λ read. read_each-IsStill requests (update values read))

  pub get_version-IsStill : (request : Request F) → IsStill s (get_version t ops request)
  unfolding get_version
  get_version-IsStill request =
      next-IsStill s (read_request t ops request) _ (read_request-IsStill request) (λ values. refl)

  pub write_values-IsStill : (items : List (Item F)) → IsStill s (write_values t ops items)
  unfolding write_values
  write_values-IsStill items =
      next-IsStill s (lift (message_for (first_command items))) _ refl
        (λ message. get_data-IsStill message _)

  write_register-IsStill :
      (field : Text) (r : Option (ChannelDefinition F)) (values written : Dict (Value F))
      → IsStill s (write_register t ops field r values written)
  unfolding write_register
  write_register-IsStill field none values written = refl
  write_register-IsStill field (some r) values written =
      next-IsStill s (lift (value_of (lookup field values))) _ refl (λ value.
        next-IsStill s (write_values t ops ((value, r) ∷ [])) _
          (write_values-IsStill ((value, r) ∷ [])) (λ answer. refl))

  registers_loop-IsStill :
      (fields : List Text) (registers : Dict (ChannelDefinition F))
      (values written : Dict (Value F))
      → IsStill s (registers_loop t ops fields registers values written)
  unfolding registers_loop
  registers_loop-IsStill [] registers values written = refl
  registers_loop-IsStill (field ∷ fields) registers values written =
      next-IsStill s (write_register t ops field (lookup field registers) values written) _
        (write_register-IsStill field (lookup field registers) values written)
        (λ written'. registers_loop-IsStill fields registers values written')

  read_back-IsStill : (request : Option (Request F)) → IsStill s (read_back t ops request)
  unfolding read_back
  read_back-IsStill none = refl
  read_back-IsStill (some request) =
      next-IsStill s (lift (message_for (request_bytes request))) _ refl
        (λ message. get_data-IsStill message _)

  finish_time-IsStill :
      (request : Option (Request F)) (now : Now) (written : Dict (Value F))
      → IsStill s (finish_time t ops request now written)
  unfolding finish_time
  finish_time-IsStill request now written =
      next-IsStill s (read_back t ops request) _ (read_back-IsStill request) (λ values. refl)

  pub set_time-IsStill :
      (request : Option (Request F)) (registers : Dict (ChannelDefinition F)) (now : Now)
      → IsStill s (set_time t ops request registers now)
  unfolding set_time set_time_via_frame set_time_via_registers
  set_time-IsStill none [] now = refl
  set_time-IsStill (some request) [] now =
      next-IsStill s (set_time_via_frame t ops request (clock_values now)) _
        (next-IsStill s (lift (message_for (request_bytes request))) _ refl
          (λ message. get_data-IsStill message _))
        (λ written. finish_time-IsStill (some request) now written)
  set_time-IsStill request (register ∷ registers) now =
      next-IsStill s (set_time_via_registers t ops (register ∷ registers) (clock_values now)) _
        (registers_loop-IsStill clock_fields (register ∷ registers) (clock_values now) [])
        (λ written. finish_time-IsStill request now written)
