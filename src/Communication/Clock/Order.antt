-- ===== src/Communication/Clock/Order.antt =====
-- What `set_time` has written when it ends.
use stiebel_eltron_heatpump.Prelude.{subst, ◌≡◌, refl, List, [], ◌∷◌, Option, none, some}
use stiebel_eltron_heatpump.Errors.{ok}
use stiebel_eltron_heatpump.Exec.{next-ok}
use stiebel_eltron_heatpump.Dict.{Dict, lookup, update, lookup-insert_self}
use stiebel_eltron_heatpump.Models.{Text, codes, FloatOps, Value, ChannelDefinition}
use stiebel_eltron_heatpump.Config.{Request}
use stiebel_eltron_heatpump.Protocol.Transport.{Transport}
use stiebel_eltron_heatpump.Communication.{write_values}
use stiebel_eltron_heatpump.Communication.Clock.{
  Now, Reported, time_text, clock_fields, clock_values, value_of, report, write_register,
  registers_loop, set_time_via_registers, read_back, finish_time, set_time,
}

module _ (t : Transport) {F : Type 0} (ops : FloatOps F)
    (clock_records : Dict (ChannelDefinition F)) (values : Dict (Value F)) where
  -- From one state to the other the fields were written one after the other, each with its value to
  -- its own register by a write that raised nothing; a field without a register is passed over.
  pub data Writes (last : t.State) : List Text → t.State → Type 0 where
    finished : {s : t.State} → s ≡ last → Writes last [] s
    absent :
        {s : t.State} {field : Text} {fields : List Text}
        → lookup field clock_records ≡ none
        → Writes last fields s
        → Writes last (field ∷ fields) s
    wrote :
        {s s' : t.State} {field : Text} {fields : List Text} {r : ChannelDefinition F}
        {value : Value F} {answer : Dict (Value F)}
        → lookup field clock_records ≡ some r
        → lookup field values ≡ some value
        → write_values t ops ((value, r) ∷ []) s ≡ (ok answer, s')
        → Writes last fields s'
        → Writes last (field ∷ fields) s

  value_of-ok : (o : Option (Value F)) (value : Value F) → value_of o ≡ ok value → o ≡ some value
  value_of-ok none value h = cc
  value_of-ok (some v) value h = cc

  write_register-Writes :
      (field : Text) (fields : List Text) (o : Option (ChannelDefinition F))
      (written written' : Dict (Value F)) (s s' last : t.State)
      → lookup field clock_records ≡ o
      → write_register t ops field o values written s ≡ (ok written', s')
      → Writes last fields s'
      → Writes last (field ∷ fields) s
  unfolding write_register
  write_register-Writes field fields none written written' s s' last e h later =
      let same : s' ≡ s = cc in absent e (subst (λ (x : t.State). Writes last fields x) same later)
  write_register-Writes field fields (some r) written written' s s' last e h later =
      let (value, s1, f, h1) = next-ok _ (value_of (lookup field values), s) h in
      let (answer, s2, g, h2) = next-ok _ (write_values t ops ((value, r) ∷ []) s1) h1 in
      let sent : write_values t ops ((value, r) ∷ []) s ≡ (ok answer, s') = cc in
      wrote e (value_of-ok (lookup field values) value (cc)) sent later

  registers_loop-Writes :
      (fields : List Text) (written result : Dict (Value F)) (s last : t.State)
      → registers_loop t ops fields clock_records values written s ≡ (ok result, last)
      → Writes last fields s
  unfolding registers_loop
  registers_loop-Writes [] written result s last h = finished (cc)
  registers_loop-Writes (field ∷ fields) written result s last h =
      let (written', s1, e, h1) =
        next-ok _ (write_register t ops field (lookup field clock_records) values written s) h in
      write_register-Writes field fields (lookup field clock_records) written written' s s1 last
        refl e (registers_loop-Writes fields written' result s1 last h1)

module _ (t : Transport) {F : Type 0} (ops : FloatOps F) (now : Now) where
  finish_time-ok :
      (read_request : Option (Request F)) (written : Dict (Value F)) (result : Dict (Reported F))
      (s last : t.State)
      → finish_time t ops read_request now written s ≡ (ok result, last)
      → lookup (codes "lastUpdate") result ≡ some (time_text now.last_update)
  unfolding finish_time
  finish_time-ok read_request written result s last h =
      let (back, s1, e, h1) = next-ok _ (read_back t ops read_request s) h in
      let stamp : Reported F = time_text now.last_update in
      let law = lookup-insert_self (codes "lastUpdate") stamp (report (update back written)) in cc

  -- If the device has clock registers and `set_time` returns, then day, month, year, hours and
  -- minutes were written in this order, each to its register where there is one, and no write raised;
  -- the answer carries the time that was set.
  pub set_time-Writes :
      (read_request : Option (Request F)) (field : Text) (r : ChannelDefinition F)
      (rest : Dict (ChannelDefinition F)) (result : Dict (Reported F)) (s last : t.State)
      → set_time t ops read_request ((field, r) ∷ rest) now s ≡ (ok result, last)
      → (middle : t.State) × Writes t ops
          ((field, r) ∷ rest)
          (clock_values now)
          middle
          (codes "day" ∷ codes "month" ∷ codes "year" ∷ codes "hours" ∷ codes "minutes" ∷ [])
          s
        × (lookup (codes "lastUpdate") result ≡ some (time_text now.last_update))
  unfolding set_time set_time_via_registers
  set_time-Writes read_request field r rest result s last h =
      let (written, s1, e, h1) =
        next-ok _ (set_time_via_registers t ops ((field, r) ∷ rest) (clock_values now) s) h in
      (
        s1,
        registers_loop-Writes t ops ((field, r) ∷ rest) (clock_values now) clock_fields [] written s
            s1 e,
        finish_time-ok read_request written result s1 last h1,
      )
