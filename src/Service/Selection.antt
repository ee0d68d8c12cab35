-- ===== src/Service/Selection.antt =====
-- Which values a read of several channels answers with, in stiebel_heatpump/service.py.
pub mod Requests
pub mod Types
pub mod Answers
use stiebel_eltron_heatpump.Prelude.{
  IsIn, ◌≡◌, refl, sym, ap, arith, subst, ◌∙◌, List, [], ◌∷◌, none, some, Bool, true, false, ◌⊎◌,
  inl, inr, ◌↔◌, Option-cases,
}
use stiebel_eltron_heatpump.Errors.{ok}
use stiebel_eltron_heatpump.Dict.{Dict}
use stiebel_eltron_heatpump.Models.{Text, Value, ChannelDefinition, settings, writable}
use stiebel_eltron_heatpump.Config.{HeatPumpConfig, channel, requests}
use stiebel_eltron_heatpump.Protocol.Transport.{Transport}
use stiebel_eltron_heatpump.Communication.{read_requests}
use stiebel_eltron_heatpump.Service.{
  ChannelValue, is_one_of, to_channel_value, requests_for, all_known, select, is_type,
  types_or_default, requests_of_type, keep,
}
use stiebel_eltron_heatpump.Service.Operations.{read_channels, read_all}

-- The answer has the value, and the id, unit and type of the channel, and tells that it can be
-- written if it is a setting.
pub record Tells {F : Type 0} (r : ChannelDefinition F) (value : Value F) (answer : ChannelValue F)
    : Type 0 where
  pub same_id : answer.channel_id ≡ r.channel_id
  pub same_value : answer.value ≡ value
  pub same_unit : answer.unit ≡ r.unit
  pub same_type : answer.data_type ≡ r.data_type
  pub settings_only : (answer.can_write ≡ true) ↔ (r.data_type ≡ settings)

-- The answer tells a value that was read for an id, and the channel of that id is one of those meant.
pub record Selected {F : Type 0} (config : HeatPumpConfig F)
    (Meant : Text → ChannelDefinition F → Type 0) (values : Dict (Value F))
    (answer : ChannelValue F) : Type 0 where
  pub channel_id : Text
  pub value : Value F
  pub definition : ChannelDefinition F
  pub present : IsIn (channel_id, value) values
  pub configured : channel config channel_id ≡ some definition
  pub meant : Meant channel_id definition
  pub told : Tells definition value answer

Bool-same : {P : Type 0} (a b : Bool) → (a ≡ true) ↔ P → (b ≡ true) ↔ P → a ≡ b
Bool-same true b h k = sym (k.1 (h.0 refl))
Bool-same false true h k = h.1 (k.0 refl)
Bool-same false false h k = refl

writable_iff :
    {F : Type 0} (r : ChannelDefinition F) → (writable r ≡ true) ↔ (r.data_type ≡ settings)
unfolding writable
writable_iff r = ground arith

pub to_channel_value-Tells :
    {F : Type 0} (r : ChannelDefinition F) (value : Value F)
    → Tells r value (to_channel_value r value)
unfolding to_channel_value
to_channel_value-Tells r value = record {
  same_id = refl;
  same_value = refl;
  same_unit = refl;
  same_type = refl;
  settings_only = writable_iff r;
}

Tells-to_channel_value :
    {F : Type 0} (r : ChannelDefinition F) (value : Value F) (answer : ChannelValue F)
    → Tells r value answer
    → answer ≡ to_channel_value r value
unfolding to_channel_value
Tells-to_channel_value r value answer h =
    let w : answer.can_write ≡ writable r =
      Bool-same answer.can_write (writable r) h.settings_only (writable_iff r) in
    let e : answer ≡ record {
      channel_id = answer.channel_id;
      value = answer.value;
      unit = answer.unit;
      data_type = answer.data_type;
      can_write = answer.can_write;
    } =
      refl in
    e ∙ rw (h.same_id, h.same_value, h.same_unit, h.same_type, w) refl

module _ {F : Type 0} (config : HeatPumpConfig F) (test : Text → ChannelDefinition F → Bool)
    (Meant : Text → ChannelDefinition F → Type 0)
    (means : (channel_id : Text) (r : ChannelDefinition F)
      → (test channel_id r ≡ true) ↔ Meant channel_id r) where
  abbrev IsSelected : Dict (Value F) → ChannelValue F → Type 0
  IsSelected = Selected config Meant

  later :
      {entry : Text × Value F} {values : Dict (Value F)} {answer : ChannelValue F}
      → IsSelected values answer
      → IsSelected (entry ∷ values) answer
  later x = record {
    channel_id = x.channel_id;
    value = x.value;
    definition = x.definition;
    present = inr x.present;
    configured = x.configured;
    meant = x.meant;
    told = x.told;
  }

  select-none :
      (channel_id : Text) (value : Value F) (values : Dict (Value F))
      → channel config channel_id ≡ none
      → select config test ((channel_id, value) ∷ values) ≡ select config test values
  unfolding select
  select-none channel_id value values e = rw (select, e)

  select-some :
      (channel_id : Text) (value : Value F) (values : Dict (Value F)) (r : ChannelDefinition F)
      → channel config channel_id ≡ some r
      → select config test ((channel_id, value) ∷ values)
        ≡ keep (test channel_id r) r value (select config test values)
  unfolding select
  select-some channel_id value values r e = rw (select, e)

  keep-Selected :
      (channel_id : Text) (value : Value F) (values : Dict (Value F)) (r : ChannelDefinition F)
      (answer : ChannelValue F) (passed : Bool)
      → channel config channel_id ≡ some r
      → test channel_id r ≡ passed
      → (IsIn answer (select config test values) → IsSelected values answer)
      → IsIn answer (keep passed r value (select config test values))
      → IsSelected ((channel_id, value) ∷ values) answer
  keep-Selected channel_id value values r answer true e p others (inl same) = record {
    channel_id = channel_id;
    value = value;
    definition = r;
    present = inl refl;
    configured = e;
    meant = (means channel_id r).0 p;
    told = subst (Tells r value) same (to_channel_value-Tells r value);
  }
  keep-Selected channel_id value values r answer true e p others (inr h) = later (others h)
  keep-Selected channel_id value values r answer false e p others h = later (others h)

  select-Selected :
      (values : Dict (Value F)) (answer : ChannelValue F)
      → IsIn answer (select config test values)
      → IsSelected values answer
  unfolding select
  select-Selected [] answer h = elim h [ ]
  select-Selected ((channel_id, value) ∷ values) answer h =
      elim (Option-cases (channel config channel_id)) [
        | inl e ↦ later (
            select-Selected values answer (
              subst (λ (l : List (ChannelValue F)). IsIn answer l)
                (select-none channel_id value values e) h))
        | inr (r, e) ↦
            keep-Selected channel_id value values r answer (test channel_id r) e refl
              (select-Selected values answer)
              (subst (λ (l : List (ChannelValue F)). IsIn answer l)
                (select-some channel_id value values r e) h)
      ]

  keep-later :
      (passed : Bool) (r : ChannelDefinition F) (value : Value F) (rest : List (ChannelValue F))
      (answer : ChannelValue F)
      → IsIn answer rest
      → IsIn answer (keep passed r value rest)
  keep-later true r value rest answer h = inr h
  keep-later false r value rest answer h = h

  select-later :
      (channel_id : Text) (value : Value F) (values : Dict (Value F)) (answer : ChannelValue F)
      → IsIn answer (select config test values)
      → IsIn answer (select config test ((channel_id, value) ∷ values))
  select-later channel_id value values answer h = elim (Option-cases (channel config channel_id)) [
    | inl e ↦
        subst (λ (l : List (ChannelValue F)). IsIn answer l)
          (sym (select-none channel_id value values e)) h
    | inr (r, e) ↦
        subst (λ (l : List (ChannelValue F)). IsIn answer l)
          (sym (select-some channel_id value values r e))
          (keep-later (test channel_id r) r value (select config test values) answer h)
  ]

  -- The head's answer, if its channel passes.
  select-head :
      (channel_id : Text) (value : Value F) (values : Dict (Value F)) (r : ChannelDefinition F)
      → channel config channel_id ≡ some r
      → test channel_id r ≡ true
      → IsIn (to_channel_value r value) (select config test ((channel_id, value) ∷ values))
  select-head channel_id value values r e p =
      rw (select-some channel_id value values r e, p) (inl refl)

  Selected-select :
      (values : Dict (Value F)) (answer : ChannelValue F) (channel_id : Text) (value : Value F)
      (r : ChannelDefinition F)
      → IsIn (channel_id, value) values
      → channel config channel_id ≡ some r
      → test channel_id r ≡ true
      → answer ≡ to_channel_value r value
      → IsIn answer (select config test values)
  Selected-select [] answer channel_id value r h e p told = elim h [ ]
  Selected-select ((k, v) ∷ values) answer channel_id value r (inl same) e p told =
      let key : k ≡ channel_id = ap (λ (z : Text × Value F). z.0) same in
      let told' : to_channel_value r v ≡ answer =
        ap (λ (z : Text × Value F). to_channel_value r z.1) same ∙ sym told in
      subst (λ (a : ChannelValue F). IsIn a (select config test ((k, v) ∷ values))) told'
        (select-head k v values r (ap (channel config) key ∙ e)
          (ap (λ (z : Text). test z r) key ∙ p))
  Selected-select ((k, v) ∷ values) answer channel_id value r (inr h) e p told =
      select-later k v values answer (Selected-select values answer channel_id value r h e p told)

  -- The loop answers exactly with the values read whose channels are meant.
  pub select_iff :
      (values : Dict (Value F)) (answer : ChannelValue F)
      → IsIn answer (select config test values) ↔ IsSelected values answer
  select_iff values answer = (
    select-Selected values answer,
    λ x.
        Selected-select values answer x.channel_id x.value x.definition x.present x.configured
          ((means x.channel_id x.definition).1 x.meant)
          (Tells-to_channel_value x.definition x.value answer x.told),
  )
