-- ===== src/Service/Selection/Types.antt =====
-- Which requests a read by types sends, in stiebel_heatpump/service.py.
use stiebel_eltron_heatpump.Prelude.{
  IsIn, arith, ◌≡◌, refl, sym, ap, subst, ◌∙◌, List, [], ◌∷◌, true, inl, inr, ◌↔◌, Bool-cases,
  if◌then◌else◌,
}
use stiebel_eltron_heatpump.Models.{ChannelDefinition, DataType, sensor, status, settings}
use stiebel_eltron_heatpump.Config.{Request}
use stiebel_eltron_heatpump.Service.{is_type, types_or_default, has_type, requests_of_type}

-- The types asked for, or sensors and status values if none is.
pub data IsAsked (types : List DataType) (d : DataType) : Type 0 where
  asked : IsIn d types → IsAsked types d
  sensor_anyway : types ≡ [] → d ≡ sensor → IsAsked types d
  status_anyway : types ≡ [] → d ≡ status → IsAsked types d

is_type-IsIn : (types : List DataType) (d : DataType) → is_type types d ≡ true → IsIn d types
unfolding is_type
is_type-IsIn [] d h = absurd (cc h)
is_type-IsIn (sensor ∷ types) sensor h = inl refl
is_type-IsIn (status ∷ types) status h = inl refl
is_type-IsIn (settings ∷ types) settings h = inl refl
is_type-IsIn (sensor ∷ types) status h = inr (is_type-IsIn types status h)
is_type-IsIn (sensor ∷ types) settings h = inr (is_type-IsIn types settings h)
is_type-IsIn (status ∷ types) sensor h = inr (is_type-IsIn types sensor h)
is_type-IsIn (status ∷ types) settings h = inr (is_type-IsIn types settings h)
is_type-IsIn (settings ∷ types) sensor h = inr (is_type-IsIn types sensor h)
is_type-IsIn (settings ∷ types) status h = inr (is_type-IsIn types status h)

is_type_self : (types : List DataType) (d : DataType) → is_type (d ∷ types) d ≡ true
unfolding is_type
is_type_self types sensor = refl
is_type_self types status = refl
is_type_self types settings = refl

is_type_later :
    (t : DataType) (types : List DataType) (d : DataType)
    → is_type types d ≡ true
    → is_type (t ∷ types) d ≡ true
unfolding is_type
is_type_later sensor types sensor h = refl
is_type_later status types status h = refl
is_type_later settings types settings h = refl
is_type_later sensor types status h = h
is_type_later sensor types settings h = h
is_type_later status types sensor h = h
is_type_later status types settings h = h
is_type_later settings types sensor h = h
is_type_later settings types status h = h

IsIn-is_type : (types : List DataType) (d : DataType) → IsIn d types → is_type types d ≡ true
IsIn-is_type [] d h = elim h [ ]
IsIn-is_type (t ∷ types) d (inl same) =
    subst (λ (x : DataType). is_type (x ∷ types) d ≡ true) (sym same) (is_type_self types d)
IsIn-is_type (t ∷ types) d (inr h) = is_type_later t types d (IsIn-is_type types d h)

default_types : (d : DataType) → is_type (sensor ∷ status ∷ []) d ≡ true → IsAsked [] d
unfolding is_type
default_types sensor h = sensor_anyway refl refl
default_types status h = status_anyway refl refl
default_types settings h = absurd (cc h)

IsAsked-is_type :
    (types : List DataType) (d : DataType)
    → IsAsked types d
    → is_type (types_or_default types) d ≡ true
IsAsked-is_type [] d (asked h) = elim h [ ]
IsAsked-is_type [] d (sensor_anyway e is) = rw is (IsIn-is_type _ sensor (inl refl))
IsAsked-is_type [] d (status_anyway e is) = rw is (IsIn-is_type _ status (inr (inl refl)))
IsAsked-is_type (t ∷ types) d (asked h) = IsIn-is_type (t ∷ types) d h
IsAsked-is_type (t ∷ types) d (sensor_anyway e is) = absurd (cc e)
IsAsked-is_type (t ∷ types) d (status_anyway e is) = absurd (cc e)

pub is_type_iff :
    (types : List DataType) (d : DataType)
    → (is_type (types_or_default types) d ≡ true) ↔ IsAsked types d
is_type_iff [] d = (default_types d, IsAsked-is_type [] d)
is_type_iff (t ∷ types) d =
    (λ h. asked (is_type-IsIn (t ∷ types) d h), IsAsked-is_type (t ∷ types) d)

module _ {F : Type 0} where
  -- A channel of the request is of a type asked for.
  abbrev pub HoldsAsked : List DataType → List (ChannelDefinition F) → Type 0
  HoldsAsked types records = (r : ChannelDefinition F) × IsIn r records × IsAsked types r.data_type

  has_type-HoldsAsked :
      (types : List DataType) (records : List (ChannelDefinition F))
      → has_type (types_or_default types) records ≡ true
      → HoldsAsked types records
  unfolding has_type
  has_type-HoldsAsked types [] h = absurd (cc h)
  has_type-HoldsAsked types (r ∷ records) h =
      elim (Bool-cases (is_type (types_or_default types) r.data_type)) [
        | inl is ↦ (r, inl refl, (is_type_iff types r.data_type).0 is)
        | inr other ↦
            let (q, there, its) = has_type-HoldsAsked types records (sym (rw other refl) ∙ h) in
            (q, inr there, its)
      ]

  HoldsAsked-has_type :
      (types : List DataType) (records : List (ChannelDefinition F)) (r : ChannelDefinition F)
      → IsIn r records
      → IsAsked types r.data_type
      → has_type (types_or_default types) records ≡ true
  unfolding has_type
  HoldsAsked-has_type types [] r h its = elim h [ ]
  HoldsAsked-has_type types (q ∷ records) r (inl same) its =
      let is : is_type (types_or_default types) q.data_type ≡ true =
        ap (λ (x : ChannelDefinition F). is_type (types_or_default types) x.data_type) same
        ∙ (is_type_iff types r.data_type).1 its in
      rw is refl
  HoldsAsked-has_type types (q ∷ records) r (inr h) its =
      let rest = HoldsAsked-has_type types records r h its in ground arith

  of_type-IsIn :
      (types : List DataType) (requests : List (Request F)) (request : Request F)
      → IsIn request (requests_of_type (types_or_default types) requests)
      → IsIn request requests × HoldsAsked types request.records
  unfolding requests_of_type
  of_type-IsIn types [] request h = elim h [ ]
  of_type-IsIn types (q ∷ requests) request h =
      let others = requests_of_type (types_or_default types) requests in
      elim (Bool-cases (has_type (types_or_default types) q.records)) [
        | inl is ↦ elim (subst (λ b. IsIn request (if b then q ∷ others else others)) is h) [
          | inl same ↦ (
            inl same,
            subst (λ (x : Request F). HoldsAsked types x.records) same
                (has_type-HoldsAsked types q.records is),
          )
          | inr later ↦
              let (there, its) = of_type-IsIn types requests request later in (inr there, its)
        ]
        | inr other ↦
            let (there, its) =
              of_type-IsIn types requests request
                (subst (λ b. IsIn request (if b then q ∷ others else others)) other h) in
            (inr there, its)
      ]

  IsIn-of_type :
      (types : List DataType) (requests : List (Request F)) (request : Request F)
      → IsIn request requests
      → has_type (types_or_default types) request.records ≡ true
      → IsIn request (requests_of_type (types_or_default types) requests)
  unfolding requests_of_type
  IsIn-of_type types [] request h its = elim h [ ]
  IsIn-of_type types (q ∷ requests) request (inl same) its =
      let is : has_type (types_or_default types) q.records ≡ true =
        ap (λ (x : Request F). has_type (types_or_default types) x.records) same ∙ its in
      rw is (inl same)
  IsIn-of_type types (q ∷ requests) request (inr h) its =
      let rest = IsIn-of_type types requests request h its in
      elim (Bool-cases (has_type (types_or_default types) q.records)) [
        | inl is ↦ rw is (inr rest)
        | inr other ↦ rw other rest
      ]

  pub requests_of_type_iff :
      (types : List DataType) (requests : List (Request F)) (request : Request F)
      → IsIn request (requests_of_type (types_or_default types) requests)
        ↔ (IsIn request requests × HoldsAsked types request.records)
  requests_of_type_iff types requests request = (
    of_type-IsIn types requests request,
    λ (h, (r, there, its)).
        IsIn-of_type types requests request h
          (HoldsAsked-has_type types request.records r there its),
  )
