-- ===== src/Errors.antt =====
-- The exceptions of the package and the built-in ones that its code can meet (classes of
-- stiebel_heatpump/protocol/parser.py and stiebel_heatpump/service.py). The message texts are not
-- modelled; where a class is raised for several reasons, the reason stands in their place.
use stiebel_eltron_heatpump.Prelude.{
  ◌≡◌, refl, ◌⊎◌, inl, inr, Bool, true, false, Option, none, some,
}

-- The texts of `_KNOWN_ERRORS`.
pub data KnownError : Type 0 where
  timing_issue crc_error unknown_command unknown_register : KnownError

-- Why a plain `ProtocolError` is raised.
pub data Fault : Type 0 where
  device_error : KnownError → Fault
  short_response no_header_start neither_get_nor_set bad_checksum : Fault
  not_established no_escape too_much_data invalid_response read_exhausted no_current_value : Fault

pub data Exn : Type 0 where
  protocol_error : Fault → Exn
  invalid_data : Exn
  write_not_confirmed : Exn
  value_out_of_range : Exn
  channel_not_found channel_not_writable : Exn
  attribute_error key_error value_error type_error overflow_error index_error zero_division
        runtime_error :
      Exn

-- `except ProtocolError` catches these.
unfoldable pub is_protocol_error : Exn → Bool
is_protocol_error (protocol_error _) = true
is_protocol_error invalid_data = true
is_protocol_error write_not_confirmed = true
is_protocol_error _ = false

pub data Result {ℓ} (A : Type ℓ) : Type ℓ where
  ok : A → Result A
  err : Exn → Result A

-- An exception ends the chain; its class comes out unchanged.
infixl 5 ◌>>=◌ ◌>>◌
abbrev pub ◌>>=◌ {ℓ ℓ'} : {V : Type ℓ} {W : Type ℓ'} → Result V → (V → Result W) → Result W
err raised >>= rest = err raised
ok value >>= rest = rest value

-- A statement run for the exceptions it may raise.
abbrev pub ◌>>◌ {ℓ} : {W : Type ℓ} → Result (Unit {0}) → Result W → Result W
err raised >> rest = err raised
ok done >> rest = rest

-- `if test: raise e`
abbrev pub raise_if : Bool → Exn → Result (Unit {0})
raise_if true e = err e
raise_if false e = ok tt

-- Indexing raises IndexError out of bounds.
abbrev pub or_index_error {ℓ} : {A : Type ℓ} → Option A → Result A
or_index_error none = err index_error
or_index_error (some a) = ok a

-- What the steps of a chain returned, when the chain returned.
pub chain-ok {ℓ ℓ'} :
    {V : Type ℓ} {W : Type ℓ'} (rest : V → Result W) (first : Result V) {result : W}
    → (do value ← first; rest value) ≡ ok result
    → (value : V) × (first ≡ ok value) × (rest value ≡ ok result)
chain-ok rest (ok value) h = (value, refl, h)
chain-ok rest (err raised) h = cc

pub ok-injective {ℓ} : {A : Type ℓ} {a b : A} → ok a ≡ ok b → a ≡ b
ok-injective h = cc

-- To split on a computed result and keep the equation.
pub Result-cases {ℓ} :
    {A : Type ℓ} (r : Result A) → ((a : A) × (r ≡ ok a)) ⊎ ((e : Exn) × (r ≡ err e))
Result-cases (ok a) = inl (a, refl)
Result-cases (err e) = inr (e, refl)
