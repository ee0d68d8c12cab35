-- ===== src/Service.antt =====
-- stiebel_heatpump/service.py: the coercion of values, and the choice of requests and results. The
-- operations on the connection are in Service/Operations.antt.
pub mod Operations
pub mod Answers
pub mod Selection
pub mod Construction
use stiebel_eltron_heatpump.Prelude.{
  ℕ, ◌+◌, List, [], ◌∷◌, ◌++◌, Option, none, some, Bool, true, false, not, ◌&&◌, ◌||◌, ltb, leb,
  ◌==◌, list_eq, map, ℤ, pos, is_zero, if◌then◌else◌,
}
use stiebel_eltron_heatpump.Errors.{
  Result, ok, err, value_error, channel_not_found, channel_not_writable, attribute_error,
}
use stiebel_eltron_heatpump.Exec.{Exec, pure, raise, lift, ◌>>=◌, ◌>>◌}
use stiebel_eltron_heatpump.Dict.{Dict, lookup}
use stiebel_eltron_heatpump.Models.{
  Conversions, Text, codes, FloatOps, Value, bool, int, float, DataType, sensor, status, settings,
  ChannelDefinition, ValueKind, boolean, integer, number, value_kind, writable,
}
use stiebel_eltron_heatpump.Config.{
  Request, HeatPumpConfig, requests, channel, request_for_channel, request_by_bytes, has_key,
  is_space,
}
use stiebel_eltron_heatpump.Protocol.Transport.{Transport}

-- What a caller may ask to write.
pub data Requested (F : Type 0) : Type 0 where
  given_value : Value F → Requested F
  given_text : Text → Requested F

pub record ChannelValue (F : Type 0) : Type 0 where
  pub channel_id : Text
  pub value : Value F
  pub unit : Option Text
  pub data_type : DataType
  pub can_write : Bool

unfoldable pub lower : Text → Text
lower text = map (λ c. if leb b'A' c && leb c b'Z' then c + 32 else c) text

-- What `str.strip` takes off: the separators 28 to 31 too.
unfoldable pub is_blank : ℕ → Bool
is_blank c = is_space c || (leb 28 c && leb c 31)

unfoldable pub skip_spaces : Text → Text
skip_spaces [] = []
skip_spaces (c ∷ text) = let rest = skip_spaces text in if is_blank c then rest else c ∷ text

unfoldable pub reversed : Text → Text
reversed [] = []
reversed (c ∷ text) = reversed text ++ (c ∷ [])

-- `str.strip` on ASCII.
unfoldable pub strip : Text → Text
strip text = reversed (skip_spaces (reversed (skip_spaces text)))

-- `value.strip().lower()`
unfoldable pub normalize : Text → Text
normalize text = lower (strip text)

unfoldable pub is_one_of : List Text → Text → Bool
is_one_of [] text = false
is_one_of (t ∷ texts) text = list_eq t text || is_one_of texts text

abbrev pub true_strings : List Text
true_strings = codes "1" ∷ codes "true" ∷ codes "on" ∷ codes "yes" ∷ []

abbrev pub false_strings : List Text
false_strings = codes "0" ∷ codes "false" ∷ codes "off" ∷ codes "no" ∷ []

unfoldable pub bool_of_text : Text → Result Bool
bool_of_text text =
    if is_one_of true_strings text
    then ok true
    else if is_one_of false_strings text
    then ok false
    else err value_error

module _ {F : Type 0} (ops : FloatOps F) (conv : Conversions F) where
  unfoldable pub coerce_boolean : Requested F → Result Bool
  coerce_boolean (given_value (bool b)) = ok b
  coerce_boolean (given_value (int n)) = ok (not (is_zero n))
  coerce_boolean (given_value (float x)) = ok (not (ops.eq x ops.zero))
  coerce_boolean (given_text text) = bool_of_text (normalize text)

  unfoldable pub coerce_number : Requested F → Result F
  coerce_number (given_value (bool b)) = ok (if b then ops.one else ops.zero)
  coerce_number (given_value (int n)) = ops.of_int n
  coerce_number (given_value (float x)) = ok x
  coerce_number (given_text text) = conv.float_of_text text

  unfoldable pub coerce_integer : Requested F → Result ℤ
  coerce_integer (given_value (bool b)) = ok (if b then pos 1 else pos 0)
  coerce_integer (given_value (int n)) = ok n
  coerce_integer (given_value (float x)) = conv.truncate x
  coerce_integer (given_text text) = conv.int_of_text text

  abbrev result_map : {A B : Type 0} → (A → B) → Result A → Result B
  result_map f (ok a) = ok (f a)
  result_map f (err e) = err e

  -- `_coerce`
  unfoldable pub coerce : ChannelDefinition F → Requested F → Result (Value F)
  coerce r value = elim (value_kind ops r) [
    | boolean ↦ result_map bool (coerce_boolean value)
    | number ↦ result_map float (coerce_number value)
    | integer ↦ result_map int (coerce_integer value)
  ]

module _ {F : Type 0} where
  unfoldable pub to_channel_value : ChannelDefinition F → Value F → ChannelValue F
  to_channel_value r value = record {
    channel_id = r.channel_id;
    value = value;
    unit = r.unit;
    data_type = r.data_type;
    can_write = writable r;
  }

  unfoldable pub require_channel : HeatPumpConfig F → Text → Result (ChannelDefinition F)
  require_channel config channel_id = elim (channel config channel_id) [
    | none ↦ err channel_not_found
    | some r ↦ ok r
  ]

  -- `data[channel_id]`, after the test that it is there.
  unfoldable pub found : Option (Value F) → Result (Value F)
  found none = err channel_not_found
  found (some value) = ok value

  -- `data.get(channel_id, coerced)`
  unfoldable pub value_or : Option (Value F) → Value F → Value F
  value_or none coerced = coerced
  value_or (some value) coerced = value

  -- `request not in requests`: the requests of a configuration have different keys.
  unfoldable pub contains : List (Request F) → Request F → Bool
  contains [] request = false
  contains (other ∷ rest) request =
      has_key (request.request_byte, request.request_byte2) other || contains rest request

  unfoldable pub requests_loop : HeatPumpConfig F → List Text → List (Request F) → List (Request F)
  requests_loop config [] found_ = found_
  requests_loop config (channel_id ∷ channel_ids) found_ =
      elim (request_for_channel config channel_id) [
        | none ↦ requests_loop config channel_ids found_
        | some request ↦
            requests_loop config channel_ids
              (if contains found_ request then found_ else found_ ++ (request ∷ []))
      ]

  -- `_requests_for`
  unfoldable pub requests_for : HeatPumpConfig F → List Text → List (Request F)
  requests_for config channel_ids = requests_loop config channel_ids []

  -- `[cid for cid in wanted if self._config.channel(cid) is None]`, by its being empty.
  unfoldable pub all_known : HeatPumpConfig F → List Text → Bool
  all_known config [] = true
  all_known config (channel_id ∷ channel_ids) = elim (channel config channel_id) [
    | none ↦ false
    | some _ ↦ all_known config channel_ids
  ]

  abbrev keep : Bool → ChannelDefinition F → Value F → List (ChannelValue F) → List (ChannelValue F)
  keep true r value rest = to_channel_value r value ∷ rest
  keep false r value rest = rest

  -- The loop over the data read, for the channels that a test lets through.
  unfoldable pub select :
      HeatPumpConfig F
      → (Text → ChannelDefinition F → Bool)
      → Dict (Value F)
      → List (ChannelValue F)
  select config test [] = []
  select config test ((channel_id, value) ∷ values) =
      let rest = select config test values in
      elim (channel config channel_id) [
        | none ↦ rest
        | some r ↦ keep (test channel_id r) r value rest
      ]

unfoldable pub is_type : List DataType → DataType → Bool
is_type [] d = false
is_type (sensor ∷ types) sensor = true
is_type (status ∷ types) status = true
is_type (settings ∷ types) settings = true
is_type (_ ∷ types) d = is_type types d

-- `data_types or {DataType.SENSOR, DataType.STATUS}`
abbrev pub types_or_default : List DataType → List DataType
types_or_default [] = sensor ∷ status ∷ []
types_or_default (d ∷ types) = d ∷ types

module _ {F : Type 0} where
  unfoldable pub has_type : List DataType → List (ChannelDefinition F) → Bool
  has_type types [] = false
  has_type types (r ∷ records) = is_type types r.data_type || has_type types records

  unfoldable pub requests_of_type : List DataType → List (Request F) → List (Request F)
  requests_of_type types [] = []
  requests_of_type types (request ∷ rest) =
      let others = requests_of_type types rest in
      if has_type types request.records then request ∷ others else others
