-- ===== src/Models.antt =====
-- stiebel_heatpump/models.py: channel definitions, and the values that channels decode to.
-- Python's floats are not part of the program: their type and operations are a parameter.
use Prim.Native.Char.{code}
use Prim.Native.String.{String}
use stiebel_eltron_heatpump.Prelude.{
  [], ◌∷◌, ℕ, Bool, List, Option, ℤ, ◌&&◌, not, ltb, ◌==◌, if◌then◌else◌, true, false,
}
use stiebel_eltron_heatpump.Errors.{Result}

-- The code points of a text.
abbrev pub Text : Type 0
Text = List ℕ

abbrev pub codes : String → Text
codes String.[] = []
codes (String.◌∷◌ c s) = code c ∷ codes s

-- Python's `float`. An operation that can raise returns a result: `of_int` on an integer that no
-- float can hold, `div` by zero, `floor` of an infinity or a NaN.
pub record FloatOps (F : Type 0) : Type 0 where
  pub zero : F
  pub one : F
  pub half : F
  pub hundred : F
  pub of_int : ℤ → Result F
  pub eq : F → F → Bool
  pub lt : F → F → Bool
  pub int_lt : ℤ → F → Bool
  pub lt_int : F → ℤ → Bool
  pub add : F → F → F
  pub mul : F → F → F
  pub div : F → F → Result F
  pub floor : F → Result ℤ

-- Python's `int` and `float` of a text, and `int` of a float, which stops at the decimal point.
pub record Conversions (F : Type 0) : Type 0 where
  pub int_of_text : Text → Result ℤ
  pub float_of_text : Text → Result F
  pub truncate : F → Result ℤ

pub data DataType : Type 0 where
  sensor status settings : DataType

pub data ValueKind : Type 0 where
  boolean integer number : ValueKind

-- `DecodedValue`
pub data Value (F : Type 0) : Type 0 where
  bool : Bool → Value F
  int : ℤ → Value F
  float : F → Value F

-- Positions and lengths are not negative in any device definition, and are natural numbers here.
pub record ChannelDefinition (F : Type 0) : Type 0 where
  pub channel_id : Text
  pub request_byte : Text
  pub request_byte2 : Option Text
  pub data_type : DataType
  pub position : ℕ
  pub length : ℕ
  pub scale : F
  pub bit_position : ℕ
  pub min : F
  pub max : F
  pub step : F
  pub unit : Option Text

module _ {F : Type 0} (ops : FloatOps F) where
  -- `record.scale == 1 and record.min == 0 and record.max == 1 and record.step == 0`
  unfoldable pub is_switch : ChannelDefinition F → Bool
  is_switch r =
      ops.eq r.scale ops.one
      && (ops.eq r.min ops.zero && (ops.eq r.max ops.one && ops.eq r.step ops.zero))

  unfoldable pub value_kind : ChannelDefinition F → ValueKind
  value_kind r =
      if ltb 0 r.bit_position
      then boolean
      else if is_switch r
      then boolean
      else if r.length == 4
      then integer
      else if not (ops.eq r.scale ops.one)
      then number
      else integer

module _ {F : Type 0} where
  unfoldable pub writable : ChannelDefinition F → Bool
  writable r = elim r.data_type [ settings ↦ true | _ ↦ false ]
