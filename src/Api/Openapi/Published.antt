-- ===== src/Api/Openapi/Published.antt =====
-- What the schema HeatPumpValues of stiebel_heatpump/api.py says of each channel.
use stiebel_eltron_heatpump.Prelude.{ℕ, ◌≡◌, [], ◌∷◌, ◌++◌, Option, none, some}
use stiebel_eltron_heatpump.Models.{
  Text, codes, FloatOps, ChannelDefinition, sensor, status, settings, ValueKind, boolean, integer,
  number, value_kind,
}
use stiebel_eltron_heatpump.Api.Openapi.{
  JsonType, json_boolean, json_number, json_integer, Property,
}

pub data HasJsonType : ValueKind → JsonType → Type 0 where
  boolean_type : HasJsonType boolean json_boolean
  number_type : HasJsonType number json_number
  integer_type : HasJsonType integer json_integer

-- The text of a unit; an empty one has none.
pub data HasUnitText : Option Text → Text → Type 0 where
  no_unit : HasUnitText none []
  empty_unit : HasUnitText (some []) []
  has_unit :
      (c : ℕ) (unit : Text)
      → HasUnitText (some (c ∷ unit)) (codes " [" ++ ((c ∷ unit) ++ codes "]"))

module _ {F : Type 0} (ops : FloatOps F) (show : F → Text) where
  -- The text of a channel by its type; of a setting it ends with the smallest and the largest value.
  pub data HasText (r : ChannelDefinition F) (text : Text) : Type 0 where
    sensor_text :
        (unit : Text)
        → r.data_type ≡ sensor
        → HasUnitText r.unit unit
        → text ≡ codes "Sensor channel" ++ unit
        → HasText r text
    status_text :
        (unit : Text)
        → r.data_type ≡ status
        → HasUnitText r.unit unit
        → text ≡ codes "Status channel" ++ unit
        → HasText r text
    settings_text :
        (unit : Text)
        → r.data_type ≡ settings
        → HasUnitText r.unit unit
        → text
          ≡ codes "Settings channel"
            ++ (unit
                ++ (codes " (writable, "
                    ++ (show r.min ++ (codes ".." ++ (show r.max ++ codes ")")))))
        → HasText r text

  -- Either neither has it, or the property is of the channel's type and text.
  pub data IsPublished (found : Option (ChannelDefinition F)) (property : Option Property)
      : Type 0 where
    absent : found ≡ none → property ≡ none → IsPublished found property
    present :
        (r : ChannelDefinition F) (p : Property)
        → found ≡ some r
        → property ≡ some p
        → HasJsonType (value_kind ops r) p.json_type
        → HasText r p.description
        → IsPublished found property
