-- ===== src/Api/Openapi.antt =====
-- The parts of the OpenAPI description that stiebel_heatpump/api.py makes of the configuration:
-- `_openapi_type`, the schema HeatPumpValues and the counts. Api/Document.antt has `custom_openapi`.
-- Python's text of a float is a parameter.
pub mod Published
use stiebel_eltron_heatpump.Prelude.{ℕ, suc, List, [], ◌∷◌, ◌++◌, Option, none, some, if◌then◌else◌}
use stiebel_eltron_heatpump.Dict.{Dict, insert}
use stiebel_eltron_heatpump.Models.{
  Text, codes, FloatOps, ChannelDefinition, DataType, sensor, status, settings, ValueKind, boolean,
  integer, number, value_kind, writable,
}
use stiebel_eltron_heatpump.Config.{HeatPumpConfig}
use stiebel_eltron_heatpump.Service.{is_type}

pub data JsonType : Type 0 where
  json_boolean json_number json_integer : JsonType

-- `_openapi_type`
unfoldable pub openapi_type : ValueKind → JsonType
openapi_type boolean = json_boolean
openapi_type number = json_number
openapi_type integer = json_integer

-- The texts of the data types.
abbrev pub type_name : DataType → Text
type_name sensor = codes "Sensor"
type_name status = codes "Status"
type_name settings = codes "Settings"

pub record Property : Type 0 where
  pub json_type : JsonType
  pub description : Text

-- `if record.unit`: the empty text counts as none.
abbrev pub unit_part : Option Text → Text
unit_part none = []
unit_part (some []) = []
unit_part (some (c ∷ unit)) = codes " [" ++ ((c ∷ unit) ++ codes "]")

module _ {F : Type 0} (ops : FloatOps F) (show : F → Text) where
  unfoldable pub range_part : ChannelDefinition F → Text
  range_part r =
      if writable r
      then codes " (writable, " ++ (show r.min ++ (codes ".." ++ (show r.max ++ codes ")")))
      else []

  -- The loop body of the second part of `custom_openapi`.
  unfoldable pub property_of : ChannelDefinition F → Property
  property_of r = record {
    json_type = openapi_type (value_kind ops r);
    description = type_name r.data_type ++ (codes " channel" ++ (unit_part r.unit ++ range_part r));
  }

  unfoldable pub add_properties : List (ChannelDefinition F) → Dict Property → Dict Property
  add_properties [] properties = properties
  add_properties (r ∷ channels) properties =
      add_properties channels (insert r.channel_id (property_of r) properties)

  -- The properties of the schema HeatPumpValues.
  unfoldable pub heat_pump_values : HeatPumpConfig F → Dict Property
  heat_pump_values config = add_properties config.channels []

  abbrev pub described : Option (ChannelDefinition F) → Option Property
  described none = none
  described (some r) = some (property_of r)

module _ {F : Type 0} where
  -- `sum(1 for c in config.channels if c.data_type == data_type)`
  unfoldable pub count_of : DataType → List (ChannelDefinition F) → ℕ
  count_of d [] = 0
  count_of d (r ∷ channels) =
      let rest = count_of d channels in if is_type (d ∷ []) r.data_type then suc rest else rest

  unfoldable pub counts : HeatPumpConfig F → Dict ℕ
  counts config =
      (type_name sensor, count_of sensor config.channels)
      ∷ (type_name status, count_of status config.channels)
      ∷ (type_name settings, count_of settings config.channels)
      ∷ []
