-- ===== src/Api/Document.antt =====
-- `custom_openapi` of stiebel_heatpump/api.py over the document that FastAPI generates. Of it only
-- the parts are told apart that the code reads or writes; the rest are parameters.
pub mod Enum
use stiebel_eltron_heatpump.Prelude.{
  ℕ, List, [], ◌∷◌, Option, none, some, Bool, true, false, ◌&&◌, ◌||◌, list_eq, map, ◌==◌,
  if◌then◌else◌,
}
use stiebel_eltron_heatpump.Dict.{Dict}
use stiebel_eltron_heatpump.Models.{Text, codes, FloatOps, ChannelDefinition}
use stiebel_eltron_heatpump.Config.{HeatPumpConfig, text_option_eq}
use stiebel_eltron_heatpump.Api.Openapi.{Property, heat_pump_values, counts}

-- The schema of a parameter: FastAPI's, or a text out of a list.
pub data Schema (Rest : Type 0) : Type 0 where
  generated : Rest → Schema Rest
  enum_of : List Text → Schema Rest

-- `name`, `in`, `schema` and `description` of a parameter.
pub record Parameter (Rest : Type 0) : Type 0 where
  pub name : Option Text
  pub place : Option Text
  pub schema : Schema Rest
  pub description : Option Text
  pub rest : Rest

pub record Operation (Rest : Type 0) : Type 0 where
  pub parameters : List (Parameter Rest)
  pub rest : Rest

-- The paths, each with its operations, the schema HeatPumpValues among the components, and the
-- extension "x-heatpump-channels".
pub record Document (Rest : Type 0) : Type 0 where
  pub paths : Dict (Dict (Operation Rest))
  pub values_schema : Option (Dict Property)
  pub channels : Option (Text × Dict ℕ)
  pub rest : Rest

-- Does the text begin with the pattern?
unfoldable pub begins : Text → Text → Bool
begins [] text = true
begins (p ∷ pattern) [] = false
begins (p ∷ pattern) (c ∷ text) = p == c && begins pattern text

-- `pattern in text`
unfoldable pub is_in : Text → Text → Bool
is_in pattern [] = begins pattern []
is_in pattern (c ∷ text) = begins pattern (c ∷ text) || is_in pattern text

abbrev pub key_pattern : Text
key_pattern = codes "{channel_id}"

-- `[c.channel_id for c in config.channels]`
abbrev pub channel_ids : {F : Type 0} → HeatPumpConfig F → List Text
channel_ids config = map (λ r. r.channel_id) config.channels

module _ {Rest : Type 0} where
  -- `param.get("name") == "channel_id" and param.get("in") == "path"`
  unfoldable pub is_channel_parameter : Parameter Rest → Bool
  is_channel_parameter p =
      text_option_eq p.name (some (codes "channel_id"))
      && text_option_eq p.place (some (codes "path"))

  unfoldable pub constrain : List Text → Parameter Rest → Parameter Rest
  constrain channel_ids p =
      if is_channel_parameter p
      then record p {
        schema = enum_of channel_ids;
        description = some (codes "One of the configured channel ids.");
      }
      else p

  -- The loops over the parameters of an operation and over the operations of a path.
  unfoldable pub constrain_operations : List Text → Dict (Operation Rest) → Dict (Operation Rest)
  constrain_operations channel_ids [] = []
  constrain_operations channel_ids ((method, operation) ∷ operations) =
      (method, record operation { parameters = map (constrain channel_ids) operation.parameters })
      ∷ constrain_operations channel_ids operations

  -- The loop over the paths.
  unfoldable pub constrain_paths :
      List Text → Dict (Dict (Operation Rest)) → Dict (Dict (Operation Rest))
  constrain_paths channel_ids [] = []
  constrain_paths channel_ids ((path, item) ∷ paths) =
      (path, if is_in key_pattern path then constrain_operations channel_ids item else item)
      ∷ constrain_paths channel_ids paths

  module _ {F : Type 0} (ops : FloatOps F) (show : F → Text) (config : HeatPumpConfig F) where
    unfoldable pub describe : Document Rest → Document Rest
    describe schema = record schema {
      paths = constrain_paths (channel_ids config) schema.paths;
      values_schema = some (heat_pump_values ops show config);
      channels = some (config.name, counts config);
    }

    -- `custom_openapi`, with `app.openapi_schema` as the state: the document is made once.
    unfoldable pub custom_openapi :
        Document Rest → Option (Document Rest) → Document Rest × Option (Document Rest)
    custom_openapi generated_schema (some schema) = (schema, some schema)
    custom_openapi generated_schema none =
        let schema = describe generated_schema in (schema, some schema)
