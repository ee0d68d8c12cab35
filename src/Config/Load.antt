-- ===== src/Config/Load.antt =====
-- The readers of stiebel_heatpump/config_loader.py. What ElementTree, PyYAML, pathlib and pydantic
-- do is a parameter; the results are the arguments of `HeatPumpConfig`, its name and its channels.
pub mod Rows
pub mod Readable
use stiebel_eltron_heatpump.Prelude.{
  ℕ, List, [], ◌∷◌, Option, none, some, ◌||◌, list_eq, if◌then◌else◌,
}
use stiebel_eltron_heatpump.Errors.{
  Result, ok, err, ◌>>=◌, key_error, value_error, type_error, attribute_error,
}
use stiebel_eltron_heatpump.Dict.{Dict, lookup}
use stiebel_eltron_heatpump.Models.{
  Text, codes, FloatOps, DataType, sensor, status, settings, ChannelDefinition,
}

-- What a YAML file can hold: the keys of a mapping are texts, and numbers, dates and the like are
-- not told apart.
mutual
  pub data Yaml : Type 0 where
    null : Yaml
    scalar : Yaml
    text : Text → Yaml
    sequence : Nodes → Yaml
    mapping : Entries → Yaml

  pub data Nodes : Type 0 where
    no_node : Nodes
    node : Yaml → Nodes → Nodes

  pub data Entries : Type 0 where
    no_entry : Entries
    entry : Text → Yaml → Entries → Entries

unfoldable pub entry_of : Text → Entries → Option Yaml
entry_of key no_entry = none
entry_of key (entry k value entries) =
    let rest = entry_of key entries in if list_eq k key then some value else rest

abbrev pub default_to {ℓ} : {A : Type ℓ} → A → Option A → A
default_to a none = a
default_to a (some b) = b

-- What a loop over the value goes through.
unfoldable pub nodes : Nodes → List Yaml
nodes no_node = []
nodes (node value rest) = value ∷ nodes rest

unfoldable pub keys : Entries → List Yaml
keys no_entry = []
keys (entry k value rest) = text k ∷ keys rest

unfoldable pub characters : Text → List Yaml
characters [] = []
characters (c ∷ rest) = text (c ∷ []) ∷ characters rest

unfoldable pub iterate : Yaml → Result (List Yaml)
iterate null = err type_error
iterate scalar = err type_error
iterate (text t) = ok (characters t)
iterate (sequence values) = ok (nodes values)
iterate (mapping entries) = ok (keys entries)

-- `data.get("channels", …)`: only a mapping has `get`.
unfoldable pub raw_channels : Yaml → Result Yaml
raw_channels (mapping entries) =
    ok (default_to (sequence no_node) (entry_of (codes "channels") entries))
raw_channels data_value = err attribute_error

-- `data.get("name", path.stem) if isinstance(data, dict) else path.stem`
unfoldable pub yaml_name : Text → Yaml → Yaml
yaml_name stem (mapping entries) = default_to (text stem) (entry_of (codes "name") entries)
yaml_name stem data_value = text stem

-- `attrib[key]`
unfoldable pub required : Text → Dict Text → Result Text
required key attributes = elim (lookup key attributes) [
  | none ↦ err key_error
  | some value ↦ ok value
]

-- `DataType(name)`
unfoldable pub to_data_type : Text → Result DataType
to_data_type name =
    if list_eq name (codes "Sensor")
    then ok sensor
    else if list_eq name (codes "Status")
    then ok status
    else if list_eq name (codes "Settings")
    then ok settings
    else err value_error

-- `_to_int` and `_to_float`, by the conversion: a text that is missing or empty gives the default.
unfoldable pub to_number : {A : Type 0} → (Text → Result A) → A → Option Text → Result A
to_number convert default none = ok default
to_number convert default (some []) = ok default
to_number convert default (some (c ∷ value)) = convert (c ∷ value)

-- The libraries: `ET.parse(path).getroot().findall("record")` as the attributes of the records,
-- `yaml.safe_load` of the file, `path.stem` and `path.suffix.lower()`, `ChannelDefinition(**item)` for a
-- mapping, `float` of a text, and `int` of a text. The latter gives natural numbers: the texts that
-- it reads are positions and lengths, which are not negative in any device definition.
pub record Readers (F : Type 0) : Type 0 where
  pub parse : Text → Result (List (Dict Text))
  pub safe_load : Text → Result Yaml
  pub stem : Text → Text
  pub suffix : Text → Text
  pub validate : Entries → Result (ChannelDefinition F)
  pub natural_of_text : Text → Result ℕ
  pub float_of_text : Text → Result F

module _ {F : Type 0} (ops : FloatOps F) (readers : Readers F) where
  -- The loop body of `load_xml`.
  unfoldable pub load_row : Dict Text → Result (ChannelDefinition F)
  load_row attributes = do
    channel_id ← required (codes "channelid") attributes
    request_byte ← required (codes "requestByte") attributes
    type_text ← required (codes "dataType") attributes
    data_type ← to_data_type type_text
    position ← to_number readers.natural_of_text 0 (lookup (codes "position") attributes)
    length ← to_number readers.natural_of_text 0 (lookup (codes "length") attributes)
    scale ← to_number readers.float_of_text ops.one (lookup (codes "scale") attributes)
    bit_position ← to_number readers.natural_of_text 0 (lookup (codes "bitPosition") attributes)
    min ← to_number readers.float_of_text ops.zero (lookup (codes "min") attributes)
    max ← to_number readers.float_of_text ops.zero (lookup (codes "max") attributes)
    step ← to_number readers.float_of_text ops.zero (lookup (codes "step") attributes)
    ok (record {
      channel_id = channel_id;
      request_byte = request_byte;
      request_byte2 = lookup (codes "requestByte2") attributes;
      data_type = data_type;
      position = position;
      length = length;
      scale = scale;
      bit_position = bit_position;
      min = min;
      max = max;
      step = step;
      unit = lookup (codes "unit") attributes;
    })

  unfoldable pub load_rows : List (Dict Text) → Result (List (ChannelDefinition F))
  load_rows [] = ok []
  load_rows (attributes ∷ rows) = do
    r ← load_row attributes
    channels ← load_rows rows
    ok (r ∷ channels)

  unfoldable pub load_xml : Text → Result (Yaml × List (ChannelDefinition F))
  load_xml path = do
    rows ← readers.parse path
    channels ← load_rows rows
    ok (text (readers.stem path), channels)

  -- `ChannelDefinition(**item)`
  unfoldable pub load_item : Yaml → Result (ChannelDefinition F)
  load_item (mapping entries) = readers.validate entries
  load_item value = err type_error

  unfoldable pub load_items : List Yaml → Result (List (ChannelDefinition F))
  load_items [] = ok []
  load_items (item ∷ items) = do r ← load_item item; channels ← load_items items; ok (r ∷ channels)

  unfoldable pub load_yaml : Text → Result (Yaml × List (ChannelDefinition F))
  load_yaml path = do
    data_value ← readers.safe_load path
    raw ← raw_channels data_value
    items ← iterate raw
    channels ← load_items items
    ok (yaml_name (readers.stem path) data_value, channels)

  -- `load_config`
  unfoldable pub load_config : Text → Result (Yaml × List (ChannelDefinition F))
  load_config path =
      let suffix = readers.suffix path in
      if list_eq suffix (codes ".yaml") || list_eq suffix (codes ".yml")
      then load_yaml path
      else if list_eq suffix (codes ".xml")
      then load_xml path
      else err value_error
