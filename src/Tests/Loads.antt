-- ===== src/Tests/Loads.antt =====
-- Files of channels and of settings.
use stiebel_eltron_heatpump.Prelude.{
  ◌≡◌, refl, ap, ℕ, List, [], ◌∷◌, Option, none, some, ℤ, pos, true, if◌then◌else◌, list_eq, ◌↔◌,
}
use mathlib.Core.List.Memᴰ
use stiebel_eltron_heatpump.Errors.{Result, ok, err, value_error}
use stiebel_eltron_heatpump.Dict.{Dict, lookup}
use stiebel_eltron_heatpump.Models.{Text, codes, ChannelDefinition, settings}
use stiebel_eltron_heatpump.Config.{
  Request, HeatPumpConfig, channel, request_for_channel, has_channel,
}
use stiebel_eltron_heatpump.Config.Load.{
  null, text, Readers, load_row, load_rows, load_xml, load_config, required, to_data_type,
  to_number,
}
use stiebel_eltron_heatpump.Config.Load.Rows.{DescribeAll, load_xml-DescribeAll}
use stiebel_eltron_heatpump.Config.Load.Readable.{load_config-readable}
use stiebel_eltron_heatpump.Settings.{
  AppSettings, simulator, Default, Source, env_settings, yaml_settings, Pydantic, load,
}
use stiebel_eltron_heatpump.Settings.Precedence.{
  first_value, IsLayered, by_variable, load-IsShadowed,
}
use stiebel_eltron_heatpump.Tests.Floats.{fixed}

-- A channel of LWZ_THZ504_7_59.xml, without some of its attributes.
abbrev attributes : Dict Text
attributes =
    (codes "channelid", codes "programDhwMo1Start")
    ∷ (codes "requestByte", codes "0A1711")
    ∷ (codes "dataType", codes "Settings")
    ∷ (codes "position", codes "6")
    ∷ (codes "length", codes "1")
    ∷ (codes "unit", codes "")
    ∷ []

-- One digit is read, and no other text.
abbrev digit_of : Text → Result ℕ
digit_of (c ∷ []) =
    if list_eq (c ∷ []) (codes "6")
    then ok 6
    else if list_eq (c ∷ []) (codes "1")
    then ok 1
    else err value_error
digit_of _ = err value_error

abbrev one_file : Readers ℤ
one_file = record {
  parse = λ path. ok (attributes ∷ []);
  safe_load = λ path. ok null;
  stem = λ path. path;
  suffix = λ path. codes ".xml";
  validate = λ entries. err value_error;
  natural_of_text = digit_of;
  float_of_text = λ t. err value_error;
}

abbrev loaded : ChannelDefinition ℤ
loaded = record {
  channel_id = codes "programDhwMo1Start";
  request_byte = codes "0A1711";
  request_byte2 = none;
  data_type = settings;
  position = 6;
  length = 1;
  scale = pos 100;
  bit_position = 0;
  min = pos 0;
  max = pos 0;
  step = pos 0;
  unit = some [];
}

load_xml-DescribeAll_example :
    (load_xml fixed one_file (codes "a") ≡ ok (text (codes "a"), loaded ∷ [])) ↔ (
      (rows : List (Dict Text)) × (one_file.parse (codes "a") ≡ ok rows)
      × DescribeAll fixed one_file rows (loaded ∷ []))
load_xml-DescribeAll_example = load_xml-DescribeAll fixed one_file (codes "a") (loaded ∷ [])

loads : load_config fixed one_file (codes "a") ≡ ok (text (codes "a"), loaded ∷ [])
unfolding load_config load_xml load_rows load_row required to_data_type to_number lookup
loads = refl

abbrev one_channel : HeatPumpConfig ℤ
one_channel = record { name = codes "a"; channels = loaded ∷ [] }

load_config-readable_example :
    (channel_id : Text) × (lookup (codes "channelid") attributes ≡ some channel_id)
    × ((r : ChannelDefinition ℤ) × (channel one_channel channel_id ≡ some r))
    × ((request : Request ℤ) × (request_for_channel one_channel channel_id ≡ some request)
        × (has_channel channel_id request.records ≡ true))
load_config-readable_example =
    load_config-readable fixed one_file (codes "a") (text (codes "a")) (attributes ∷ []) one_channel
      attributes refl refl loads (Memᴰ.head refl)

-- Settings of which only the port is read, as text.
abbrev with_port : Option Text → Result AppSettings
with_port none = err value_error
with_port (some port) = ok (record {
  device_config = [];
  transport = simulator;
  port = port;
  baud_rate = pos 9600;
  waiting_time_ms = pos 0;
  title = [];
  connect_on_startup = true;
})

abbrev read_port :
    (Source → Text → Option Text) → List (Text × Default) → List Source → Result AppSettings
read_port value declared sources = with_port (first_value value sources (codes "port"))

read_port-IsLayered : IsLayered read_port
read_port-IsLayered value value' declared sources sources' h = ap with_port (h (codes "port"))

-- The port is a variable of the environment, and in one of the two cases in the YAML file too.
abbrev only_variable : Source → Text → Option Text
only_variable env_settings field = some (codes "/dev/ttyUSB1")
only_variable _ field = none

abbrev file_too : Source → Text → Option Text
file_too env_settings field = some (codes "/dev/ttyUSB1")
file_too (yaml_settings path) field = some (codes "/dev/ttyUSB0")
file_too _ field = none

abbrev without_file : Pydantic Text
without_file = record { value = only_variable; construct = read_port }

abbrev with_file : Pydantic Text
with_file = record { value = file_too; construct = read_port }

load-IsShadowed_example :
    load without_file (some (codes "app.yaml")) none none
    ≡ load with_file (some (codes "app.yaml")) none none
load-IsShadowed_example =
    load-IsShadowed without_file with_file (some (codes "app.yaml")) none none refl
      read_port-IsLayered (λ field. by_variable (codes "/dev/ttyUSB1") refl refl refl)
