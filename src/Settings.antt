-- ===== src/Settings.antt =====
-- stiebel_heatpump/settings.py: the declared settings, the order of their sources and `load`; and
-- how stiebel_heatpump/main.py locates the file. What pydantic-settings makes of the sources is a
-- parameter.
pub mod Precedence
use stiebel_eltron_heatpump.Prelude.{List, [], ◌∷◌, ◌++◌, Option, none, some, Bool, true, ℤ, pos}
use stiebel_eltron_heatpump.Errors.{Result}
use stiebel_eltron_heatpump.Exec.{Exec}
use stiebel_eltron_heatpump.Models.{Text, codes}
use stiebel_eltron_heatpump.Config.{given}

-- `Literal["serial", "simulator"]`
pub data TransportKind : Type 0 where
  serial simulator : TransportKind

pub record AppSettings : Type 0 where
  pub device_config : Text
  pub transport : TransportKind
  pub port : Text
  pub baud_rate : ℤ
  pub waiting_time_ms : ℤ
  pub title : Text
  pub connect_on_startup : Bool

-- What a field has without a source; `required` is the `...` of `Field`.
pub data Default : Type 0 where
  required : Default
  text_default : Text → Default
  int_default : ℤ → Default
  bool_default : Bool → Default

-- The fields of the class.
abbrev pub fields : List (Text × Default)
fields =
    (codes "device_config", required)
    ∷ (codes "transport", text_default (codes "simulator"))
    ∷ (codes "port", text_default (codes "/dev/ttyUSB0"))
    ∷ (codes "baud_rate", int_default (pos 115200))
    ∷ (codes "waiting_time_ms", int_default (pos 500))
    ∷ (codes "title", text_default (codes "Stiebel Eltron Heat Pump API"))
    ∷ (codes "connect_on_startup", bool_default true)
    ∷ []

pub data Source : Type 0 where
  init_settings env_settings dotenv_settings file_secret_settings : Source
  yaml_settings : Text → Source

abbrev yaml_source : Option Text → List Source
yaml_source none = []
yaml_source (some path) = yaml_settings path ∷ []

-- `settings_customise_sources`, for the class variable `_yaml_file`; an empty path counts as none.
unfoldable pub customise_sources : Option Text → List Source
customise_sources yaml_file =
    init_settings
    ∷ env_settings
    ∷ dotenv_settings
    ∷ (yaml_source (given yaml_file) ++ (file_secret_settings ∷ []))

-- `a or b`, for texts.
unfoldable pub text_or : Option Text → Option Text → Option Text
text_or none other = other
text_or (some []) other = other
text_or (some (c ∷ text)) other = some (c ∷ text)

-- pydantic-settings: what the sources say of a field, and the settings that it makes of the declared
-- fields and of the sources in their order, or the ValidationError, which is a ValueError.
pub record Pydantic (Raw : Type 0) : Type 0 where
  pub value : Source → Text → Option Raw
  pub construct :
      (Source → Text → Option Raw) → List (Text × Default) → List Source → Result AppSettings

module _ {Raw : Type 0} (p : Pydantic Raw) where
  -- `cls()`, over the class variable.
  unfoldable pub create : Exec (Option Text) AppSettings
  create yaml_file = (p.construct p.value fields (customise_sources yaml_file), yaml_file)

  -- `load`, with `os.environ.get("STIEBEL_APP_CONFIG")`: the class variable is set, and reset in the
  -- end even if the settings are refused.
  unfoldable pub load : Option Text → Option Text → Exec (Option Text) AppSettings
  load config_path app_config yaml_file =
      let (settings, yaml_file') = create (text_or config_path app_config) in (settings, none)

  -- `main`, for what the command line gives for `--config`.
  unfoldable pub main_settings : Option Text → Option Text → Exec (Option Text) AppSettings
  main_settings argument app_config = elim argument [
    | none ↦ load (some (codes "config/app.yaml")) app_config
    | some path ↦ load (some path) app_config
  ]
