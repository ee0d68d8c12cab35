-- ===== src/Settings/Precedence.antt =====
-- Which source decides a setting, and which file is read.
use stiebel_eltron_heatpump.Prelude.{ℕ, ◌≡◌, refl, ◌≢◌, List, [], ◌∷◌, Option, none, some}
use stiebel_eltron_heatpump.Errors.{Result}
use stiebel_eltron_heatpump.Models.{Text}
use stiebel_eltron_heatpump.Settings.{
  AppSettings, Default, fields, Source, init_settings, env_settings, dotenv_settings,
  file_secret_settings, yaml_settings, customise_sources, text_or, Pydantic, create, load,
  main_settings,
}

module _ {Raw : Type 0} where
  abbrev or_else : Option Raw → Option Raw → Option Raw
  or_else none rest = rest
  or_else (some raw) rest = some raw

  -- The value of the first source that has one.
  unfoldable pub first_value : (Source → Text → Option Raw) → List Source → Text → Option Raw
  first_value value [] field = none
  first_value value (source ∷ sources) field =
      or_else (value source field) (first_value value sources field)

  -- As pydantic-settings documents it, of each field only the value of the first source counts.
  abbrev pub IsLayered :
      ((Source → Text → Option Raw) → List (Text × Default) → List Source → Result AppSettings)
      → Type 0
  IsLayered construct =
      (value value' : Source → Text → Option Raw) (declared : List (Text × Default))
      (sources sources' : List Source)
      → ((field : Text) → first_value value sources field ≡ first_value value' sources' field)
      → construct value declared sources ≡ construct value' declared sources'

  -- The highest source that has the field is alike on both sides, and so are those above it: the
  -- arguments of the constructor, the environment, the .env files, or the YAML file, and every
  -- source below it may differ.
  pub data IsShadowed (value value' : Source → Text → Option Raw) (yaml_file : Option Text)
      (field : Text) : Type 0 where
    by_argument :
        (raw : Raw)
        → value init_settings field ≡ some raw
        → value' init_settings field ≡ some raw
        → IsShadowed value value' yaml_file field
    by_variable :
        (raw : Raw)
        → value init_settings field ≡ value' init_settings field
        → value env_settings field ≡ some raw
        → value' env_settings field ≡ some raw
        → IsShadowed value value' yaml_file field
    by_dotenv :
        (raw : Raw)
        → value init_settings field ≡ value' init_settings field
        → value env_settings field ≡ value' env_settings field
        → value dotenv_settings field ≡ some raw
        → value' dotenv_settings field ≡ some raw
        → IsShadowed value value' yaml_file field
    by_yaml :
        (c : ℕ) (path : Text) (raw : Raw)
        → yaml_file ≡ some (c ∷ path)
        → value init_settings field ≡ value' init_settings field
        → value env_settings field ≡ value' env_settings field
        → value dotenv_settings field ≡ value' dotenv_settings field
        → value (yaml_settings (c ∷ path)) field ≡ some raw
        → value' (yaml_settings (c ∷ path)) field ≡ some raw
        → IsShadowed value value' yaml_file field
    alike :
        ((source : Source) → value source field ≡ value' source field)
        → IsShadowed value value' yaml_file field

  first_value-IsShadowed :
      (value value' : Source → Text → Option Raw) (yaml_file : Option Text) (field : Text)
      → IsShadowed value value' yaml_file field
      → first_value value (customise_sources yaml_file) field
        ≡ first_value value' (customise_sources yaml_file) field
  unfolding first_value customise_sources
  first_value-IsShadowed value value' yaml_file field (by_argument raw e f) = rw (e, f) refl
  first_value-IsShadowed value value' yaml_file field (by_variable raw i e f) = rw (i, e, f) refl
  first_value-IsShadowed value value' yaml_file field (by_dotenv raw i d e f) = rw (i, d, e, f) refl
  first_value-IsShadowed value value' yaml_file field (by_yaml c path raw y i e d g h) =
      rw (y, i, e, d, g, h) refl
  first_value-IsShadowed value value' none field (alike same) =
      rw (same init_settings, same env_settings, same dotenv_settings, same file_secret_settings)
        refl
  first_value-IsShadowed value value' (some []) field (alike same) =
      rw (same init_settings, same env_settings, same dotenv_settings, same file_secret_settings)
        refl
  first_value-IsShadowed value value' (some (c ∷ path)) field (alike same) =
      rw
        (
          same init_settings,
          same env_settings,
          same dotenv_settings,
          same (yaml_settings (c ∷ path)),
          same file_secret_settings,
        )
        refl

-- A lower source never overrides a higher one, for a pydantic-settings that takes of each field only
-- the first source that has it: if for every setting all sources are alike, or one has it that is
-- alike on both sides and so are those above it, then `load` gives the same settings whatever the
-- sources below it say. The order is the arguments of the constructor, the environment, the .env
-- files, the YAML file if one is named, and the secret files.
pub load-IsShadowed :
    {Raw : Type 0} (p p' : Pydantic Raw) (config_path app_config yaml_file : Option Text)
    → p.construct ≡ p'.construct
    → IsLayered p.construct
    → ((field : Text) → IsShadowed p.value p'.value (text_or config_path app_config) field)
    → load p config_path app_config yaml_file ≡ load p' config_path app_config yaml_file
unfolding load create
load-IsShadowed p p' config_path app_config yaml_file same layered shadowed =
    let path = text_or config_path app_config in
    let e : p.construct p.value fields (customise_sources path)
        ≡ p.construct p'.value fields (customise_sources path) =
      layered p.value p'.value fields (customise_sources path) (customise_sources path)
        (λ field. first_value-IsShadowed p.value p'.value path field (shadowed field)) in
    rw (e, same) refl

-- Without an option `--config`, or with one that is not empty, `main` takes the same settings
-- whatever STIEBEL_APP_CONFIG says, while `load` without a path takes those of the file that it
-- names, as if that path were given.
pub main_settings-app_config :
    {Raw : Type 0} (p : Pydantic Raw) (argument app_config other yaml_file : Option Text)
    → argument ≢ some []
    → (main_settings p argument app_config yaml_file ≡ main_settings p argument other yaml_file)
      × (load p none app_config yaml_file ≡ load p app_config none yaml_file)
unfolding main_settings load create text_or customise_sources
main_settings-app_config p none none other yaml_file h = (refl, refl)
main_settings-app_config p none (some []) other yaml_file h = (refl, refl)
main_settings-app_config p none (some (c ∷ path)) other yaml_file h = (refl, refl)
main_settings-app_config p (some []) app_config other yaml_file h = absurd (h refl)
main_settings-app_config p (some (c ∷ path)) none other yaml_file h = (refl, refl)
main_settings-app_config p (some (c ∷ path)) (some []) other yaml_file h = (refl, refl)
main_settings-app_config p (some (c ∷ path)) (some (d ∷ app)) other yaml_file h = (refl, refl)
