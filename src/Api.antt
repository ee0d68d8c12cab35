-- ===== src/Api.antt =====
-- stiebel_heatpump/api.py: the routes over a service, and what becomes of the exceptions. Routing,
-- JSON and the checks of request bodies are FastAPI's.
pub mod Listing
pub mod Openapi
pub mod Document
pub mod WriteRead
pub mod Answers
pub mod Unhandled
pub mod WriteAnswers
pub mod Lifespan
pub mod Refusals
use stiebel_eltron_heatpump.Prelude.{
  bool_eq, ℕ, List, [], ◌∷◌, ◌++◌, length, Option, none, some, Bool, true, false, ◌==◌, map,
  if◌then◌else◌,
}
use stiebel_eltron_heatpump.Errors.{
  Exn, protocol_error, invalid_data, write_not_confirmed, value_out_of_range, channel_not_found,
  channel_not_writable, value_error, type_error, Result, ok, err, is_protocol_error,
}
use stiebel_eltron_heatpump.Dict.{Dict}
use stiebel_eltron_heatpump.Models.{
  Text, Conversions, FloatOps, DataType, sensor, status, settings, ValueKind, ChannelDefinition,
  value_kind, writable,
}
use stiebel_eltron_heatpump.Config.{HeatPumpConfig, requests}
use stiebel_eltron_heatpump.Protocol.Transport.{Transport}
use stiebel_eltron_heatpump.Communication.{Version}
use stiebel_eltron_heatpump.Communication.Clock.{Now, Reported}
use stiebel_eltron_heatpump.Service.{Requested, ChannelValue, is_type, strip}
use stiebel_eltron_heatpump.Service.Operations.{
  service_version, read_channel, read_channels, read_all, write_channel, service_set_time,
}

-- The answer with status 200, an `HTTPException` or an exception handler's status, or an exception
-- that no handler of the application takes.
pub data Outcome (A : Type 0) : Type 0 where
  answered : A → Outcome A
  http_error : ℕ → Outcome A
  unhandled : Exn → Outcome A

pub record ChannelInfo (F : Type 0) : Type 0 where
  pub channel_id : Text
  pub data_type : DataType
  pub value_kind : ValueKind
  pub can_write : Bool
  pub unit : Option Text
  pub min : Option F
  pub max : Option F
  pub step : Option F

abbrev pub only_if : {A : Type 0} → Bool → A → Option A
only_if true a = some a
only_if false a = none

module _ {F : Type 0} (ops : FloatOps F) where
  -- `ChannelInfo.from_definition`
  unfoldable pub from_definition : ChannelDefinition F → ChannelInfo F
  from_definition r = record {
    channel_id = r.channel_id;
    data_type = r.data_type;
    value_kind = value_kind ops r;
    can_write = writable r;
    unit = r.unit;
    min = only_if (writable r) r.min;
    max = only_if (writable r) r.max;
    step = only_if (writable r) r.step;
  }

module _ {F : Type 0} where
  -- `[i for i in infos if i.data_type == data_type]`
  unfoldable pub of_type : DataType → List (ChannelInfo F) → List (ChannelInfo F)
  of_type d [] = []
  of_type d (i ∷ infos) =
      let rest = of_type d infos in if is_type (d ∷ []) i.data_type then i ∷ rest else rest

  -- `[i for i in infos if i.writable == writable]`
  unfoldable pub of_writability : Bool → List (ChannelInfo F) → List (ChannelInfo F)
  of_writability w [] = []
  of_writability w (i ∷ infos) =
      let rest = of_writability w infos in if bool_eq i.can_write w then i ∷ rest else rest

  abbrev filter_type : Option DataType → List (ChannelInfo F) → List (ChannelInfo F)
  filter_type none infos = infos
  filter_type (some d) infos = of_type d infos

  abbrev filter_writable : Option Bool → List (ChannelInfo F) → List (ChannelInfo F)
  filter_writable none infos = infos
  filter_writable (some w) infos = of_writability w infos

module _ {F : Type 0} (ops : FloatOps F) (config : HeatPumpConfig F) where
  unfoldable pub list_channels : Option DataType → Option Bool → List (ChannelInfo F)
  list_channels data_type can_write =
      filter_writable can_write (filter_type data_type (map (from_definition ops) config.channels))

  -- The counts of the service information.
  unfoldable pub root : Text × ℕ × ℕ
  root = (config.name, length config.channels, length (requests config))

-- The handlers that `build_app` adds: the most specific class of the exception counts.
unfoldable pub handled : {A : Type 0} → Exn → Outcome A
unfolding is_protocol_error
handled write_not_confirmed = http_error 502
handled e = if is_protocol_error e then http_error 503 else unhandled e

module _ {A : Type 0} where
  abbrev pub respond : (Exn → Outcome A) → Result A → Outcome A
  respond on_error (ok a) = answered a
  respond on_error (err e) = on_error e

  -- `except ChannelNotFound` of the reading routes.
  unfoldable pub read_error : Exn → Outcome A
  read_error channel_not_found = http_error 404
  read_error e = handled e

  -- The `except` clauses of the writing route, in their order. ValueOutOfRange is a ValueError.
  unfoldable pub write_error : Exn → Outcome A
  write_error channel_not_found = http_error 404
  write_error channel_not_writable = http_error 409
  write_error value_error = http_error 400
  write_error value_out_of_range = http_error 400
  write_error type_error = http_error 400
  write_error e = handled e

-- `ids.split(",")`, from the part that has begun.
unfoldable pub split_ids : Text → Text → List Text
split_ids part [] = part ∷ []
split_ids part (c ∷ text) = elim (c == b',') [
  | true ↦ part ∷ split_ids [] text
  | false ↦ split_ids (part ++ (c ∷ [])) text
]

abbrev add_part : Text → List Text → List Text
add_part [] parts = parts
add_part (c ∷ part) parts = (c ∷ part) ∷ parts

-- `[part.strip() for part in … if part.strip()]`
unfoldable pub stripped : List Text → List Text
stripped [] = []
stripped (part ∷ parts) = add_part (strip part) (stripped parts)

module _ (t : Transport) {F : Type 0} (ops : FloatOps F) (config : HeatPumpConfig F) where
  -- A route that calls the service: without one (`get_service`) the status is 503.
  abbrev pub serve :
      {A : Type 0}
      → Bool
      → (Exn → Outcome A)
      → (t.State → Result A × t.State)
      → t.State
      → Outcome A × t.State
  serve false on_error call s = (http_error 503, s)
  serve true on_error call s = let (r, s') = call s in (respond on_error r, s')

  module _ (available : Bool) where
    unfoldable pub version_route : t.State → Outcome (Version F) × t.State
    version_route s = serve available handled (service_version t ops config) s

    -- `ids` is None, empty or a text; `data_type` counts only without it.
    unfoldable pub values_route :
        Option Text → Option DataType → t.State → Outcome (List (ChannelValue F)) × t.State
    values_route none none s = serve available handled (read_all t ops config []) s
    values_route none (some d) s = serve available handled (read_all t ops config (d ∷ [])) s
    values_route (some []) none s = serve available handled (read_all t ops config []) s
    values_route (some []) (some d) s = serve available handled (read_all t ops config (d ∷ [])) s
    values_route (some (c ∷ ids)) data_type s =
        serve available read_error (read_channels t ops config (stripped (split_ids [] (c ∷ ids))))
          s

    unfoldable pub read_route : Text → t.State → Outcome (ChannelValue F) × t.State
    read_route channel_id s = serve available read_error (read_channel t ops config channel_id) s

    unfoldable pub write_route :
        Conversions F → Text → Requested F → t.State → Outcome (ChannelValue F) × t.State
    write_route conv channel_id value s =
        serve available write_error (write_channel t ops config conv channel_id value) s

    unfoldable pub set_time_route : Now → t.State → Outcome (Dict (Reported F)) × t.State
    set_time_route now s = serve available handled (service_set_time t ops config now) s
