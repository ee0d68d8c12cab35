-- ===== src/Simulator/Seeding/Start.antt =====
-- `__init__` and `_default_version` of the simulator.
use stiebel_eltron_heatpump.Prelude.{
  List, [], ◌∷◌, ◌++◌, Option, none, some, Bool, true, false, ◌&&◌, ◌||◌, leb, ◌==◌,
}
use stiebel_eltron_heatpump.Errors.{Result, ok, ◌>>=◌}
use stiebel_eltron_heatpump.Dict.{Dict, lookup, insert}
use stiebel_eltron_heatpump.Models.{Text, codes, FloatOps, Conversions, Value, float}
use stiebel_eltron_heatpump.Config.{HeatPumpConfig, Request, given, from_hex, requests}
use stiebel_eltron_heatpump.Protocol.Frame.{Bytes}
use stiebel_eltron_heatpump.Simulator.{Simulator, idle}
use stiebel_eltron_heatpump.Simulator.Seeding.{build_frame, set_value}

-- `name.replace("-", "_").split("_")`, from the part that has begun.
unfoldable pub split_name : Text → Text → List Text
split_name part [] = part ∷ []
split_name part (c ∷ name) = elim (c == b'_' || c == b'-') [
  | true ↦ part ∷ split_name [] name
  | false ↦ split_name (part ++ (c ∷ [])) name
]

unfoldable pub all_digits : Text → Bool
all_digits [] = true
all_digits (c ∷ text) = (leb b'0' c && leb c b'9') && all_digits text

-- `str.isdigit` on ASCII.
unfoldable pub is_digits : Text → Bool
unfolding all_digits
is_digits [] = false
is_digits (c ∷ text) = all_digits (c ∷ text)

abbrev pair_with : Text → Option Text → Option (Text × Text)
pair_with part none = none
pair_with part (some before) = some (before, part)

-- `digits[-2]` and `digits[-1]` of the parts that are digits, after those seen so far.
unfoldable pub last_digits : Option Text → Option (Text × Text) → List Text → Option (Text × Text)
last_digits before pair [] = pair
last_digits before pair (part ∷ parts) = elim (is_digits part) [
  | true ↦ last_digits (some part) (pair_with part before) parts
  | false ↦ last_digits before pair parts
]

module _ {F : Type 0} (conv : Conversions F) where
  abbrev version_of_digits : Option (Text × Text) → Result F
  version_of_digits none = conv.float_of_text (codes "7.59")
  version_of_digits (some (major, minor)) = conv.float_of_text (major ++ (codes "." ++ minor))

  unfoldable pub default_version : HeatPumpConfig F → Result F
  default_version config = version_of_digits (last_digits none none (split_name [] config.name))

module _ {F : Type 0} where
  unfoldable pub add_command :
      Request F → Text → Dict Bytes × Dict (Request F) → Result (Dict Bytes × Dict (Request F))
  add_command request command_hex (frames, commands) = do
    command ← from_hex command_hex
    frame ← build_frame request command
    ok (insert command_hex frame frames, insert command_hex request commands)

  abbrev pub add_second :
      Request F
      → Option Text
      → Dict Bytes × Dict (Request F)
      → Result (Dict Bytes × Dict (Request F))
  add_second request none tables = ok tables
  add_second request (some command_hex) tables = add_command request command_hex tables

  -- The first loop of `__init__`.
  unfoldable pub add_requests :
      List (Request F) → Dict Bytes × Dict (Request F) → Result (Dict Bytes × Dict (Request F))
  add_requests [] tables = ok tables
  add_requests (request ∷ rest) tables = do
    first ← add_command request request.request_byte tables
    both ← add_second request (given request.request_byte2) first
    add_requests rest both

  -- `seeds.setdefault("version", …)`
  abbrev set_default : Text → Value F → Option (Value F) → Dict (Value F) → Dict (Value F)
  set_default key value none seeds = insert key value seeds
  set_default key value (some _) seeds = seeds

module _ {F : Type 0} (ops : FloatOps F) (conv : Conversions F) where
  -- The second loop of `__init__`.
  unfoldable pub set_values : Dict (Value F) → Simulator F → Result (Simulator F)
  set_values [] s = ok s
  set_values ((channel_id, value) ∷ seeds) s = do
    next ← set_value ops conv channel_id value s
    set_values seeds next

  unfoldable pub new_simulator : HeatPumpConfig F → Dict (Value F) → Result (Simulator F)
  new_simulator config seed_values = do
    tables ← add_requests (requests config) ([], [])
    version ← default_version conv config
    let seeds =
        set_default (codes "version") (float version) (lookup (codes "version") seed_values)
          seed_values
    set_values seeds (record {
      config = config;
      frames = tables.0;
      commands = tables.1;
      phase = idle;
      frame_buffer = [];
      pending = [];
    })
