-- ===== src/Simulator/Invariant/Always.antt =====
-- The frames of the simulator, from its start on.
use stiebel_eltron_heatpump.Prelude.{◌≡◌, subst, List, [], ◌∷◌, Option, none, some, ℕ}
use stiebel_eltron_heatpump.Errors.{ok, chain-ok, ok-injective}
use stiebel_eltron_heatpump.Dict.{Dict, lookup}
use stiebel_eltron_heatpump.Models.{Text, FloatOps, Conversions, Value}
use stiebel_eltron_heatpump.Config.{HeatPumpConfig, Request, from_hex, given, requests}
use stiebel_eltron_heatpump.Protocol.Frame.{Bytes, header_start}
use stiebel_eltron_heatpump.Simulator.{Simulator}
use stiebel_eltron_heatpump.Simulator.Feed.{build_response}
use stiebel_eltron_heatpump.Simulator.Seeding.{build_frame}
use stiebel_eltron_heatpump.Simulator.Seeding.Start.{
  add_command, add_second, add_requests, default_version, new_simulator,
}
use stiebel_eltron_heatpump.Simulator.Invariant.{
  AllChecked, AllChecked-insert, build_response-AllChecked,
}
use stiebel_eltron_heatpump.Simulator.Invariant.Built.{AllBehind, build_frame-checked}
use stiebel_eltron_heatpump.Simulator.Invariant.Behind.{
  RequestsBehind, requests-RequestsBehind, channel-FindsBehind,
}
use stiebel_eltron_heatpump.Simulator.Invariant.Start.{set_values-AllChecked}

-- A frame that is asked: what stands behind the header start.
abbrev pub Asked : Type 0
Asked = ℕ × ℕ × ℕ × ℕ × Bytes

module _ {F : Type 0} where
  add_command-AllChecked :
      (request : Request F) (command_hex : Text) (tables tables' : Dict Bytes × Dict (Request F))
      → AllBehind request.records
      → add_command request command_hex tables ≡ ok tables'
      → AllChecked tables.0
      → AllChecked tables'.0
  unfolding add_command
  add_command-AllChecked request command_hex (frames, commands) tables' behind h all =
      let (command, e, h1) = chain-ok _ (from_hex command_hex) h in
      let (frame, f, h2) = chain-ok _ (build_frame request command) h1 in
      subst (λ (x : Dict Bytes × Dict (Request F)). AllChecked x.0) (ok-injective h2)
        (AllChecked-insert command_hex frame frames
          (build_frame-checked request command frame behind f) all)

  add_second-AllChecked :
      (request : Request F) (second : Option Text) (tables tables' : Dict Bytes × Dict (Request F))
      → AllBehind request.records
      → add_second request second tables ≡ ok tables'
      → AllChecked tables.0
      → AllChecked tables'.0
  add_second-AllChecked request none tables tables' behind h all =
      subst (λ (x : Dict Bytes × Dict (Request F)). AllChecked x.0) (ok-injective h) all
  add_second-AllChecked request (some command_hex) tables tables' behind h all =
      add_command-AllChecked request command_hex tables tables' behind h all

  add_requests-AllChecked :
      (all_requests : List (Request F)) (tables tables' : Dict Bytes × Dict (Request F))
      → RequestsBehind all_requests
      → add_requests all_requests tables ≡ ok tables'
      → AllChecked tables.0
      → AllChecked tables'.0
  unfolding add_requests
  add_requests-AllChecked [] tables tables' behind h all =
      subst (λ (x : Dict Bytes × Dict (Request F)). AllChecked x.0) (ok-injective h) all
  add_requests-AllChecked (request ∷ rest) tables tables' (behind, later) h all =
      let (first, e, h1) = chain-ok _ (add_command request request.request_byte tables) h in
      let (both, f, h2) = chain-ok _ (add_second request (given request.request_byte2) first) h1 in
      add_requests-AllChecked rest both tables' later h2 (
        add_second-AllChecked request (given request.request_byte2) first both behind f
          (add_command-AllChecked request request.request_byte tables first behind e all))

  -- The simulator after it has answered frames with a header start, one after another.
  unfoldable pub after_answers : List Asked → Simulator F → Simulator F
  after_answers [] s = s
  after_answers ((b, c, d, e, rest) ∷ asked) s =
      after_answers asked (build_response (header_start ∷ b ∷ c ∷ d ∷ e ∷ rest) s).1

  after_answers-AllChecked :
      (asked : List Asked) (s : Simulator F)
      → AllChecked s.frames
      → AllChecked (after_answers asked s).frames
  unfolding after_answers
  after_answers-AllChecked [] s all = all
  after_answers-AllChecked ((b, c, d, e, rest) ∷ asked) s all =
      after_answers-AllChecked asked (build_response (header_start ∷ b ∷ c ∷ d ∷ e ∷ rest) s).1
        (build_response-AllChecked b c d e rest s all)

-- From its start on, with the values that it is seeded with, and after any frames with a header
-- start have been answered, whatever their marks, checksums and payloads, every frame that a
-- simulator holds passes the header check, if the channels lie behind the header.
pub new_simulator-AllChecked :
    {F : Type 0} (ops : FloatOps F) (conv : Conversions F) (config : HeatPumpConfig F)
    (seed_values : Dict (Value F)) (s : Simulator F) (asked : List Asked)
    → AllBehind config.channels
    → new_simulator ops conv config seed_values ≡ ok s
    → AllChecked (after_answers asked s).frames
unfolding new_simulator
new_simulator-AllChecked ops conv config seed_values s asked behind h =
    let (tables, e, h1) = chain-ok _ (add_requests (requests config) ([], [])) h in
    let (version, f, h2) = chain-ok _ (default_version conv config) h1 in
    let started =
      add_requests-AllChecked (requests config) ([], []) tables
        (requests-RequestsBehind config behind) e (λ key frame never. unfold lookup in cc never) in
    after_answers-AllChecked asked s
      (set_values-AllChecked ops conv _ _ s (channel-FindsBehind config behind) h2 started)
