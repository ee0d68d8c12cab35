-- ===== src/Simulator/Known/Start.antt =====
-- At its start the simulator holds a frame for every command that it knows.
use stiebel_eltron_heatpump.Prelude.{
  ◌≡◌, subst, List, [], ◌∷◌, Option, none, some, pos, mod_ℤ, div_ℤ,
}
use stiebel_eltron_heatpump.Errors.{ok, chain-ok, ok-injective}
use stiebel_eltron_heatpump.Exec.{next}
use stiebel_eltron_heatpump.Dict.{Dict}
use stiebel_eltron_heatpump.Models.{Text, FloatOps, Conversions, Value, int, ChannelDefinition}
use stiebel_eltron_heatpump.Config.{
  HeatPumpConfig, Request, from_hex, given, requests, channel, request_for_channel,
}
use stiebel_eltron_heatpump.Protocol.Frame.{Bytes}
use stiebel_eltron_heatpump.Simulator.{Simulator, mark_get}
use stiebel_eltron_heatpump.Simulator.Seeding.{
  modify, encode, encode_parts, int_of_value, second_command, set_in_request, set_in_channel,
  set_value, build_frame,
}
use stiebel_eltron_heatpump.Simulator.Seeding.Start.{
  add_command, add_second, add_requests, set_values, default_version, new_simulator,
}
use stiebel_eltron_heatpump.Simulator.Known.{
  Covers, Keeps, HasFrames, Covers-insert, modify-Keeps, Keeps-trans, Covers-Keeps,
}

-- The two tables that the first loop of `__init__` fills.
abbrev Tables : Type 0 → Type 0
Tables F = Dict Bytes × Dict (Request F)

module _ {F : Type 0} where
  add_command-Covers :
      (request : Request F) (command_hex : Text) (tables tables' : Tables F)
      → add_command request command_hex tables ≡ ok tables'
      → Covers tables.1 tables.0
      → Covers tables'.1 tables'.0
  unfolding add_command
  add_command-Covers request command_hex (frames, commands) tables' h c =
      let (command, e, h1) = chain-ok _ (from_hex command_hex) h in
      let (frame, f, h2) = chain-ok _ (build_frame request command) h1 in
      subst (λ (x : Tables F). Covers x.1 x.0) (ok-injective h2)
        (Covers-insert command_hex request frame commands frames c)

  add_second-Covers :
      (request : Request F) (second : Option Text) (tables tables' : Tables F)
      → add_second request second tables ≡ ok tables'
      → Covers tables.1 tables.0
      → Covers tables'.1 tables'.0
  add_second-Covers request none tables tables' h c =
      subst (λ (x : Tables F). Covers x.1 x.0) (ok-injective h) c
  add_second-Covers request (some command_hex) tables tables' h c =
      add_command-Covers request command_hex tables tables' h c

  add_requests-Covers :
      (all : List (Request F)) (tables tables' : Tables F)
      → add_requests all tables ≡ ok tables'
      → Covers tables.1 tables.0
      → Covers tables'.1 tables'.0
  unfolding add_requests
  add_requests-Covers [] tables tables' h c =
      subst (λ (x : Tables F). Covers x.1 x.0) (ok-injective h) c
  add_requests-Covers (request ∷ rest) tables tables' h c =
      let (first, e, h1) = chain-ok _ (add_command request request.request_byte tables) h in
      let (both, f, h2) = chain-ok _ (add_second request (given request.request_byte2) first) h1 in
      add_requests-Covers rest both tables' h2 (
        add_second-Covers request (given request.request_byte2) first both f
          (add_command-Covers request request.request_byte tables first e c))

module _ {F : Type 0} (ops : FloatOps F) (conv : Conversions F) where
  encode_parts-Keeps :
      (request : Request F) (r : ChannelDefinition F) (value : Value F) (second : Option Text)
      (frames frames' : Dict Bytes)
      → encode_parts ops conv request r value second frames ≡ ok frames'
      → Keeps frames frames'
  unfolding encode_parts
  encode_parts-Keeps request r value none frames frames' h =
      modify-Keeps request.request_byte (λ frame. encode ops frame r value) frames frames' h
  encode_parts-Keeps request r value (some request_byte2) frames frames' h =
      let (n, e, h1) = chain-ok _ (int_of_value conv value) h in
      let (lower, e1, h2) =
        chain-ok _
          (modify request.request_byte (λ frame. encode ops frame r (int (pos (mod_ℤ n 1000))))
            frames)
          h1 in
      let (upper, e2, h3) =
        chain-ok _ (modify request_byte2 (λ frame. encode ops frame r (int (div_ℤ n 1000))) lower)
          h2 in
      Keeps-trans frames lower frames' (modify-Keeps request.request_byte _ frames lower e1) (
        Keeps-trans lower upper frames' (modify-Keeps request_byte2 _ lower upper e2)
          (modify-Keeps request_byte2 mark_get upper frames' h3))

  set_in_request-Keeps :
      (r : ChannelDefinition F) (value : Value F) (request : Option (Request F))
      (frames frames' : Dict Bytes)
      → set_in_request ops conv r value request frames ≡ ok frames'
      → Keeps frames frames'
  unfolding set_in_request
  set_in_request-Keeps r value none frames frames' h =
      subst (λ (x : Dict Bytes). Keeps frames x) (ok-injective h) (λ key frame e. (frame, e))
  set_in_request-Keeps r value (some request) frames frames' h =
      let second = second_command request.request_byte2 value in
      let (encoded, e, h1) = chain-ok _ (encode_parts ops conv request r value second frames) h in
      Keeps-trans frames encoded frames'
        (encode_parts-Keeps request r value second frames encoded e)
        (modify-Keeps request.request_byte mark_get encoded frames' h1)

  set_in_channel-Keeps :
      (config : HeatPumpConfig F) (value : Value F) (r : Option (ChannelDefinition F))
      (channel_id : Text) (frames frames' : Dict Bytes)
      → set_in_channel ops conv config value r channel_id frames ≡ ok frames'
      → Keeps frames frames'
  unfolding set_in_channel
  set_in_channel-Keeps config value none channel_id frames frames' h =
      subst (λ (x : Dict Bytes). Keeps frames x) (ok-injective h) (λ key frame e. (frame, e))
  set_in_channel-Keeps config value (some r) channel_id frames frames' h =
      set_in_request-Keeps r value (request_for_channel config channel_id) frames frames' h

  set_values-HasFrames :
      (seeds : Dict (Value F)) (s s' : Simulator F)
      → set_values ops conv seeds s ≡ ok s'
      → HasFrames s
      → HasFrames s'
  unfolding set_values set_value
  set_values-HasFrames [] s s' h c = subst (λ (x : Simulator F). HasFrames x) (ok-injective h) c
  set_values-HasFrames ((channel_id, value) ∷ seeds) s s' h c =
      let (next, e, h1) = chain-ok _ (set_value ops conv channel_id value s) h in
      let (frames, f, e1) =
        chain-ok _
          (set_in_channel ops conv s.config value (channel s.config channel_id) channel_id s.frames)
          e in
      let here = Covers-Keeps s.commands s.frames frames c (
        set_in_channel-Keeps s.config value (channel s.config channel_id) channel_id s.frames frames
          f) in
      set_values-HasFrames seeds next s' h1
        (subst (λ (x : Simulator F). HasFrames x) (ok-injective e1) here)

  pub new_simulator-HasFrames :
      (config : HeatPumpConfig F) (seed_values : Dict (Value F)) (s : Simulator F)
      → new_simulator ops conv config seed_values ≡ ok s
      → HasFrames s
  unfolding new_simulator
  new_simulator-HasFrames config seed_values s h =
      let (tables, e, h1) = chain-ok _ (add_requests (requests config) ([], [])) h in
      let (version, f, h2) = chain-ok _ (default_version conv config) h1 in
      set_values-HasFrames _ _ s h2
        (add_requests-Covers (requests config) ([], []) tables e (λ key is. absurd is))
