-- ===== src/Simulator.antt =====
-- stiebel_heatpump/simulator.py: a heat pump in memory. Here are its state and what it answers;
-- Simulator/Feed.antt has the protocol, byte by byte, and Simulator/Seeding.antt the values that it
-- starts with.
pub mod Feed
pub mod Link
pub mod Answers
pub mod Stack
pub mod RoundTrip
pub mod Seeding
pub mod Matching
pub mod Invariant
pub mod Known
use stiebel_eltron_heatpump.Prelude.{
  ℕ, ◌+◌, ◌-◌, List, [], ◌∷◌, ◌++◌, length, take, drop, replicate, get_or, Option, none, some, Bool,
  true, false, not, ◌&&◌, ltb, leb, ◌==◌, list_eq, if◌then◌else◌,
}
use stiebel_eltron_heatpump.Errors.{Result, ok, err, ◌>>=◌, key_error}
use stiebel_eltron_heatpump.Dict.{Dict, lookup, insert}
use stiebel_eltron_heatpump.Models.{Text, ChannelDefinition}
use stiebel_eltron_heatpump.Config.{HeatPumpConfig, Request, from_hex}
use stiebel_eltron_heatpump.Protocol.Frame.{
  Bytes, escape, footer, header_start, get_mark, set_mark, start_communication, data_available,
  calculate_checksum, add_duplicated_bytes, fix_duplicated_bytes, is_frame_end,
}
use stiebel_eltron_heatpump.Protocol.Number.{store}

-- `_state`
pub data Phase : Type 0 where
  idle collecting await_ack : Phase

-- The object: a response frame for each command, as hexadecimal text, and the state of the
-- conversation. Of `_command_to_request` only the order of the keys is used later.
pub record Simulator (F : Type 0) : Type 0 where
  pub config : HeatPumpConfig F
  pub frames : Dict Bytes
  pub commands : Dict (Request F)
  pub phase : Phase
  pub frame_buffer : Bytes
  pub pending : Bytes

-- `frame[2] = parser.calculate_checksum(frame)`
unfoldable pub with_checksum : Bytes → Result Bytes
with_checksum frame = do checksum ← calculate_checksum frame; store frame 2 checksum

-- `frame[1] = parser.GET`, and the checksum behind it.
unfoldable pub mark_get : Bytes → Result Bytes
mark_get frame = do marked ← store frame 1 get_mark; with_checksum marked

-- `frame[3 : 3 + len(command)] == command`
unfoldable pub carries : Bytes → Bytes → Bool
carries frame command = list_eq (take (length command) (drop 3 frame)) command

-- `best is None or len(command_bytes) > len(bytes.fromhex(best))`
unfoldable pub is_longer : Bytes → Option Text → Result Bool
is_longer command none = ok true
is_longer command (some best) = do
  best_bytes ← from_hex best
  ok (ltb (length best_bytes) (length command))

-- One round of the loop of `_match_command`.
unfoldable pub match_step : Text → Bytes → Option Text → Result (Option Text)
match_step command_hex frame best = do
  command ← from_hex command_hex
  if carries frame command
      then (do longer ← is_longer command best; ok (if longer then some command_hex else best))
      else ok best

abbrev pub or_key_error {ℓ} : {A : Type ℓ} → Option A → Result A
or_key_error none = err key_error
or_key_error (some a) = ok a

-- `command = frame[3:4] if len(frame) > 4 else b"\x00"`, and the answer with it.
unfoldable pub error_response : Bytes → Result Bytes
error_response frame =
    let command : Bytes = if ltb 4 (length frame) then take 1 (drop 3 frame) else 0x00 ∷ [] in
    with_checksum (header_start ∷ 0x03 ∷ 0x00 ∷ (command ++ footer))

-- The confirmation of a SET.
unfoldable pub confirmation : Text → Result Bytes
confirmation command_hex = do
  command ← from_hex command_hex
  with_checksum (header_start ∷ set_mark ∷ 0x00 ∷ (command ++ footer))

module _ {F : Type 0} where
  unfoldable pub match_loop : Dict (Request F) → Bytes → Option Text → Result (Option Text)
  match_loop [] frame best = ok best
  match_loop ((command_hex, _) ∷ rest) frame best = do
    best' ← match_step command_hex frame best
    match_loop rest frame best'

  unfoldable pub match_command : Simulator F → Bytes → Result (Option Text)
  match_command s frame = match_loop s.commands frame none
