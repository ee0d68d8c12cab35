-- ===== src/Simulator/Answers.antt =====
-- What the simulator answers to a GET and to a SET of a command that it knows.
use stiebel_eltron_heatpump.Prelude.{
  ℕ, ◌≡◌, ◌≢◌, ◌∙◌, ◌∷◌, length, length-append, some, false, arith, ltb, ==_ne,
}
use stiebel_eltron_heatpump.Errors.{ok}
use stiebel_eltron_heatpump.Dict.{lookup, insert}
use stiebel_eltron_heatpump.Models.{Text}
use stiebel_eltron_heatpump.Config.{from_hex}
use stiebel_eltron_heatpump.Protocol.Frame.{Bytes, footer, header_start, get_mark, set_mark}
use stiebel_eltron_heatpump.Protocol.Frame.Escaping.{framed}
use stiebel_eltron_heatpump.Protocol.Frame.Checksum.{frame_checksum, calculate_checksum-framed}
use stiebel_eltron_heatpump.Protocol.Number.{store}
use stiebel_eltron_heatpump.Protocol.Encode.Shape.{store_checksum}
use stiebel_eltron_heatpump.Simulator.{
  Simulator, with_checksum, mark_get, confirmation, match_command,
}
use stiebel_eltron_heatpump.Simulator.Feed.{put_frame, answer_set, answer, build_response}

with_checksum-framed :
    (h0 h1 c : ℕ) (payload : Bytes)
    → with_checksum (framed h0 h1 (c ∷ payload))
      ≡ ok (framed h0 h1 (frame_checksum h0 h1 payload ∷ payload))
unfolding with_checksum
with_checksum-framed h0 h1 c payload =
    rw (calculate_checksum-framed h0 h1 c payload)
      (store_checksum h0 h1 c (frame_checksum h0 h1 payload) payload)

-- The frame that the simulator keeps of a frame with this payload.
abbrev pub get_frame : ℕ → Bytes → Bytes
get_frame h0 payload = framed h0 get_mark (frame_checksum h0 get_mark payload ∷ payload)

pub mark_get-framed :
    (h0 h1 c : ℕ) (payload : Bytes)
    → mark_get (framed h0 h1 (c ∷ payload)) ≡ ok (get_frame h0 payload)
unfolding mark_get
mark_get-framed h0 h1 c payload =
    let marked : store (framed h0 h1 (c ∷ payload)) 1 get_mark
        ≡ ok (framed h0 get_mark (c ∷ payload)) =
      unfold store in ground arith in
    rw marked (with_checksum-framed h0 get_mark c payload)

confirmation-from_hex :
    (command_hex : Text) (command : Bytes)
    → from_hex command_hex ≡ ok command
    → confirmation command_hex
      ≡ ok (framed header_start set_mark (frame_checksum header_start set_mark command ∷ command))
unfolding confirmation
confirmation-from_hex command_hex command e =
    rw e (with_checksum-framed header_start set_mark 0 command)

module _ {F : Type 0} (s : Simulator F) (command_hex : Text) (h0 h1 c : ℕ) (payload : Bytes)
    (matched : match_command s (framed h0 h1 (c ∷ payload)) ≡ ok (some command_hex)) where
  long_frame : ltb (length (framed h0 h1 (c ∷ payload))) 4 ≡ false
  long_frame = ground (arith, length-append payload footer)

  build_response-answer :
      build_response (framed h0 h1 (c ∷ payload)) s
      ≡ answer (framed h0 h1 (c ∷ payload)) (some command_hex) s
  unfolding build_response
  build_response-answer = rw (long_frame, matched)

  pub build_response-get :
      (stored : Bytes)
      → h1 ≢ set_mark
      → lookup command_hex s.frames ≡ some stored
      → build_response (framed h0 h1 (c ∷ payload)) s ≡ (ok stored, s)
  build_response-get stored other found =
      build_response-answer ∙ unfold answer in rw (==_ne other, found)

  pub build_response-set :
      (command : Bytes)
      → h1 ≡ set_mark
      → from_hex command_hex ≡ ok command
      → build_response (framed h0 h1 (c ∷ payload)) s ≡ (
        ok (framed header_start set_mark (frame_checksum header_start set_mark command ∷ command)),
        record s { frames = insert command_hex (get_frame h0 payload) s.frames },
      )
  unfolding answer answer_set put_frame
  build_response-set command is_set e =
      build_response-answer
      ∙ rw (
        is_set,
        mark_get-framed h0 set_mark c payload,
        confirmation-from_hex command_hex command e,
      )
