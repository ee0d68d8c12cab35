-- ===== src/Simulator/Invariant.antt =====
-- Every frame that the simulator holds passes the header check, whatever it is asked.
pub mod Frames
pub mod Built
pub mod Start
pub mod Behind
pub mod Always
use stiebel_eltron_heatpump.Prelude.{
  ℕ, ◌≡◌, ◌∷◌, length, Option, none, some, true, false, inl, inr, Bool-cases, arith, ltb, list_eq,
  ◌==◌,
}
use stiebel_eltron_heatpump.Errors.{Result-cases}
use stiebel_eltron_heatpump.Dict.{Dict, lookup, insert, lookup-insert}
use stiebel_eltron_heatpump.Models.{Text}
use stiebel_eltron_heatpump.Protocol.Frame.{Bytes, header_start, set_mark, header_check}
use stiebel_eltron_heatpump.Simulator.{Simulator, match_command}
use stiebel_eltron_heatpump.Simulator.Feed.{put_frame, answer_set, answer, build_response}
use stiebel_eltron_heatpump.Simulator.Seeding.Laws.{header_check-mark_get}

-- Every stored frame passes the header check.
abbrev pub AllChecked : Dict Bytes → Type 0
AllChecked frames =
    (key : Text) (frame : Bytes) → lookup key frames ≡ some frame → header_check frame ≡ true

pub AllChecked-insert :
    (key : Text) (frame : Bytes) (frames : Dict Bytes)
    → header_check frame ≡ true
    → AllChecked frames
    → AllChecked (insert key frame frames)
AllChecked-insert key frame frames checked all key' frame' found =
    let law = lookup-insert key key' frame frames in
    elim (Bool-cases (list_eq key key')) [
      | inl e ↦ ground (arith, law)
      | inr e ↦ all key' frame' (ground (arith, law))
    ]

module _ {F : Type 0} (b c d e : ℕ) (rest : Bytes) (s : Simulator F)
    (all : AllChecked s.frames) where
  abbrev incoming : Bytes
  incoming = header_start ∷ b ∷ c ∷ d ∷ e ∷ rest

  answer_set-AllChecked : (key : Text) → AllChecked (answer_set incoming key s).1.frames
  unfolding answer_set put_frame
  answer_set-AllChecked key =
      let (frame, marked, checked) = header_check-mark_get b c d e rest in
      rw marked (AllChecked-insert key frame s.frames checked all)

  answer-AllChecked : (found : Option Text) → AllChecked (answer incoming found s).1.frames
  unfolding answer
  answer-AllChecked none = all
  answer-AllChecked (some key) = elim (Bool-cases (b == set_mark)) [
    | inl is ↦ rw is (answer_set-AllChecked key)
    | inr other ↦ rw other all
  ]

  -- If every stored frame passes the header check, then so it is after any frame with a header start
  -- has been answered, whatever its mark, checksum and payload, and whether or not an answer is found.
  pub build_response-AllChecked : AllChecked (build_response incoming s).1.frames
  unfolding build_response
  build_response-AllChecked =
      let long : ltb (length incoming) 4 ≡ false = ground arith in
      elim (Result-cases (match_command s incoming)) [
        | inl (found, e') ↦ rw (long, e') (answer-AllChecked found)
        | inr (x, e') ↦ rw (long, e') all
      ]
