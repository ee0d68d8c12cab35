-- ===== src/Simulator/Known/Feeding.antt =====
-- Whatever the simulator is fed, it keeps a frame for every command that it knows.
use stiebel_eltron_heatpump.Prelude.{
  get_or, ℕ, ◌≡◌, [], ◌∷◌, ◌++◌, length, Option, none, some, inl, inr, Bool-cases, ltb, leb, ◌==◌,
  ◌&&◌,
}
use stiebel_eltron_heatpump.Errors.{Result, ok, err, Result-cases}
use stiebel_eltron_heatpump.Exec.{next}
use stiebel_eltron_heatpump.Dict.{Dict, insert}
use stiebel_eltron_heatpump.Models.{Text, FloatOps, Conversions, Value}
use stiebel_eltron_heatpump.Config.{HeatPumpConfig}
use stiebel_eltron_heatpump.Protocol.Frame.{
  Bytes, escape, start_communication, set_mark, is_frame_end,
}
use stiebel_eltron_heatpump.Simulator.{
  Simulator, Phase, idle, collecting, await_ack, mark_get, match_command,
}
use stiebel_eltron_heatpump.Simulator.Feed.{
  put_frame, answer_set, answer, build_response, feed_idle, feed_collecting, rest, send_response,
  feed_byte_in, feed_byte, feed,
}
use stiebel_eltron_heatpump.Simulator.Seeding.Start.{new_simulator}
use stiebel_eltron_heatpump.Simulator.Known.{HasFrames, Covers-Keeps, Keeps-insert}
use stiebel_eltron_heatpump.Simulator.Known.Start.{new_simulator-HasFrames}

module _ {F : Type 0} where
  answer_set-HasFrames :
      (frame : Bytes) (key : Text) (s : Simulator F)
      → HasFrames s
      → HasFrames (answer_set frame key s).1
  unfolding answer_set put_frame
  answer_set-HasFrames frame key s h = elim (Result-cases (mark_get frame)) [
    | inl (updated, e) ↦ rw e (
        Covers-Keeps s.commands s.frames (insert key updated s.frames) h
          (Keeps-insert key updated s.frames))
    | inr (x, e) ↦ rw e h
  ]

  answer-HasFrames :
      (frame : Bytes) (found : Option Text) (s : Simulator F)
      → HasFrames s
      → HasFrames (answer frame found s).1
  unfolding answer
  answer-HasFrames frame none s h = h
  answer-HasFrames frame (some key) s h = elim (Bool-cases (get_or frame 1 0 == set_mark)) [
    | inl is ↦ rw is (answer_set-HasFrames frame key s h)
    | inr other ↦ rw other h
  ]

  build_response-HasFrames :
      (frame : Bytes) (s : Simulator F) → HasFrames s → HasFrames (build_response frame s).1
  unfolding build_response
  build_response-HasFrames frame s h = elim (Bool-cases (ltb (length frame) 4)) [
    | inl short ↦ rw short h
    | inr long ↦ elim (Result-cases (match_command s frame)) [
      | inl (found, e) ↦ rw (long, e) (answer-HasFrames frame found s h)
      | inr (x, e) ↦ rw (long, e) h
    ]
  ]

  feed_idle-HasFrames : (byte : ℕ) (s : Simulator F) → HasFrames s → HasFrames (feed_idle byte s).1
  unfolding feed_idle
  feed_idle-HasFrames byte s h = elim (Bool-cases (byte == start_communication)) [
    | inl is ↦ rw is h
    | inr other ↦ rw other h
  ]

  feed_collecting-HasFrames :
      (buffer : Bytes) (s : Simulator F) → HasFrames s → HasFrames (feed_collecting buffer s).1
  unfolding feed_collecting
  feed_collecting-HasFrames buffer s h =
      elim (Bool-cases (leb 6 (length buffer) && is_frame_end buffer)) [
        | inl is ↦ rw is h
        | inr other ↦ rw other h
      ]

  next-HasFrames :
      (then_ : Bytes → Simulator F → Result Bytes × Simulator F) (p : Result Bytes × Simulator F)
      → ((out : Bytes) (s : Simulator F) → HasFrames s → HasFrames (then_ out s).1)
      → HasFrames p.1
      → HasFrames (next then_ p).1
  next-HasFrames then_ (ok out, s) h c = h out s c
  next-HasFrames then_ (err e, s) h c = c

  feed_byte-HasFrames :
      (phase : Phase) (byte : ℕ) (s : Simulator F)
      → HasFrames s
      → HasFrames (feed_byte_in phase byte s).1
  unfolding feed_byte_in send_response rest
  feed_byte-HasFrames idle byte s h = feed_idle-HasFrames byte s h
  feed_byte-HasFrames collecting byte s h =
      feed_collecting-HasFrames (s.frame_buffer ++ (byte ∷ [])) s h
  feed_byte-HasFrames await_ack byte s h = elim (Bool-cases (byte == escape)) [
    | inl is ↦ rw is (
        next-HasFrames _ (build_response s.pending s) (λ out s1 h1. h1)
          (build_response-HasFrames s.pending s h))
    | inr other ↦ rw other h
  ]

  feed-HasFrames : (bytes : Bytes) (s : Simulator F) → HasFrames s → HasFrames (feed bytes s).1
  unfolding feed feed_byte
  feed-HasFrames [] s h = h
  feed-HasFrames (byte ∷ bytes) s h =
      next-HasFrames _ (feed_byte_in s.phase byte s)
        (λ out s1 h1.
          next-HasFrames _ (feed bytes s1) (λ more s2 h2. h2) (feed-HasFrames bytes s1 h1))
        (feed_byte-HasFrames s.phase byte s h)

  -- Whatever bytes a simulator is fed from its start on, frames and garbage, whether or not an answer
  -- raises, it holds a frame for every command that it knows, those of the second commands included.
  pub feed-new_simulator :
      (ops : FloatOps F) (conv : Conversions F) (config : HeatPumpConfig F)
      (seed_values : Dict (Value F)) (s : Simulator F) (bytes : Bytes)
      → new_simulator ops conv config seed_values ≡ ok s
      → HasFrames (feed bytes s).1
  feed-new_simulator ops conv config seed_values s bytes h =
      feed-HasFrames bytes s (new_simulator-HasFrames ops conv config seed_values s h)
