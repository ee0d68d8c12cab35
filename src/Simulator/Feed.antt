-- ===== src/Simulator/Feed.antt =====
-- The protocol state machine of `HeatPumpSimulator`: `feed`, `_feed_byte` and `_build_response`.
use stiebel_eltron_heatpump.Prelude.{
  ℕ, [], ◌∷◌, ◌++◌, length, get_or, Option, none, some, ◌&&◌, ltb, leb, ◌==◌, if◌then◌else◌,
}
use stiebel_eltron_heatpump.Errors.{ok}
use stiebel_eltron_heatpump.Exec.{Exec, pure, lift, ◌>>=◌, ◌>>◌}
use stiebel_eltron_heatpump.Dict.{lookup, insert}
use stiebel_eltron_heatpump.Models.{Text}
use stiebel_eltron_heatpump.Protocol.Frame.{
  Bytes, escape, footer, header_start, get_mark, set_mark, start_communication, data_available,
  add_duplicated_bytes, fix_duplicated_bytes, is_frame_end,
}
use stiebel_eltron_heatpump.Simulator.{
  Phase, idle, collecting, await_ack, Simulator, mark_get, or_key_error, error_response,
  confirmation, match_command,
}

module _ {F : Type 0} where
  unfoldable pub put_frame : Text → Bytes → Exec (Simulator F) (Unit {0})
  put_frame command_hex frame s = (ok tt, record s { frames = insert command_hex frame s.frames })

  -- The branch of `_build_response` for a SET: the frame is kept as the new answer to a GET.
  unfoldable pub answer_set : Bytes → Text → Exec (Simulator F) Bytes
  unfolding put_frame
  answer_set frame command_hex = do
    updated ← lift (mark_get frame)
    put_frame command_hex updated
    lift (confirmation command_hex)

  -- `_build_response`, once the command is matched.
  unfoldable pub answer : Bytes → Option Text → Exec (Simulator F) Bytes
  answer frame none = lift (error_response frame)
  answer frame (some command_hex) =
      if get_or frame 1 0 == set_mark then answer_set frame command_hex else λ s.
      (or_key_error (lookup command_hex s.frames), s)

  unfoldable pub build_response : Bytes → Exec (Simulator F) Bytes
  build_response frame =
      if ltb (length frame) 4
      then pure (header_start ∷ get_mark ∷ 0x00 ∷ 0x00 ∷ footer)
      else (do command_hex ← λ s. (match_command s frame, s); answer frame command_hex)

  -- The branch of `_feed_byte` in `_IDLE`.
  unfoldable pub feed_idle : ℕ → Exec (Simulator F) Bytes
  feed_idle byte s =
      if byte == start_communication
      then (ok (escape ∷ []), record s { phase = collecting; frame_buffer = [] })
      else (ok [], s)

  -- In `_COLLECTING`, for the buffer with the byte.
  unfoldable pub feed_collecting : Bytes → Exec (Simulator F) Bytes
  feed_collecting buffer s =
      if leb 6 (length buffer) && is_frame_end buffer
      then (
        ok data_available,
        record s {
          frame_buffer = buffer;
          pending = fix_duplicated_bytes buffer;
          phase = await_ack;
        },
      )
      else (ok [], record s { frame_buffer = buffer })

  -- `self._state = _IDLE`
  unfoldable pub rest : Exec (Simulator F) (Unit {0})
  rest s = (ok tt, record s { phase = idle })

  -- After an escape in `_AWAIT_ACK`; if building the response raises, the state stays.
  unfoldable pub send_response : Exec (Simulator F) Bytes
  unfolding rest
  send_response = do
    response ← λ s. build_response s.pending s
    rest
    pure (add_duplicated_bytes response)

  -- `_feed_byte`, by the state.
  unfoldable pub feed_byte_in : Phase → ℕ → Exec (Simulator F) Bytes
  feed_byte_in idle byte s = feed_idle byte s
  feed_byte_in collecting byte s = feed_collecting (s.frame_buffer ++ (byte ∷ [])) s
  feed_byte_in await_ack byte s = if byte == escape then send_response s else (ok [], s)

  unfoldable pub feed_byte : ℕ → Exec (Simulator F) Bytes
  feed_byte byte s = feed_byte_in s.phase byte s

  -- The loop of `feed`: what each byte brings is put out one after the other.
  unfoldable pub feed : Bytes → Exec (Simulator F) Bytes
  feed [] = pure []
  feed (byte ∷ bytes) = do out ← feed_byte byte; more ← feed bytes; pure (out ++ more)
