-- ===== src/Protocol/Connector.antt =====
-- stiebel_heatpump/protocol/connector.py: the handshake with the heat pump over a transport. The
-- two loops count down what they may still do: the retries left, and the room left in the buffer.
pub mod Receive
pub mod Handshake
pub mod Outcomes
use stiebel_eltron_heatpump.Prelude.{
  ℕ, zero, suc, ◌-◌, List, [], ◌∷◌, Option, none, some, Bool, true, false, not, ◌&&◌, ◌||◌,
  replicate, take, get_or, set, ltb, ◌==◌, if◌then◌else◌,
}
use stiebel_eltron_heatpump.Errors.{
  Result, ok, err, protocol_error, not_established, no_escape, too_much_data,
}
use stiebel_eltron_heatpump.Exec.{Exec, pure, raise, lift, or_else, next, ◌>>=◌, ◌>>◌}
use stiebel_eltron_heatpump.Protocol.Frame.{
  Bytes, escape, start_communication, fix_duplicated_bytes, is_frame_end_at,
}
use stiebel_eltron_heatpump.Protocol.Transport.{Transport}

abbrev pub max_retry : ℕ
max_retry = 5

abbrev pub input_buffer_length : ℕ
input_buffer_length = 1024

-- `bytearray(INPUT_BUFFER_LENGTH)`
abbrev pub empty_buffer : Bytes
empty_buffer = replicate input_buffer_length 0

-- `num_read`, from the room left.
abbrev pub num_read : ℕ → ℕ
num_read room = input_buffer_length - room

-- What follows a `get`: one continuation for NoDataAvailable and one for a byte.
abbrev pub on_get {ℓ κ} : {S : Type ℓ} {R : Type κ} → Option ℕ × S → (S → R) → (ℕ → S → R) → R
on_get (none, s) timeout received = timeout s
on_get (some b, s) timeout received = received b s

-- The end of `_receive_data`, for the room that is left.
unfoldable pub received : ℕ → Bytes → Bytes
received room buffer = fix_duplicated_bytes (take (num_read room) buffer)

-- `buffer[0] == DATA_AVAILABLE[0] and buffer[1] == DATA_AVAILABLE[1]`
unfoldable pub data_ready : Bytes → Bool
data_ready buffer = get_or buffer 0 0 == escape && get_or buffer 1 0 == start_communication

-- `num_read > 4 and parser.is_frame_end(buffer, num_read)`
unfoldable pub frame_complete : Bytes → ℕ → Bool
frame_complete buffer n = ltb 4 n && is_frame_end_at buffer n

module _ (t : Transport) where
  unfoldable pub connect : Exec t.State (Unit {0})
  connect = t.open_link

  unfoldable pub disconnect : Exec t.State (Unit {0})
  disconnect = t.close_link

  -- `_start_communication`
  unfoldable pub start : Exec t.State (Unit {0})
  start = do
    t.write (start_communication ∷ [])
    λ s.
        on_get (t.get s) (λ s'. (err (protocol_error not_established), s'))
          (λ response s'.
            if not (response == escape) then (err (protocol_error no_escape), s') else (ok tt, s'))

  -- The inner loop of `_establish_request`: the result tells if data is available, and keeps the
  -- buffer, which the next attempt reuses.
  unfoldable pub await_data : ℕ → ℕ → Bytes → Exec t.State (Bool × Bytes)
  await_data zero room buffer s = (ok (false, buffer), s)
  await_data (suc retries) zero buffer s =
      on_get (t.get s) (λ s'. await_data retries zero buffer s')
        (λ _ s'. (err (protocol_error too_much_data), s'))
  await_data (suc retries) (suc room) buffer s =
      on_get (t.get s) (λ s'. await_data retries (suc room) buffer s')
        (λ single s'.
          let buffer' = set buffer (num_read (suc room)) single in
          elim (data_ready buffer') [
            | true ↦ (ok (true, buffer'), s')
            | false ↦ await_data (suc retries) room buffer' s'
          ])

  -- The outer loop, with the attempts left.
  unfoldable pub establish_loop : ℕ → Bytes → Bytes → Exec t.State Bool
  establish_loop zero message buffer = pure false
  establish_loop (suc attempts) message buffer = do
    t.write message
    (available, buffer') ← await_data max_retry input_buffer_length buffer
    elim available [ true ↦ pure true | false ↦ start >> establish_loop attempts message buffer' ]

  unfoldable pub establish_request : Bytes → Exec t.State Bool
  establish_request message = establish_loop max_retry message empty_buffer

  unfoldable pub receive_loop : ℕ → ℕ → Bytes → Exec t.State Bytes
  receive_loop zero room buffer s = (ok (received room buffer), s)
  receive_loop (suc retries) zero buffer s =
      on_get (t.get s) (λ s'. receive_loop retries zero buffer s')
        (λ _ s'. (err (protocol_error too_much_data), s'))
  receive_loop (suc retries) (suc room) buffer s =
      on_get (t.get s) (λ s'. receive_loop retries (suc room) buffer s')
        (λ single s'.
          let buffer' = set buffer (num_read (suc room)) single in
          elim (frame_complete buffer' (num_read room)) [
            | true ↦ (ok (received room buffer'), s')
            | false ↦ receive_loop (suc retries) room buffer' s'
          ])

  unfoldable pub receive_data : Exec t.State Bytes
  receive_data = receive_loop max_retry input_buffer_length empty_buffer

  -- `except Exception` gives the empty answer.
  unfoldable pub get_data : Bytes → Exec t.State Bytes
  get_data request_message = do
    start
    established ← establish_request request_message
    if not established then pure [] else λ s. or_else [] ((t.write (escape ∷ []) >> receive_data) s)

  -- The end of `set_data`: a frame that could not be sent gives the empty answer.
  abbrev pub finish_set {ℓ} : {A : Type ℓ} → Result A × t.State → Result Bytes × t.State
  finish_set (ok _, s) = receive_data s
  finish_set (err _, s) = (ok [], s)

  -- `_establish_request` may find no data, and the escape is sent all the same.
  unfoldable pub set_data : Bytes → Exec t.State Bytes
  set_data request_message s =
      finish_set ((start >> (establish_request request_message >> t.write (escape ∷ []))) s)
