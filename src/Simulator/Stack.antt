-- ===== src/Simulator/Stack.antt =====
-- Reads and writes of the communication service through connector, transport and simulator.
use stiebel_eltron_heatpump.Prelude.{
  ℕ, ◌≤◌, ◌<◌, ◌≡◌, refl, ap, [], ◌∷◌, length, none, some, true, arith, inl,
}
use stiebel_eltron_heatpump.Errors.{ok}
use stiebel_eltron_heatpump.Dict.{Dict, lookup, insert}
use stiebel_eltron_heatpump.Models.{Text, FloatOps, Value}
use stiebel_eltron_heatpump.Config.{Request, from_hex, request_bytes, request_bytes2}
use stiebel_eltron_heatpump.Protocol.Frame.{
  Bytes, header_start, get_mark, set_mark, header_check, create_request_message,
}
use stiebel_eltron_heatpump.Protocol.Frame.Escaping.{framed, add_duplicated_bytes-framed}
use stiebel_eltron_heatpump.Protocol.Frame.Checksum.{frame_checksum}
use stiebel_eltron_heatpump.Protocol.Frame.Header.{header_check_iff, request_frame-framed}
use stiebel_eltron_heatpump.Protocol.Decode.{parse_records}
use stiebel_eltron_heatpump.Protocol.Connector.{input_buffer_length, get_data, set_data}
use stiebel_eltron_heatpump.Communication.{read_attempt, read_second, get_checked, read_request}
use stiebel_eltron_heatpump.Communication.Reading.{read_request-ok, no_more}
use stiebel_eltron_heatpump.Simulator.{Simulator, idle, match_loop, match_command}
use stiebel_eltron_heatpump.Simulator.Link.{simulated}
use stiebel_eltron_heatpump.Simulator.Link.Collect.{wire, with_frame}
use stiebel_eltron_heatpump.Simulator.Link.Talk.{get_data-build_response, set_data-build_response}
use stiebel_eltron_heatpump.Simulator.Answers.{get_frame, build_response-get, build_response-set}

-- What a frame with this payload carries between its header bytes and its footer.
abbrev pub body : ℕ → Bytes → Bytes
body mark payload = frame_checksum header_start mark payload ∷ payload

pub create_request_message-wire :
    (command : Bytes) (mark : ℕ)
    → create_request_message command mark ≡ ok (wire header_start mark (body mark command))
unfolding create_request_message
create_request_message-wire command mark =
    rw (request_frame-framed command mark)
      (ap ok (add_duplicated_bytes-framed header_start mark (body mark command)))

-- The frame as it is sent fits into the connector's buffer.
abbrev pub Fits : ℕ → Bytes → Type 0
Fits mark payload = length (wire header_start mark (body mark payload)) ≤ input_buffer_length

module _ {F : Type 0} where
  -- The simulator after an exchange: it waits again, and still holds the last frame it was sent.
  abbrev pub after : ℕ → Bytes → Simulator F → Simulator F
  after mark payload s = record s {
    phase = idle;
    frame_buffer = wire header_start mark (body mark payload);
    pending = framed header_start mark (body mark payload);
  }

  -- The simulator takes a frame with this mark and payload for this command.
  abbrev pub Takes : Simulator F → ℕ → Bytes → Text → Type 0
  Takes s mark payload command_hex =
      match_loop s.commands (framed header_start mark (body mark payload)) none
      ≡ ok (some command_hex)

  -- The simulator after a SET.
  abbrev pub updated_by : Text → Bytes → Simulator F → Simulator F
  updated_by command_hex payload s = record (after set_mark payload s) {
    frames = insert command_hex (get_frame header_start payload) s.frames;
  }

  module _ (command_hex : Text) (command : Bytes) (some_command : 0 < length command)
      (named : from_hex command_hex ≡ ok command) where
    module _ (s : Simulator F) (rests : s.phase ≡ idle) (payload : Bytes)
        (some_payload : 0 < length payload) (fits : Fits get_mark payload)
        (taken : Takes s get_mark command command_hex)
        (stored : lookup command_hex s.frames ≡ some (get_frame header_start payload)) where
      -- Reading a command through connector and simulator gives the stored frame, and changes no
      -- stored frame.
      pub get_data-stored :
          get_data (simulated F) (wire header_start get_mark (body get_mark command)) (s, [])
          ≡ (ok (get_frame header_start payload), (after get_mark command s, []))
      get_data-stored =
          let s4 =
            with_frame (wire header_start get_mark (body get_mark command))
              (framed header_start get_mark (body get_mark command)) s in
          let matched : match_command s4 (framed header_start get_mark (body get_mark command))
              ≡ ok (some command_hex) =
            unfold match_command in taken in
          get_data-build_response header_start get_mark (body get_mark command)
            (omega arith, omega arith) (omega arith, omega arith) (omega arith) s s4 rests
            header_start get_mark (body get_mark payload) (omega arith, omega arith)
            (omega arith, omega arith) (omega arith) fits
            (build_response-get s4 command_hex header_start get_mark _ command matched
              (get_frame header_start payload) (omega arith) stored)

    module _ (s : Simulator F) (rests : s.phase ≡ idle) (payload : Bytes)
        (fits : Fits set_mark command) (some_payload : 0 < length payload)
        (taken : Takes s set_mark payload command_hex) where
      pub set_data-stored :
          set_data (simulated F) (wire header_start set_mark (body set_mark payload)) (s, []) ≡ (
            ok (framed header_start set_mark (body set_mark command)),
            (updated_by command_hex payload s, []),
          )
      set_data-stored =
          let s4 =
            with_frame (wire header_start set_mark (body set_mark payload))
              (framed header_start set_mark (body set_mark payload)) s in
          let matched : match_command s4 (framed header_start set_mark (body set_mark payload))
              ≡ ok (some command_hex) =
            unfold match_command in taken in
          set_data-build_response header_start set_mark (body set_mark payload)
            (omega arith, omega arith) (omega arith, omega arith) (omega arith) s
            (record s4 { frames = insert command_hex (get_frame header_start payload) s.frames })
            rests header_start set_mark (body set_mark command) (omega arith, omega arith)
            (omega arith, omega arith) (omega arith) fits
            (build_response-set s4 command_hex header_start set_mark _ payload matched command refl
              named)

pub stored-header_check : (payload : Bytes) → header_check (get_frame header_start payload) ≡ true
stored-header_check payload =
    (header_check_iff header_start get_mark _ payload).1 (refl, inl refl, refl)

module _ {F : Type 0} (ops : FloatOps F) (request : Request F) (command_hex : Text)
    (command : Bytes) (some_command : 0 < length command)
    (named : from_hex command_hex ≡ ok command) (s : Simulator F) (rests : s.phase ≡ idle)
    (payload : Bytes) (some_payload : 0 < length payload) (fits : Fits get_mark payload)
    (taken : Takes s get_mark command command_hex)
    (stored : lookup command_hex s.frames ≡ some (get_frame header_start payload)) where
  get_checked-stored :
      get_checked (simulated F) ops (wire header_start get_mark (body get_mark command)) (s, [])
      ≡ (ok (get_frame header_start payload), (after get_mark command s, []))
  unfolding get_checked
  get_checked-stored = rw (
    get_data-stored command_hex command some_command named s rests payload some_payload fits taken
        stored,
    stored-header_check payload,
  )

  -- A read through the whole stack, with a waiting simulator that knows the command and holds a frame
  -- for it which fits into the buffer, gives what `parse_records` makes of that frame, at the first
  -- try, if the request has one command.
  pub read_request-stored :
      (values : Dict (Value F))
      → request_bytes request ≡ ok command
      → request_bytes2 request ≡ ok none
      → parse_records ops (get_frame header_start payload) request.records none ≡ ok values
      → read_request (simulated F) ops request (s, []) ≡ (ok values, (after get_mark command s, []))
  read_request-stored values first second parsed =
      let attempt : read_attempt (simulated F) ops request (s, [])
          ≡ (ok values, (after get_mark command s, [])) =
        unfold read_attempt read_second in
        rw (
          first,
          create_request_message-wire command get_mark,
          get_checked-stored,
          second,
          parsed,
        ) in
      read_request-ok (simulated F) ops request 0 (s, []) (s, []) (after get_mark command s, [])
        values (no_more refl) (omega arith) attempt
