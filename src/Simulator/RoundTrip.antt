-- ===== src/Simulator/RoundTrip.antt =====
-- A write through the whole stack, and the read after it.
use stiebel_eltron_heatpump.Prelude.{
  inr, ℕ, ◌+◌, ◌≤◌, ◌<◌, ◌≡◌, ◌≢◌, refl, ap, ◌∙◌, sym, [], ◌∷◌, ℤ, length, some, true, false, arith,
}
use stiebel_eltron_heatpump.Errors.{ok}
use stiebel_eltron_heatpump.Dict.{lookup-insert_self, lookup}
use stiebel_eltron_heatpump.Models.{Text, FloatOps, ChannelDefinition, int, integer, value_kind}
use stiebel_eltron_heatpump.Config.{from_hex}
use stiebel_eltron_heatpump.Protocol.Frame.{
  Bytes, header_start, get_mark, set_mark, header_check, verify_header, escape_bytes,
}
use stiebel_eltron_heatpump.Protocol.Frame.Escaping.{
  framed, add_duplicated_bytes-framed, length-framed, length-escape_bytes,
}
use stiebel_eltron_heatpump.Protocol.Frame.Header.{header_check_iff}
use stiebel_eltron_heatpump.Protocol.Decode.{parse_record}
use stiebel_eltron_heatpump.Protocol.Decode.Slot.{parse_record-framed}
use stiebel_eltron_heatpump.Protocol.Encode.{out_of_range}
use stiebel_eltron_heatpump.Protocol.Encode.Shape.{set_frame, put_number, compose_record-int}
use stiebel_eltron_heatpump.Protocol.Encode.RoundTrip.{FitsLength, length-put_number}
use stiebel_eltron_heatpump.Protocol.Connector.{get_data, set_data}
use stiebel_eltron_heatpump.Communication.{message_for, write_data}
use stiebel_eltron_heatpump.Communication.Confirmed.{Written, write_data-int}
use stiebel_eltron_heatpump.Simulator.{Simulator, idle}
use stiebel_eltron_heatpump.Simulator.Link.{simulated}
use stiebel_eltron_heatpump.Simulator.Link.Collect.{wire}
use stiebel_eltron_heatpump.Simulator.Answers.{get_frame}
use stiebel_eltron_heatpump.Simulator.Stack.{
  body, after, updated_by, Takes, Fits, create_request_message-wire, get_data-stored,
  set_data-stored, stored-header_check,
}

pub short-Fits : (mark : ℕ) (payload : Bytes) → length payload ≤ 500 → Fits mark payload
short-Fits mark payload h = omega (
  arith,
  length-framed header_start mark (escape_bytes (body mark payload)),
  length-escape_bytes (body mark payload),
)

verify_header-ok :
    (response : Bytes) → header_check response ≡ true → verify_header response ≡ ok tt
unfolding header_check
verify_header-ok response h = ground arith

module _ {F : Type 0} (ops : FloatOps F) (r : ChannelDefinition F) (command_hex : Text)
    (command payload : Bytes) (p : ℕ) (n : ℤ) (s : Simulator F) where
  -- The payload with the integer in the channel's slot.
  abbrev pub written : Bytes
  written = put_number payload p r.length n

  -- What has to hold for a write and a read of a channel: the simulator waits, knows the channel's
  -- command, holds a frame for it with this payload and takes the new frame for the same command.
  pub record Knows : Type 0 where
    pub waiting : s.phase ≡ idle
    pub some_command : 0 < length command
    pub command_short : length command ≤ 500
    pub some_payload : 0 < length payload
    pub payload_short : length payload ≤ 500
    pub named : from_hex command_hex ≡ ok command
    pub same_command : from_hex r.request_byte ≡ ok command
    pub takes_get : Takes s get_mark command command_hex
    pub takes_set : Takes s set_mark written command_hex
    pub stored : lookup command_hex s.frames ≡ some (get_frame header_start payload)
    pub not_echo :
        wire header_start get_mark (body get_mark command) ≢ get_frame header_start payload

  module _ (k : Knows) (slot : r.position ≡ p + 3) (fits : p + r.length ≤ length payload)
      (kind : value_kind ops r ≡ integer) (small : FitsLength r n)
      (inside : out_of_range ops (int n) r ≡ false) where
    same_length : length written ≡ length payload
    same_length = length-put_number ops r payload p fits n

    through_stack :
        Written
          (simulated F)
          ops
          r
          (int n)
          (s, [])
          (get_frame header_start payload)
          (set_frame header_start written)
          (framed header_start set_mark (body set_mark command))
          (updated_by command_hex written s, [])
    through_stack = record {
      message = wire header_start get_mark (body get_mark command);
      s1 = (after get_mark command s, []);
      command = ap message_for k.same_command ∙ create_request_message-wire command get_mark;
      read =
          get_data-stored command_hex command k.some_command k.named s k.waiting payload
            k.some_payload (short-Fits get_mark payload k.payload_short) k.takes_get k.stored;
      other = k.not_echo;
      composed = compose_record-int ops r header_start get_mark _ payload p slot fits n inside;
      sent =
          ap (λ (x : Bytes). set_data (simulated F) x (after get_mark command s, []))
            (add_duplicated_bytes-framed header_start set_mark (body set_mark written))
          ∙ set_data-stored command_hex command k.some_command k.named (after get_mark command s)
              refl written (short-Fits set_mark command k.command_short)
              (omega (arith, same_length, k.some_payload)) k.takes_set;
    }

    -- Of a channel whose slot lies inside the payload and whose values are integers, and an integer
    -- that is inside its limits and fits into its bytes: if the simulator waits with nothing queued;
    -- if the hexadecimal command, of the channel too, is 1 to 500 bytes; if the simulator holds for
    -- it a frame of the read mark with a payload of 1 to 500 bytes that is not the read message
    -- itself; and if it takes both the read of the command and the frame that is written, for the
    -- same command; then the write through the whole stack succeeds and reports the channel with
    -- that integer, and a read after it gets a frame that passes the header check and in which the
    -- channel has that integer.
    pub write-read :
        (frame : Bytes) × (last : Simulator F) × (write_data (simulated F) ops (int n) r (s, [])
          ≡ (ok ((r.channel_id, int n) ∷ []), (updated_by command_hex written s, [])))
        × (get_data
              (simulated F)
              (wire header_start get_mark (body get_mark command))
              (updated_by command_hex written s, [])
            ≡ (ok frame, (last, [])))
        × (parse_record ops frame r ≡ ok (int n))
        × (header_check frame ≡ true)
    write-read =
        let answered =
          verify_header-ok _
            ((header_check_iff header_start set_mark _ command).1 (refl, inr refl, refl)) in
        let (reported, decoded) =
          write_data-int (simulated F) ops r get_mark _ p payload (set_frame header_start written)
            (framed header_start set_mark (body set_mark command)) (s, [])
            (updated_by command_hex written s, []) fits n through_stack slot kind small inside
            answered in
        (
          get_frame header_start written,
          after get_mark command (updated_by command_hex written s),
          reported,
          get_data-stored command_hex command k.some_command k.named
              (updated_by command_hex written s) refl written
              (omega (arith, same_length, k.some_payload))
              (short-Fits get_mark written (omega (arith, same_length, k.payload_short)))
              k.takes_get
              (lookup-insert_self command_hex (get_frame header_start written) s.frames),
          parse_record-framed ops r header_start get_mark _ written p slot
                (omega (arith, same_length, fits))
              ∙ sym (
                  parse_record-framed ops r header_start set_mark _ written p slot
                    (omega (arith, same_length, fits)))
              ∙ decoded,
          stored-header_check written,
        )
