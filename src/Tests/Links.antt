-- ===== src/Tests/Links.antt =====
-- The handshake with scripted devices, as in test_communication.py.
use stiebel_eltron_heatpump.Prelude.{ℕ, [], ◌∷◌, ◌++◌, ◌≡◌, refl, List, Option, none, some, arith}
use stiebel_eltron_heatpump.Errors.{ok}
use stiebel_eltron_heatpump.Protocol.Frame.{Bytes, footer, escape_bytes}
use stiebel_eltron_heatpump.Protocol.Frame.Escaping.{framed}
use stiebel_eltron_heatpump.Protocol.Transport.{Transport, Delivers, done, byte, pause}
use stiebel_eltron_heatpump.Protocol.Connector.{receive_data}
use stiebel_eltron_heatpump.Protocol.Connector.Receive.{receive_data-frame}

-- A script gives a byte, or a timeout; after its end every read times out.
abbrev pub Script : Type 0
Script = List (Option ℕ)

abbrev next_event : Script → Option ℕ × Script
next_event [] = (none, [])
next_event (e ∷ es) = (e, es)

-- ScriptedTransport
abbrev pub scripted : Transport
scripted = record {
  State = Script;
  open_link = λ s. (ok tt, s);
  close_link = λ s. (ok tt, s);
  write = λ _ s. (ok tt, s);
  get = next_event;
}

abbrev pub scripted_bytes : Bytes → Script
scripted_bytes [] = []
scripted_bytes (b ∷ bs) = some b ∷ scripted_bytes bs

pub Delivers-scripted :
    (bs : Bytes) (rest : Script) → Delivers scripted rest (scripted_bytes bs ++ rest) 0 bs
Delivers-scripted [] rest = done refl
Delivers-scripted (b ∷ bs) rest = byte refl (Delivers-scripted bs rest)

-- test_receive_data_not_truncated_by_escaped_payload, with one timeout at the start
abbrev payload : Bytes
payload = 0x9E ∷ 0x0B ∷ 0x10 ∷ 0x03 ∷ 0x7F ∷ []

abbrev sent : Bytes
sent = 0x01 ∷ 0x00 ∷ 0x9E ∷ 0x0B ∷ 0x10 ∷ 0x10 ∷ 0x03 ∷ 0x7F ∷ footer

receive_data-frame_example :
    receive_data scripted (none ∷ (scripted_bytes sent ++ [])) ≡ (ok (framed 0x01 0x00 payload), [])
receive_data-frame_example =
    receive_data-frame scripted [] 0x01 0x00 payload (omega arith, omega arith)
      (omega arith, omega arith) (omega arith) (none ∷ (scripted_bytes sent ++ [])) 1
      (unfold escape_bytes in pause refl (Delivers-scripted sent [])) (omega arith)
      (unfold escape_bytes in omega arith)
