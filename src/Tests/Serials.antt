-- ===== src/Tests/Serials.antt =====
-- A serial port that has two bytes to be read.
use stiebel_eltron_heatpump.Prelude.{◌≡◌, refl, [], ◌∷◌, ◌++◌, Option, none, some, true, ℕ}
use stiebel_eltron_heatpump.Exec.{pure}
use stiebel_eltron_heatpump.Protocol.Frame.{Bytes}
use stiebel_eltron_heatpump.Protocol.Serial.{
  SerialPort, checking, new_transport, Both, open_serial, stop_reader, close_serial, get_serial,
  reader_step,
}
use stiebel_eltron_heatpump.Protocol.Serial.Order.{
  Runs, finished, thread, calls, gets, opens, stops, closes, undelivered, Runs-undelivered,
}

abbrev read_next : Bytes → Option ℕ × Bytes
read_next [] = (none, [])
read_next (b ∷ bytes) = (some b, bytes)

abbrev buffered : SerialPort
buffered = record {
  State = Bytes;
  open_port = pure tt;
  close_port = pure tt;
  write_port = λ bytes. pure tt;
  read_port = read_next;
}

-- Reconnected, with the second byte in the queue.
abbrev reconnected : Both buffered
reconnected = (record { is_open = true; running = true; reader = checking; queue = 0x02 ∷ [] }, [])

-- The port is opened, the first byte is read and returned, the second is read, and the port is closed
-- and opened again.
reconnecting :
    Runs buffered reconnected (0x10 ∷ 0x02 ∷ []) (0x10 ∷ []) (new_transport, 0x10 ∷ 0x02 ∷ [])
unfolding open_serial stop_reader close_serial get_serial reader_step
reconnecting =
    let run4 = calls (opens refl refl) (finished refl) in
    let run3 = calls (stops refl) (thread (thread (calls (closes refl refl) run4) refl) refl) in
    let run2 = thread (thread run3 refl) refl in
    let run1 = thread (thread (thread (gets refl run2) refl) refl) refl in
    calls (opens refl refl) run1

Runs-undelivered_example :
    undelivered new_transport ++ (0x10 ∷ 0x02 ∷ []) ≡ (0x10 ∷ []) ++ undelivered reconnected.0
Runs-undelivered_example =
    Runs-undelivered buffered reconnected (new_transport, 0x10 ∷ 0x02 ∷ []) (0x10 ∷ 0x02 ∷ [])
      (0x10 ∷ []) reconnecting
