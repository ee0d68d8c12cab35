-- ===== src/Protocol/Serial.antt =====
-- `SerialTransport` of stiebel_heatpump/protocol/transport.py: its methods, and the thread that
-- reads into its queue. The port is pyserial's, and a parameter; waiting is not modelled.
pub mod Order
use stiebel_eltron_heatpump.Prelude.{
  ℕ, ◌≡◌, [], ◌∷◌, ◌++◌, Option, none, some, Bool, true, false, if◌then◌else◌,
}
use stiebel_eltron_heatpump.Errors.{Result, ok, err, runtime_error}
use stiebel_eltron_heatpump.Exec.{Exec}
use stiebel_eltron_heatpump.Protocol.Frame.{Bytes}
use stiebel_eltron_heatpump.Protocol.Transport.{Transport}

-- `serial.Serial`. `open_port` can raise, `write_port` is `write` and `flush`, and `read_port` is
-- `read(1)`: no byte if it times out or raises, which the thread treats alike.
pub record SerialPort : Type 1 where
  pub State : Type 0
  pub open_port : Exec State (Unit {0})
  pub close_port : Exec State (Unit {0})
  pub write_port : Bytes → Exec State (Unit {0})
  pub read_port : State → Option ℕ × State

-- Where the thread is in `_read_loop`: it has not been started or has ended, is before the test of
-- the loop, is at the read, or has read a byte that it has not put into the queue.
pub data Reader : Type 0 where
  absent checking reading : Reader
  holding : ℕ → Reader

-- The object: whether `_serial` is set, `_running`, the thread and the queue.
pub record SerialTransport : Type 0 where
  pub is_open : Bool
  pub running : Bool
  pub reader : Reader
  pub queue : Bytes

-- `__init__`
abbrev pub new_transport : SerialTransport
new_transport = record { is_open = false; running = false; reader = absent; queue = [] }

module _ (port : SerialPort) where
  abbrev pub Both : Type 0
  Both = SerialTransport × port.State

  abbrev pub opened : Result (Unit {0}) × port.State → SerialTransport → Result (Unit {0}) × Both
  opened (ok _, p) s = (ok tt, (record s { is_open = true; running = true; reader = checking }, p))
  opened (err e, p) s = (err e, (s, p))

  -- `open`: the state changes only if the port could be opened.
  unfoldable pub open_serial : Exec Both (Unit {0})
  open_serial (s, p) = opened (port.open_port p) s

  -- `close`, up to the `join`.
  unfoldable pub stop_reader : Exec Both (Unit {0})
  stop_reader (s, p) = (ok tt, (record s { running = false }, p))

  -- `close`, after the `join`: the port is forgotten even if closing it raises.
  unfoldable pub close_serial : Exec Both (Unit {0})
  close_serial (s, p) =
      let (r, p') = port.close_port p in
      if s.is_open then (r, (record s { is_open = false }, p')) else (ok tt, (s, p))

  unfoldable pub write_serial : Bytes → Exec Both (Unit {0})
  write_serial bytes (s, p) =
      let (r, p') = port.write_port bytes p in
      if s.is_open then (r, (s, p')) else (err runtime_error, (s, p))

  -- `get`: an empty queue is a timeout.
  unfoldable pub get_serial : Both → Option ℕ × Both
  get_serial (s, p) = elim s.queue [
    | [] ↦ (none, (s, p))
    | b ∷ queue ↦ (some b, (record s { queue = queue }, p))
  ]

  abbrev read_in : Option ℕ × port.State → SerialTransport → Both
  read_in (none, p) s = (record s { reader = checking }, p)
  read_in (some b, p) s = (record s { reader = holding b }, p)

  abbrev step_in : Reader → Both → Both
  step_in absent (s, p) = (s, p)
  step_in checking (s, p) = (record s { reader = if s.running then reading else absent }, p)
  step_in reading (s, p) = elim s.is_open [
    | true ↦ read_in (port.read_port p) s
    | false ↦ (record s { reader = checking }, p)
  ]
  step_in (holding b) (s, p) = (record s { reader = checking; queue = s.queue ++ (b ∷ []) }, p)

  -- The next step of the thread; without a port the read raises, which the loop ignores.
  unfoldable pub reader_step : Both → Both
  reader_step (s, p) = step_in s.reader (s, p)

-- `SerialTransport` as a transport. `wait` is what the thread does while a call waits for it.
abbrev pub serial : (port : SerialPort) → (Both port → Both port) → Transport
serial port wait = record {
  State = Both port;
  open_link = open_serial port;
  close_link = λ x. close_serial port (wait (stop_reader port x).1);
  write = write_serial port;
  get = λ x. get_serial port (wait x);
}
