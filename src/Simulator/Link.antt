-- ===== src/Simulator/Link.antt =====
-- `SimulatorTransport` of stiebel_heatpump/protocol/transport.py, and the conversation of the
-- connector with the simulator.
pub mod Collect
pub mod Talk
use stiebel_eltron_heatpump.Prelude.{ℕ, [], ◌∷◌, ◌++◌, Option, none, some}
use stiebel_eltron_heatpump.Errors.{Result, ok, err}
use stiebel_eltron_heatpump.Exec.{Exec}
use stiebel_eltron_heatpump.Protocol.Frame.{Bytes}
use stiebel_eltron_heatpump.Protocol.Transport.{Transport}
use stiebel_eltron_heatpump.Simulator.{Simulator}
use stiebel_eltron_heatpump.Simulator.Feed.{feed}

module _ {F : Type 0} where
  -- `write`: the queue takes the answer's bytes; if `feed` raises it takes none.
  abbrev pub enqueue :
      Bytes → Result Bytes × Simulator F → Result (Unit {0}) × (Simulator F × Bytes)
  enqueue queue (ok out, s) = (ok tt, (s, queue ++ out))
  enqueue queue (err e, s) = (err e, (s, queue))

  unfoldable pub write_simulator : Bytes → Exec (Simulator F × Bytes) (Unit {0})
  write_simulator bytes (s, queue) = enqueue queue (feed bytes s)

  -- `get`: an empty queue is a timeout.
  unfoldable pub get_simulator : Simulator F × Bytes → Option ℕ × (Simulator F × Bytes)
  get_simulator (s, []) = (none, (s, []))
  get_simulator (s, b ∷ queue) = (some b, (s, queue))

-- The simulator, and the queue of the bytes that it has sent.
abbrev pub simulated : Type 0 → Transport
simulated F = record {
  State = Simulator F × Bytes;
  open_link = λ s. (ok tt, s);
  close_link = λ s. (ok tt, s);
  write = write_simulator;
  get = get_simulator;
}
