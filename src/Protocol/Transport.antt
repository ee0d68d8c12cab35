-- ===== src/Protocol/Transport.antt =====
-- The `Transport` interface of stiebel_heatpump/protocol/transport.py over an explicit state.
-- A `get` that times out with NoDataAvailable gives `none`. Waiting is not modelled.
use stiebel_eltron_heatpump.Prelude.{ℕ, zero, suc, [], ◌∷◌, Option, none, some, ◌≡◌}
use stiebel_eltron_heatpump.Errors.{Exn, err}
use stiebel_eltron_heatpump.Exec.{Exec}
use stiebel_eltron_heatpump.Protocol.Frame.{Bytes}

pub record Transport : Type 1 where
  pub State : Type 0
  pub open_link : Exec State (Unit {0})
  pub close_link : Exec State (Unit {0})
  pub write : Bytes → Exec State (Unit {0})
  pub get : State → Option ℕ × State

-- From the given state the transport delivers these bytes, with this many timeouts before them and
-- among them, and is then in the state `last`.
pub data Delivers (t : Transport) (last : t.State) : t.State → ℕ → Bytes → Type 0 where
  done : {s : t.State} → s ≡ last → Delivers t last s zero []
  byte :
      {s s' : t.State} {b n : ℕ} {bs : Bytes}
      → t.get s ≡ (some b, s')
      → Delivers t last s' n bs
      → Delivers t last s n (b ∷ bs)
  pause :
      {s s' : t.State} {b n : ℕ} {bs : Bytes}
      → t.get s ≡ (none, s')
      → Delivers t last s' n (b ∷ bs)
      → Delivers t last s (suc n) (b ∷ bs)

pub Delivers-nil : (t : Transport) (last s : t.State) (n : ℕ) → Delivers t last s n [] → s ≡ last
Delivers-nil t last s n (done e) = e

-- A call of the transport itself raises the exception in some state.
pub data Raises (t : Transport) (e : Exn) : Type 0 where
  opening : (s : t.State) → (t.open_link s).0 ≡ err e → Raises t e
  closing : (s : t.State) → (t.close_link s).0 ≡ err e → Raises t e
  writing : (bytes : Bytes) (s : t.State) → (t.write bytes s).0 ≡ err e → Raises t e
