-- ===== src/Service/Construction.antt =====
-- `from_settings` of stiebel_heatpump/service.py. The ports of pyserial are a parameter, each with
-- its state before it is opened, and so is what the thread does while a call waits for it.
use stiebel_eltron_heatpump.Prelude.{[], false, ℤ}
use stiebel_eltron_heatpump.Errors.{Result, ok, ◌>>=◌}
use stiebel_eltron_heatpump.Models.{Text, FloatOps, Conversions}
use stiebel_eltron_heatpump.Config.{HeatPumpConfig}
use stiebel_eltron_heatpump.Protocol.Transport.{Transport}
use stiebel_eltron_heatpump.Protocol.Serial.{SerialPort, Both, new_transport, serial}
use stiebel_eltron_heatpump.Simulator.Link.{simulated}
use stiebel_eltron_heatpump.Simulator.Seeding.Start.{new_simulator}
use stiebel_eltron_heatpump.Service.Operations.{Connection}
use stiebel_eltron_heatpump.Settings as Settings
use stiebel_eltron_heatpump.Settings.{AppSettings}

-- The object, over its transport.
pub record HeatPumpService (F : Type 0) : Type 1 where
  pub config : HeatPumpConfig F
  pub transport : Transport
  pub connection : Connection transport

-- `__init__`: the service is not connected.
abbrev pub new_service :
    {F : Type 0} → HeatPumpConfig F → (t : Transport) → t.State → HeatPumpService F
new_service config t s = record { config = config; transport = t; connection = (false, s) }

-- The serial ports by their path and rate.
pub record Ports : Type 1 where
  pub port : Text → ℤ → SerialPort
  pub unopened : (path : Text) (rate : ℤ) → (port path rate).State
  pub wait : (path : Text) (rate : ℤ) → Both (port path rate) → Both (port path rate)

module _ {F : Type 0} (ops : FloatOps F) (conv : Conversions F) (ports : Ports) where
  unfoldable pub from_settings : AppSettings → HeatPumpConfig F → Result (HeatPumpService F)
  from_settings settings config = elim settings.transport [
    | Settings.serial ↦ ok (
        new_service config
          (serial (ports.port settings.port settings.baud_rate)
            (ports.wait settings.port settings.baud_rate))
          (new_transport, ports.unopened settings.port settings.baud_rate))
    | Settings.simulator ↦ do
      s ← new_simulator ops conv config []
      ok (new_service config (simulated F) (s, []))
  ]
