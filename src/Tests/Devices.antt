-- ===== src/Tests/Devices.antt =====
-- What the simulator keeps, finds and starts with.
use stiebel_eltron_heatpump.Prelude.{List, [], sym, ◌∙◌, ◌≡◌, ap, ◌∷◌, Option, arith, inl, inr}
use stiebel_eltron_heatpump.Errors.{ok}
use stiebel_eltron_heatpump.Models.{Text}
use stiebel_eltron_heatpump.Config.{from_hex}
use stiebel_eltron_heatpump.Protocol.Frame.{Bytes, footer}
use stiebel_eltron_heatpump.Protocol.Frame.Escaping.{framed}
use stiebel_eltron_heatpump.Simulator.{match_command}
use stiebel_eltron_heatpump.Simulator.Feed.{feed}
use stiebel_eltron_heatpump.Simulator.Matching.Round.{IsKey}
use stiebel_eltron_heatpump.Simulator.Matching.{Finds, match_command-Finds}
use stiebel_eltron_heatpump.Simulator.Invariant.{AllChecked}
use stiebel_eltron_heatpump.Simulator.Invariant.Always.{
  Asked, after_answers, new_simulator-AllChecked,
}
use stiebel_eltron_heatpump.Simulator.Known.{HasFrames}
use stiebel_eltron_heatpump.Simulator.Known.Feeding.{feed-new_simulator}
use stiebel_eltron_heatpump.Tests.Gateway.{gateway, conversions}
use stiebel_eltron_heatpump.Tests.Floats.{fixed}
use stiebel_eltron_heatpump.Tests.Simulations.{start_device, command, payload, device, key_command}

only_key : (k : Text) → IsKey k device.commands → (c : Bytes) × (from_hex k ≡ ok c)
only_key k (inl e) = (command, ap from_hex (sym e) ∙ key_command)
only_key k (inr x) = elim x [ ]

match_command-Finds_example :
    (found : Option Text) × (match_command device (framed 0x01 0x80 (0x33 ∷ payload)) ≡ ok found)
    × Finds (framed 0x01 0x80 (0x33 ∷ payload)) device.commands found
match_command-Finds_example =
    match_command-Finds device (framed 0x01 0x80 (0x33 ∷ payload)) only_key

-- The time is written by a frame, and asked for by another.
abbrev set_and_get : List Asked
set_and_get =
    (0x80, 0x33, 0x0A, 0x17, 0x11 ∷ 0x2D ∷ footer) ∷ (0x00, 0x33, 0x0A, 0x17, 0x11 ∷ footer) ∷ []

new_simulator-AllChecked_example : AllChecked (after_answers set_and_get device).frames
new_simulator-AllChecked_example =
    new_simulator-AllChecked fixed conversions gateway [] device set_and_get (omega arith, tt)
      start_device

feed-new_simulator_example : HasFrames (feed (0x02 ∷ 0x10 ∷ 0x03 ∷ 0x02 ∷ []) device).1
feed-new_simulator_example =
    feed-new_simulator fixed conversions gateway [] device (0x02 ∷ 0x10 ∷ 0x03 ∷ 0x02 ∷ [])
      start_device
