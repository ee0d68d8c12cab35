-- ===== src/Tests/Roundabout.antt =====
-- A PUT and a GET of a channel over the simulator, and the published schema.
use stiebel_eltron_heatpump.Prelude.{ℤ, pos, ◌≡◌, refl, [], true, arith, inl}
use stiebel_eltron_heatpump.Models.{int, writable, value_kind, is_switch}
use stiebel_eltron_heatpump.Protocol.Encode.{out_of_range}
use stiebel_eltron_heatpump.Service.{given_value, to_channel_value}
use stiebel_eltron_heatpump.Simulator.{Simulator}
use stiebel_eltron_heatpump.Simulator.Link.{simulated}
use stiebel_eltron_heatpump.Api.{answered, read_route, write_route}
use stiebel_eltron_heatpump.Api.WriteRead.{write_route-read_route}
use stiebel_eltron_heatpump.Tests.Floats.{fixed}
use stiebel_eltron_heatpump.Tests.Records.{start_time}
use stiebel_eltron_heatpump.Tests.Talks.{time_request}
use stiebel_eltron_heatpump.Tests.Gateway.{gateway, conversions, time_requested}
use stiebel_eltron_heatpump.Tests.Simulations.{
  key, command, payload, device, knows, first_command, no_second,
}
use stiebel_eltron_heatpump.Tests.Statuses.{time_found, time_coerced}

write_route-read_route_example :
    (middle last : Simulator ℤ) × (write_route
        (simulated ℤ)
        fixed
        gateway
        true
        conversions
        start_time.channel_id
        (given_value (int (pos 45)))
        (device, [])
      ≡ (answered (to_channel_value start_time (int (pos 45))), (middle, [])))
    × (read_route (simulated ℤ) fixed gateway true start_time.channel_id (middle, [])
        ≡ (answered (to_channel_value start_time (int (pos 45))), (last, [])))
unfolding writable value_kind is_switch out_of_range
write_route-read_route_example =
    write_route-read_route fixed gateway start_time time_found conversions
      (given_value (int (pos 45))) (pos 45) time_request [] [] key command payload 3 device refl
      time_coerced time_requested refl tt tt first_command no_second knows (omega arith)
      (omega arith) refl (inl (omega arith)) refl
