-- ===== src/Api/Lifespan.antt =====
-- `lifespan` of `build_app` in stiebel_heatpump/api.py, over the connection of a service. What it
-- logs is not modelled.
pub mod Still
pub mod Closed
use stiebel_eltron_heatpump.Prelude.{List, [], ◌∷◌, Option, Bool, true, if◌then◌else◌}
use stiebel_eltron_heatpump.Errors.{Result}
use stiebel_eltron_heatpump.Models.{Text, FloatOps, Conversions, DataType}
use stiebel_eltron_heatpump.Config.{HeatPumpConfig}
use stiebel_eltron_heatpump.Protocol.Transport.{Transport}
use stiebel_eltron_heatpump.Communication.Clock.{Now}
use stiebel_eltron_heatpump.Service.{Requested}
use stiebel_eltron_heatpump.Service.Operations.{Connection, open_service, close_service}
use stiebel_eltron_heatpump.Api.{
  version_route, values_route, read_route, write_route, set_time_route,
}

-- A request to one of the routes that use the device.
pub data Call (F : Type 0) : Type 0 where
  get_version : Call F
  get_values : Option Text → Option DataType → Call F
  get_channel : Text → Call F
  put_channel : Text → Requested F → Call F
  post_time : Now → Call F

module _ (t : Transport) where
  -- Before the `yield`: an exception is logged, and the application stays up.
  unfoldable pub startup : Bool → Connection t → Connection t
  startup connect_on_startup c = if connect_on_startup then (open_service t c).1 else c

  -- After the `yield`.
  unfoldable pub shutdown : Connection t → Connection t
  shutdown c = (close_service t c).1

  module _ {F : Type 0} (ops : FloatOps F) (conv : Conversions F) (config : HeatPumpConfig F) where
    -- The state that a route leaves behind.
    unfoldable pub state_after : Call F → t.State → t.State
    state_after get_version s = (version_route t ops config true s).1
    state_after (get_values ids data_type) s = (values_route t ops config true ids data_type s).1
    state_after (get_channel channel_id) s = (read_route t ops config true channel_id s).1
    state_after (put_channel channel_id value) s =
        (write_route t ops config true conv channel_id value s).1
    state_after (post_time now) s = (set_time_route t ops config true now s).1

    -- The requests of the life span, one after another.
    unfoldable pub serve_calls : List (Call F) → Connection t → Connection t
    serve_calls [] c = c
    serve_calls (call ∷ calls) (connected, s) = serve_calls calls (connected, state_after call s)

    unfoldable pub lifespan : Bool → List (Call F) → Connection t → Connection t
    lifespan connect_on_startup calls c =
        shutdown (serve_calls calls (startup connect_on_startup c))
