-- ===== src/Api/Lifespan/Still.antt =====
-- While the transport refuses every write, no request changes its state.
use stiebel_eltron_heatpump.Prelude.{
  ◌≡◌, refl, ◌∙◌, ap, List, [], ◌∷◌, Option, none, some, Bool, inl, inr, Bool-cases,
}
use stiebel_eltron_heatpump.Errors.{err, runtime_error}
use stiebel_eltron_heatpump.Exec.{lift}
use stiebel_eltron_heatpump.Dict.{lookup}
use stiebel_eltron_heatpump.Models.{Text, codes, FloatOps, Conversions, DataType, writable}
use stiebel_eltron_heatpump.Config.{
  Request, HeatPumpConfig, requests, request_for_channel, request_by_bytes,
}
use stiebel_eltron_heatpump.Protocol.Frame.{Bytes}
use stiebel_eltron_heatpump.Protocol.Transport.{Transport}
use stiebel_eltron_heatpump.Communication.{read_requests, write_data}
use stiebel_eltron_heatpump.Communication.Closed.{
  IsStill, next-IsStill, read_request-IsStill, read_each-IsStill, get_version-IsStill,
  write_values-IsStill, set_time-IsStill,
}
use stiebel_eltron_heatpump.Service.{
  Requested, coerce, require_channel, requests_for, all_known, types_or_default, requests_of_type,
  found,
}
use stiebel_eltron_heatpump.Service.Operations.{
  version_by_request, service_version, read_found, read_channel, read_channels, read_all,
  write_writable, write_channel, clock_records, clock_registers, service_set_time,
}
use stiebel_eltron_heatpump.Api.{
  version_route, values_route, read_route, write_route, set_time_route, stripped, split_ids,
}
use stiebel_eltron_heatpump.Api.Lifespan.{
  Call, get_version, get_values, get_channel, put_channel, post_time, state_after, serve_calls,
}

module _ (t : Transport) {F : Type 0} (ops : FloatOps F) (conv : Conversions F)
    (config : HeatPumpConfig F) (s : t.State)
    (closed : (bytes : Bytes) → t.write bytes s ≡ (err runtime_error, s)) where
  version-IsStill :
      (request : Option (Request F)) → IsStill s (version_by_request t ops config request)
  unfolding version_by_request
  version-IsStill none = refl
  version-IsStill (some request) = get_version-IsStill t ops s closed request

  read_found-IsStill : (request : Option (Request F)) → IsStill s (read_found t ops config request)
  unfolding read_found
  read_found-IsStill none = refl
  read_found-IsStill (some request) = read_request-IsStill t ops s closed request

  read_channel-IsStill : (channel_id : Text) → IsStill s (read_channel t ops config channel_id)
  unfolding read_channel
  read_channel-IsStill channel_id =
      next-IsStill s (lift (require_channel config channel_id)) _ refl (λ r.
        next-IsStill s (read_found t ops config (request_for_channel config channel_id)) _
          (read_found-IsStill (request_for_channel config channel_id))
          (λ values.
            next-IsStill s (lift (found (lookup channel_id values))) _ refl (λ value. refl)))

  read_channels-IsStill : (wanted : List Text) → IsStill s (read_channels t ops config wanted)
  unfolding read_channels read_requests
  read_channels-IsStill wanted = elim (Bool-cases (all_known config wanted)) [
    | inl known ↦ rw known (
        next-IsStill s (read_requests t ops (requests_for config wanted)) _
          (read_each-IsStill t ops s closed (requests_for config wanted) []) (λ values. refl))
    | inr unknown ↦ rw unknown refl
  ]

  read_all-IsStill : (types : List DataType) → IsStill s (read_all t ops config types)
  unfolding read_all read_requests
  read_all-IsStill types =
      let wanted = requests_of_type (types_or_default types) (requests config) in
      next-IsStill s (read_requests t ops wanted) _ (read_each-IsStill t ops s closed wanted [])
        (λ values. refl)

  write_channel-IsStill :
      (channel_id : Text) (value : Requested F)
      → IsStill s (write_channel t ops config conv channel_id value)
  unfolding write_channel write_writable write_data
  write_channel-IsStill channel_id value =
      next-IsStill s (lift (require_channel config channel_id)) _ refl (λ r.
        elim (Bool-cases (writable r)) [
          | inl can ↦ rw can (
              next-IsStill s (lift (coerce ops conv r value)) _ refl (λ coerced.
                next-IsStill s (write_data t ops coerced r) _
                  (write_values-IsStill t ops s closed ((coerced, r) ∷ [])) (λ values. refl)))
          | inr cannot ↦ rw cannot refl
        ])

  state_after-IsStill : (call : Call F) → state_after t ops conv config call s ≡ s
  unfolding state_after version_route service_version values_route read_route write_route
      set_time_route service_set_time
  state_after-IsStill get_version = version-IsStill (request_by_bytes config (codes "FD"))
  state_after-IsStill (get_values none none) = read_all-IsStill []
  state_after-IsStill (get_values none (some d)) = read_all-IsStill (d ∷ [])
  state_after-IsStill (get_values (some []) none) = read_all-IsStill []
  state_after-IsStill (get_values (some []) (some d)) = read_all-IsStill (d ∷ [])
  state_after-IsStill (get_values (some (c ∷ ids)) d) =
      read_channels-IsStill (stripped (split_ids [] (c ∷ ids)))
  state_after-IsStill (get_channel channel_id) = read_channel-IsStill channel_id
  state_after-IsStill (put_channel channel_id value) = write_channel-IsStill channel_id value
  state_after-IsStill (post_time now) =
      set_time-IsStill t ops s closed (request_by_bytes config (codes "FC"))
        (clock_records config clock_registers []) now

  pub serve_calls-IsStill :
      (calls : List (Call F)) (connected : Bool)
      → serve_calls t ops conv config calls (connected, s) ≡ (connected, s)
  unfolding serve_calls
  serve_calls-IsStill [] connected = refl
  serve_calls-IsStill (call ∷ calls) connected =
      ap (λ x. serve_calls t ops conv config calls (connected, x)) (state_after-IsStill call)
      ∙ serve_calls-IsStill calls connected
