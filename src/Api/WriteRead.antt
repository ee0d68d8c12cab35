-- ===== src/Api/WriteRead.antt =====
-- A write and the read after it, from the routes to the simulator and back.
use stiebel_eltron_heatpump.Prelude.{
  list_eq_iff, ℕ, ℤ, ◌+◌, ◌≤◌, ◌≡◌, refl, ap, ◌∙◌, List, [], ◌∷◌, ◌++◌, length, none, some, true,
  false, arith,
}
use stiebel_eltron_heatpump.Errors.{ok}
use stiebel_eltron_heatpump.Dict.{lookup, lookup-insert_self}
use stiebel_eltron_heatpump.Models.{
  Value, Text, FloatOps, Conversions, ChannelDefinition, int, integer, value_kind, writable,
}
use stiebel_eltron_heatpump.Config.{
  HeatPumpConfig, Request, channel, request_for_channel, request_bytes, request_bytes2,
}
use stiebel_eltron_heatpump.Protocol.Frame.{Bytes, header_start, get_mark}
use stiebel_eltron_heatpump.Protocol.Decode.{parse_records}
use stiebel_eltron_heatpump.Protocol.Decode.Records.{NoneHas, parse_records-found}
use stiebel_eltron_heatpump.Protocol.Encode.{out_of_range}
use stiebel_eltron_heatpump.Protocol.Encode.RoundTrip.{FitsLength, length-put_number}
use stiebel_eltron_heatpump.Communication.{write_data, read_request}
use stiebel_eltron_heatpump.Service.{Requested, coerce, found, value_or, to_channel_value}
use stiebel_eltron_heatpump.Service.Operations.{
  read_found, read_channel, write_writable, write_channel,
}
use stiebel_eltron_heatpump.Simulator.{Simulator}
use stiebel_eltron_heatpump.Simulator.Link.{simulated}
use stiebel_eltron_heatpump.Simulator.Answers.{get_frame}
use stiebel_eltron_heatpump.Simulator.Stack.{updated_by, read_request-stored}
use stiebel_eltron_heatpump.Simulator.RoundTrip.{Knows, written, short-Fits, write-read}
use stiebel_eltron_heatpump.Simulator.Seeding.TwoCommands.{parse_record-get_frame}
use stiebel_eltron_heatpump.Api.{answered, read_route, write_route}
use stiebel_eltron_heatpump.Api.Refusals.{require_channel-some}

module _ {F : Type 0} (ops : FloatOps F) (config : HeatPumpConfig F) (r : ChannelDefinition F)
    (configured : channel config r.channel_id ≡ some r) where
  write_route-written :
      (conv : Conversions F) (value : Requested F) (n : ℤ) (s s' : Simulator F × Bytes)
      → writable r ≡ true
      → coerce ops conv r value ≡ ok (int n)
      → write_data (simulated F) ops (int n) r s ≡ (ok ((r.channel_id, int n) ∷ []), s')
      → write_route (simulated F) ops config true conv r.channel_id value s
        ≡ (answered (to_channel_value r (int n)), s')
  unfolding write_route write_channel write_writable value_or lookup
  write_route-written conv value n s s' may coerced sent = rw (
    require_channel-some (simulated F) ops config r.channel_id r configured,
    may,
    coerced,
    sent,
    (list_eq_iff r.channel_id r.channel_id).1 refl,
  )

  read_route-read :
      (request : Request F) (values : List (Text × Value F)) (n : ℤ) (s s' : Simulator F × Bytes)
      → request_for_channel config r.channel_id ≡ some request
      → read_request (simulated F) ops request s ≡ (ok values, s')
      → lookup r.channel_id values ≡ some (int n)
      → read_route (simulated F) ops config true r.channel_id s
        ≡ (answered (to_channel_value r (int n)), s')
  unfolding read_route read_channel read_found found
  read_route-read request values n s s' requested got is =
      rw (
        require_channel-some (simulated F) ops config r.channel_id r configured,
        requested,
        got,
        is,
      )

  module _ (conv : Conversions F) (value : Requested F) (n : ℤ) (request : Request F)
      (before after : List (ChannelDefinition F)) (key : Text) (command payload : Bytes) (p : ℕ)
      (s : Simulator F) where
    -- If a simulator behind the routes waits and knows the channel's command, then a write of an
    -- integer to a setting, one that the channel allows and its bytes hold, is answered with that
    -- integer, and a read of the channel after it is answered with the same, whatever else the
    -- command's request holds, if the channel is the only one of its id there and the request has
    -- one command.
    pub write_route-read_route :
        writable r ≡ true
        → coerce ops conv r value ≡ ok (int n)
        → request_for_channel config r.channel_id ≡ some request
        → request.records ≡ before ++ (r ∷ after)
        → NoneHas r.channel_id before
        → NoneHas r.channel_id after
        → request_bytes request ≡ ok command
        → request_bytes2 request ≡ ok none
        → Knows ops r key command payload p n s
        → r.position ≡ p + 3
        → p + r.length ≤ length payload
        → value_kind ops r ≡ integer
        → FitsLength r n
        → out_of_range ops (int n) r ≡ false
        → (middle last : Simulator F) × (write_route
              (simulated F)
              ops
              config
              true
              conv
              r.channel_id
              value
              (s, [])
            ≡ (answered (to_channel_value r (int n)), (middle, [])))
          × (read_route (simulated F) ops config true r.channel_id (middle, [])
              ≡ (answered (to_channel_value r (int n)), (last, [])))
    write_route-read_route may coerced requested records others others' first second k slot fits
          kind small inside =
        let (_, _, sent, _, _, _) =
          write-read ops r key command payload p n s k slot fits kind small inside in
        let kept = written ops r key command payload p n s in
        let middle = updated_by key kept s in
        let same : length kept ≡ length payload = length-put_number ops r payload p fits n in
        let (values, parsed, is) =
          parse_records-found ops (get_frame header_start kept) before after r (int n)
            (ground arith) (parse_record-get_frame ops r p slot payload n fits kind small) others
            others' in
        let got =
          read_request-stored ops request key command k.some_command k.named middle refl kept
            (omega (arith, same, k.some_payload))
            (short-Fits get_mark kept (omega (arith, same, k.payload_short))) k.takes_get
            (lookup-insert_self key (get_frame header_start kept) s.frames) values first second
            (ap
                (λ (x : List (ChannelDefinition F)).
                  parse_records ops (get_frame header_start kept) x none)
                records
              ∙ parsed) in
        (
          middle,
          _,
          write_route-written conv value n (s, []) (middle, []) may coerced sent,
          read_route-read request values n (middle, []) _ requested got is,
        )
