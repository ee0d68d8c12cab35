-- ===== src/Api/Lifespan/Closed.antt =====
-- The serial port over the life span of the application.
use stiebel_eltron_heatpump.Prelude.{
  ◌≡◌, refl, sym, subst, List, [], ◌∷◌, some, Bool, true, false, inl, inr, Bool-cases,
}
use stiebel_eltron_heatpump.Errors.{Result, ok, err, Exn, runtime_error}
use stiebel_eltron_heatpump.Models.{Text, FloatOps, Conversions, ChannelDefinition}
use stiebel_eltron_heatpump.Config.{Request, HeatPumpConfig, channel, request_for_channel}
use stiebel_eltron_heatpump.Protocol.Frame.{Bytes}
use stiebel_eltron_heatpump.Protocol.Connector.{connect, disconnect}
use stiebel_eltron_heatpump.Protocol.Serial.{
  opened, stop_reader, SerialPort, SerialTransport, Both, new_transport, serial, open_serial,
  close_serial, write_serial,
}
use stiebel_eltron_heatpump.Communication.Outcomes.{HasCommands}
use stiebel_eltron_heatpump.Service.Operations.{
  connected_after, Connection, open_service, close_service,
}
use stiebel_eltron_heatpump.Api.{unhandled, read_route}
use stiebel_eltron_heatpump.Api.Unhandled.{read_route-unconnected}
use stiebel_eltron_heatpump.Api.Lifespan.{
  Call, startup, shutdown, state_after, serve_calls, lifespan,
}
use stiebel_eltron_heatpump.Api.Lifespan.Still.{serve_calls-IsStill}

-- A port that is not open refuses every write.
write_serial-closed :
    (port : SerialPort) (x : Both port)
    → x.0.is_open ≡ false
    → (bytes : Bytes) → write_serial port bytes x ≡ (err runtime_error, x)
unfolding write_serial
write_serial-closed port x h bytes = rw h refl

close_serial-closed :
    (port : SerialPort) (x : Both port) → (close_serial port x).1.0.is_open ≡ false
unfolding close_serial
close_serial-closed port (s, p) = elim (Bool-cases s.is_open) [
  | inl is ↦ rw is refl
  | inr shut ↦ rw shut refl
]

module _ (port : SerialPort) (wait : Both port → Both port) {F : Type 0} (ops : FloatOps F)
    (conv : Conversions F) (config : HeatPumpConfig F) where
  -- What closes the port: the service is connected, or the port is closed already.
  abbrev IsSafe : Connection (serial port wait) → Type 0
  IsSafe c = c.0 ≡ false → c.1.0.is_open ≡ false

  serve_calls-IsSafe :
      (calls : List (Call F)) (c : Connection (serial port wait))
      → IsSafe c
      → IsSafe (serve_calls (serial port wait) ops conv config calls c)
  unfolding serve_calls
  serve_calls-IsSafe [] c h = h
  serve_calls-IsSafe (call ∷ calls) (true, x) h =
      serve_calls-IsSafe calls (true, state_after (serial port wait) ops conv config call x)
        (λ e. cc)
  serve_calls-IsSafe (call ∷ calls) (false, x) h =
      subst IsSafe
        (sym (
          serve_calls-IsStill (serial port wait) ops conv config x
            (write_serial-closed port x (h refl)) (call ∷ calls) false))
        h

  opened-IsSafe :
      (s : SerialTransport) (q : Result (Unit {0}) × port.State)
      → s.is_open ≡ false
      → IsSafe (connected_after {S = Both port} false true (opened port q s)).1
  opened-IsSafe s (ok _, p) h = λ e. cc
  opened-IsSafe s (err x, p) h = λ e. h

  startup-IsSafe :
      (connect_on_startup : Bool) (c : Connection (serial port wait))
      → IsSafe c
      → IsSafe (startup (serial port wait) connect_on_startup c)
  unfolding startup open_service connect open_serial
  startup-IsSafe false c h = h
  startup-IsSafe true (true, x) h = h
  startup-IsSafe true (false, (s, p)) h = opened-IsSafe s (port.open_port p) (h refl)

  disconnected-closed :
      (q : Result (Unit {0}) × Both port)
      → q.1.0.is_open ≡ false
      → (connected_after {S = Both port} true false q).1.1.0.is_open ≡ false
  disconnected-closed (ok _, x) h = h
  disconnected-closed (err e, x) h = h

  shutdown-closed :
      (c : Connection (serial port wait))
      → IsSafe c
      → (shutdown (serial port wait) c).1.0.is_open ≡ false
  unfolding shutdown close_service disconnect
  shutdown-closed (false, x) h = h refl
  shutdown-closed (true, x) h =
      disconnected-closed ((serial port wait).close_link x)
        (close_serial-closed port (wait (stop_reader port x).1))

  -- Whatever requests are served, whether or not the port could be opened at the start and whatever
  -- the calls and the thread do meanwhile: the port is closed when the life span of the application
  -- has ended, if it was closed before.
  pub lifespan-closed :
      (connect_on_startup : Bool) (calls : List (Call F)) (c : Connection (serial port wait))
      → c.1.0.is_open ≡ false
      → (lifespan (serial port wait) ops conv config connect_on_startup calls c).1.0.is_open ≡ false
  unfolding lifespan
  lifespan-closed connect_on_startup calls c h =
      let started = startup (serial port wait) connect_on_startup c in
      shutdown-closed (serve_calls (serial port wait) ops conv config calls started)
        (serve_calls-IsSafe calls started (startup-IsSafe connect_on_startup c (λ e. h)))

  -- If the port could not be opened at the start, no request ever opens it: it stays closed and the
  -- service unconnected, whatever requests are served, and a read of a configured channel ends with
  -- an exception that no handler takes, so that a device that comes up later is not reached.
  pub startup-unconnected :
      (calls : List (Call F)) (e : Exn) (before after : port.State) (channel_id : Text)
      (r : ChannelDefinition F) (request : Request F)
      → port.open_port before ≡ (err e, after)
      → channel config channel_id ≡ some r
      → request_for_channel config channel_id ≡ some request
      → HasCommands request
      → (serve_calls
            (serial port wait)
            ops
            conv
            config
            calls
            (startup (serial port wait) true (false, (new_transport, before)))
          ≡ (false, (new_transport, after)))
        × (read_route (serial port wait) ops config true channel_id (new_transport, after)
            ≡ (unhandled runtime_error, (new_transport, after)))
  unfolding startup open_service connect open_serial
  startup-unconnected calls e before after channel_id r request refused configured requested
        commands =
      (
        rw refused (
            serve_calls-IsStill (serial port wait) ops conv config (new_transport, after)
              (write_serial-closed port (new_transport, after) refl) calls false),
        read_route-unconnected port wait ops config channel_id r request (new_transport, after)
            configured requested commands refl,
      )
