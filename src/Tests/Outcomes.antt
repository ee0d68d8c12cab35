-- ===== src/Tests/Outcomes.antt =====
-- What reads give over scripted devices.
use stiebel_eltron_heatpump.Prelude.{◌∙◌, sym, subst, true, ◌≡◌, refl, ℤ, [], ◌∷◌, none, some}
use stiebel_eltron_heatpump.Exec.{pure}
use stiebel_eltron_heatpump.Config.{
  request_for_channel, Request, request_bytes, request_bytes2, from_hex, hex_digit, is_space,
}
use stiebel_eltron_heatpump.Protocol.Connector.{receive_data}
use stiebel_eltron_heatpump.Protocol.Connector.Outcomes.{IsReceived, receive_data-IsReceived}
use stiebel_eltron_heatpump.Protocol.Frame.{escape}
use stiebel_eltron_heatpump.Protocol.Serial.{SerialPort, checking, serial}
use stiebel_eltron_heatpump.Communication.Outcomes.{HasCommands}
use stiebel_eltron_heatpump.Api.{read_route}
use stiebel_eltron_heatpump.Api.Answers.{IsReadAnswer, read_route-IsReadAnswer}
use stiebel_eltron_heatpump.Tests.Floats.{fixed}
use stiebel_eltron_heatpump.Tests.Links.{scripted}
use stiebel_eltron_heatpump.Tests.Records.{start_time}
use stiebel_eltron_heatpump.Tests.Talks.{time_request}
use stiebel_eltron_heatpump.Tests.Gateway.{gateway, time_requested}
use stiebel_eltron_heatpump.Tests.Simulations.{command}

-- Two bytes, and then silence.
receive_data-IsReceived_example :
    IsReceived (receive_data scripted (some 0x01 ∷ none ∷ some 0x00 ∷ [])).0
receive_data-IsReceived_example =
    receive_data-IsReceived scripted (some 0x01 ∷ none ∷ some 0x00 ∷ [])

pub time_commands : HasCommands time_request
unfolding request_bytes request_bytes2 from_hex hex_digit is_space
time_commands = record { command = command; second = none; first_is = refl; second_is = refl }

-- The only request of the gateway is the one of `time_request`.
gateway_commands :
    (request : Request ℤ)
    → request_for_channel gateway start_time.channel_id ≡ some request
    → HasCommands request
gateway_commands request is =
    let found : some time_request ≡ some request = sym time_requested ∙ is in
    let same : time_request ≡ request = cc in subst HasCommands same time_commands

-- A port whose device never sends a byte.
abbrev mute_port : SerialPort
mute_port = record {
  State = Unit {0};
  open_port = pure tt;
  close_port = pure tt;
  write_port = λ bytes. pure tt;
  read_port = λ p. (none, p);
}

-- The open serial port: a device that answers the start of the conversation, and then is silent.
read_route-IsReadAnswer_example :
    IsReadAnswer
      (serial mute_port (λ x. x))
      gateway
      start_time.channel_id
      (read_route
        (serial mute_port (λ x. x))
        fixed
        gateway
        true
        start_time.channel_id
        (record { is_open = true; running = true; reader = checking; queue = escape ∷ [] }, tt)).0
read_route-IsReadAnswer_example =
    read_route-IsReadAnswer (serial mute_port (λ x. x)) fixed gateway start_time.channel_id
      gateway_commands
      (record { is_open = true; running = true; reader = checking; queue = escape ∷ [] }, tt)
