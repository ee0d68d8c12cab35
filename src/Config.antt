-- ===== src/Config.antt =====
-- stiebel_heatpump/config_loader.py: channels grouped into requests, and the lookups. Config/Load.antt
-- has the readers of files.
pub mod Grouping
pub mod Lookup
pub mod Load
use stiebel_eltron_heatpump.Prelude.{
  ◌++◌, ℕ, ◌+◌, ◌-◌, ◌*◌, List, [], ◌∷◌, Option, none, some, Bool, true, false, ◌&&◌, ◌||◌, leb,
  ◌==◌, list_eq, map, if◌then◌else◌,
}
use stiebel_eltron_heatpump.Errors.{Result, ok, err, ◌>>=◌, value_error}
use stiebel_eltron_heatpump.Dict.{Dict, lookup, insert}
use stiebel_eltron_heatpump.Models.{Text, ChannelDefinition}
use stiebel_eltron_heatpump.Protocol.Frame.{Bytes}

-- `str.upper` on letters of ASCII; commands are texts of hexadecimal digits.
unfoldable pub upper : Text → Text
upper text = map (λ c. if leb b'a' c && leb c b'z' then c - 32 else c) text

-- The whitespace that `bytes.fromhex` skips between bytes.
unfoldable pub is_space : ℕ → Bool
is_space c = c == 32 || (leb 9 c && leb c 13)

unfoldable pub hex_digit : ℕ → Result ℕ
hex_digit c =
    if leb b'0' c && leb c b'9'
    then ok (c - 48)
    else if leb b'A' c && leb c b'F'
    then ok (c - 55)
    else if leb b'a' c && leb c b'f'
    then ok (c - 87)
    else err value_error

-- `bytes.fromhex`
unfoldable pub from_hex : Text → Result Bytes
from_hex [] = ok []
from_hex (c ∷ []) = if is_space c then ok [] else err value_error
from_hex (c ∷ d ∷ rest) = elim (is_space c) [
  | true ↦ from_hex (d ∷ rest)
  | false ↦ do
    high ← hex_digit c
    low ← hex_digit d
    bytes ← from_hex rest
    ok ((high * 16 + low) ∷ bytes)
]

-- `request_byte2 if request_byte2 else None`: the empty text counts as none.
abbrev pub given : Option Text → Option Text
given none = none
given (some []) = none
given (some (c ∷ text)) = some (c ∷ text)

pub record Request (F : Type 0) : Type 0 where
  pub request_byte : Text
  pub request_byte2 : Option Text
  pub records : List (ChannelDefinition F)

abbrev optional_bytes : Option Text → Result (Option Bytes)
optional_bytes none = ok none
optional_bytes (some text) = do bytes ← from_hex text; ok (some bytes)

abbrev upper_option : Option Text → Option Text
upper_option none = none
upper_option (some text) = some (upper text)

abbrev pub text_option_eq : Option Text → Option Text → Bool
text_option_eq none none = true
text_option_eq (some a) (some b) = list_eq a b
text_option_eq _ _ = false

module _ {F : Type 0} where
  unfoldable pub request_bytes : Request F → Result Bytes
  request_bytes request = from_hex request.request_byte

  unfoldable pub request_bytes2 : Request F → Result (Option Bytes)
  request_bytes2 request = optional_bytes (given request.request_byte2)

  unfoldable pub request_key : ChannelDefinition F → Text × Option Text
  request_key r = (upper r.request_byte, upper_option (given r.request_byte2))

  -- A request of `index` keeps its key in its first two fields.
  unfoldable pub has_key : Text × Option Text → Request F → Bool
  has_key key request =
      list_eq request.request_byte key.0 && text_option_eq request.request_byte2 key.1

  -- The loop body of `_group_requests`: the request under the channel's key takes the channel, and
  -- a new one goes to the end. `index` and the list share their requests.
  unfoldable pub add_channel : ChannelDefinition F → List (Request F) → List (Request F)
  add_channel channel [] =
      let key = request_key channel in
      record { request_byte = key.0; request_byte2 = key.1; records = channel ∷ [] } ∷ []
  add_channel channel (request ∷ requests) =
      let rest = add_channel channel requests in
      if has_key (request_key channel) request
      then record request { records = request.records ++ (channel ∷ []) } ∷ requests
      else request ∷ rest

  unfoldable pub group_loop : List (ChannelDefinition F) → List (Request F) → List (Request F)
  group_loop [] requests = requests
  group_loop (channel ∷ channels) requests = group_loop channels (add_channel channel requests)

  unfoldable pub group_requests : List (ChannelDefinition F) → List (Request F)
  group_requests channels = group_loop channels []

  -- `{c.channel_id: c for c in channels}`
  unfoldable pub by_id :
      List (ChannelDefinition F) → Dict (ChannelDefinition F) → Dict (ChannelDefinition F)
  by_id [] dict = dict
  by_id (c ∷ channels) dict = by_id channels (insert c.channel_id c dict)

  -- `any(r.channel_id == channel_id for r in request.records)`
  unfoldable pub has_channel : Text → List (ChannelDefinition F) → Bool
  has_channel channel_id [] = false
  has_channel channel_id (r ∷ records) =
      list_eq r.channel_id channel_id || has_channel channel_id records

  unfoldable pub find_request : Text → List (Request F) → Option (Request F)
  find_request channel_id [] = none
  find_request channel_id (request ∷ requests) =
      let rest = find_request channel_id requests in
      if has_channel channel_id request.records then some request else rest

  unfoldable pub find_by_bytes : Text → List (Request F) → Option (Request F)
  find_by_bytes target [] = none
  find_by_bytes target (request ∷ requests) =
      let rest = find_by_bytes target requests in
      if list_eq request.request_byte target then some request else rest

-- `HeatPumpConfig`: what `__init__` computes from the channels is computed where it is used.
pub record HeatPumpConfig (F : Type 0) : Type 0 where
  pub name : Text
  pub channels : List (ChannelDefinition F)

module _ {F : Type 0} where
  unfoldable pub requests : HeatPumpConfig F → List (Request F)
  requests config = group_requests config.channels

  unfoldable pub channel : HeatPumpConfig F → Text → Option (ChannelDefinition F)
  channel config channel_id = lookup channel_id (by_id config.channels [])

  unfoldable pub request_for_channel : HeatPumpConfig F → Text → Option (Request F)
  request_for_channel config channel_id = find_request channel_id (requests config)

  unfoldable pub request_by_bytes : HeatPumpConfig F → Text → Option (Request F)
  request_by_bytes config request_byte = find_by_bytes (upper request_byte) (requests config)
