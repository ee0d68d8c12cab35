-- ===== src/Simulator/Invariant/Behind.antt =====
-- Channels that lie behind the header, in the requests and under their ids.
use stiebel_eltron_heatpump.Prelude.{
  ◌≡◌, refl, sym, ◌∙◌, subst, ◌≤◌, List, [], ◌∷◌, ◌++◌, some, list_eq, inl, inr, Bool-cases,
}
use stiebel_eltron_heatpump.Dict.{Dict, lookup, insert, lookup-insert}
use stiebel_eltron_heatpump.Models.{Text, ChannelDefinition}
use stiebel_eltron_heatpump.Config.{
  HeatPumpConfig, Request, requests, group_requests, group_loop, add_channel, has_key, request_key,
  by_id, channel,
}
use stiebel_eltron_heatpump.Simulator.Invariant.Built.{AllBehind}

module _ {F : Type 0} where
  -- Every channel that the configuration finds lies behind the header.
  abbrev pub FindsBehind : HeatPumpConfig F → Type 0
  FindsBehind config =
      (channel_id : Text) (r : ChannelDefinition F)
      → channel config channel_id ≡ some r
      → 3 ≤ r.position

  -- So do the channels of every request.
  abbrev pub RequestsBehind : List (Request F) → Type 0
  RequestsBehind [] = Unit
  RequestsBehind (request ∷ all) = AllBehind request.records × RequestsBehind all

  AllBehind-append :
      (records : List (ChannelDefinition F)) (c : ChannelDefinition F)
      → AllBehind records
      → 3 ≤ c.position
      → AllBehind (records ++ (c ∷ []))
  AllBehind-append [] c h k = (k, tt)
  AllBehind-append (r ∷ records) c (h, rest) k = (h, AllBehind-append records c rest k)

  add_channel-RequestsBehind :
      (c : ChannelDefinition F) (all : List (Request F))
      → 3 ≤ c.position
      → RequestsBehind all
      → RequestsBehind (add_channel c all)
  unfolding add_channel
  add_channel-RequestsBehind c [] h k = ((h, tt), tt)
  add_channel-RequestsBehind c (request ∷ all) h (here, later) =
      elim (Bool-cases (has_key (request_key c) request)) [
        | inl is ↦ rw is (AllBehind-append request.records c here h, later)
        | inr other ↦ rw other (here, add_channel-RequestsBehind c all h later)
      ]

  group_loop-RequestsBehind :
      (channels : List (ChannelDefinition F)) (all : List (Request F))
      → AllBehind channels
      → RequestsBehind all
      → RequestsBehind (group_loop channels all)
  unfolding group_loop
  group_loop-RequestsBehind [] all h k = k
  group_loop-RequestsBehind (c ∷ channels) all (h, rest) k =
      group_loop-RequestsBehind channels (add_channel c all) rest
        (add_channel-RequestsBehind c all h k)

  pub requests-RequestsBehind :
      (config : HeatPumpConfig F) → AllBehind config.channels → RequestsBehind (requests config)
  unfolding requests group_requests
  requests-RequestsBehind config h = group_loop-RequestsBehind config.channels [] h tt

  by_id-behind :
      (channels : List (ChannelDefinition F)) (dict : Dict (ChannelDefinition F))
      → AllBehind channels
      → ((key : Text) (r : ChannelDefinition F) → lookup key dict ≡ some r → 3 ≤ r.position)
      → (key : Text) (r : ChannelDefinition F) → lookup key (by_id channels dict) ≡ some r
      → 3 ≤ r.position
  unfolding by_id
  by_id-behind [] dict h k key r e = k key r e
  by_id-behind (c ∷ channels) dict (h, rest) k key r e =
      by_id-behind channels (insert c.channel_id c dict) rest
        (λ key' r' e'. elim (Bool-cases (list_eq c.channel_id key')) [
          | inl same ↦
              let is : some c ≡ some r' =
                sym (lookup-insert c.channel_id key' c dict ∙ rw same refl) ∙ e' in
              let here : c ≡ r' = cc in subst (λ (x : ChannelDefinition F). 3 ≤ x.position) here h
          | inr other ↦
              k key' r' (sym (lookup-insert c.channel_id key' c dict ∙ rw other refl) ∙ e')
        ])
        key r e

  pub channel-FindsBehind :
      (config : HeatPumpConfig F) → AllBehind config.channels → FindsBehind config
  unfolding channel lookup
  channel-FindsBehind config h channel_id r e =
      by_id-behind config.channels [] h (λ key x never. cc) channel_id r e
