-- ===== src/Config/Lookup.antt =====
-- The channel that `channel` finds has a request, which holds a channel of that id.
use stiebel_eltron_heatpump.Prelude.{
  ◌≡◌, refl, ◌∙◌, List, [], ◌∷◌, ◌++◌, some, Bool, true, false, ◌||◌, ◌⊎◌, inl, inr, Bool-cases,
  list_eq, arith,
}
use stiebel_eltron_heatpump.Dict.{Dict, lookup, insert, lookup-insert}
use stiebel_eltron_heatpump.Models.{Text, ChannelDefinition}
use stiebel_eltron_heatpump.Config.{
  Request, add_channel, group_loop, group_requests, by_id, has_channel, find_request,
  HeatPumpConfig, requests, channel, request_for_channel,
}

module _ {F : Type 0} (channel_id : Text) where
  has_channel-append :
      (a b : List (ChannelDefinition F))
      → has_channel channel_id (a ++ b) ≡ (has_channel channel_id a || has_channel channel_id b)
  unfolding has_channel
  has_channel-append [] b = refl
  has_channel-append (r ∷ a) b = ground (arith, has_channel-append a b)

  -- A request of the list holds a channel of the id.
  is_held : List (Request F) → Bool
  is_held [] = false
  is_held (request ∷ requests) = has_channel channel_id request.records || is_held requests

  is_held-add_channel :
      (c : ChannelDefinition F) (requests : List (Request F))
      → is_held (add_channel c requests) ≡ (list_eq c.channel_id channel_id || is_held requests)
  unfolding is_held add_channel has_channel
  is_held-add_channel c [] = ground arith
  is_held-add_channel c (request ∷ requests) =
      ground (arith, is_held-add_channel c requests, has_channel-append request.records (c ∷ []))

  is_held-group_loop :
      (channels : List (ChannelDefinition F)) (requests : List (Request F))
      → is_held (group_loop channels requests)
        ≡ (has_channel channel_id channels || is_held requests)
  unfolding group_loop has_channel
  is_held-group_loop [] requests = refl
  is_held-group_loop (c ∷ channels) requests =
      ground (
        arith,
        is_held-group_loop channels (add_channel c requests),
        is_held-add_channel c requests,
      )

  find_request-some :
      (requests : List (Request F))
      → is_held requests ≡ true
      → (request : Request F) × (find_request channel_id requests ≡ some request)
        × (has_channel channel_id request.records ≡ true)
  unfolding is_held find_request
  find_request-some [] h = cc
  find_request-some (request ∷ requests) h =
      elim (Bool-cases (has_channel channel_id request.records)) [
        | inl is ↦ (request, rw is, is)
        | inr other ↦
            let (found, e, has) = find_request-some requests (ground arith) in
            (found, rw other e, has)
      ]

  has_channel-by_id :
      (channels : List (ChannelDefinition F)) (dict : Dict (ChannelDefinition F))
      (r : ChannelDefinition F)
      → lookup channel_id (by_id channels dict) ≡ some r
      → (has_channel channel_id channels ≡ true) ⊎ (lookup channel_id dict ≡ some r)
  unfolding by_id has_channel
  has_channel-by_id [] dict r h = inr h
  has_channel-by_id (c ∷ channels) dict r h =
      elim (has_channel-by_id channels (insert c.channel_id c dict) r h) [
        | inl later ↦ inl (ground arith)
        | inr here ↦ elim (Bool-cases (list_eq c.channel_id channel_id)) [
          | inl is ↦ inl (ground arith)
          | inr other ↦ inr (ground (arith, lookup-insert c.channel_id channel_id c dict))
        ]
      ]

  lookup-by_id :
      (channels : List (ChannelDefinition F)) (dict : Dict (ChannelDefinition F))
      → (has_channel channel_id channels ≡ true)
        ⊎ ((r : ChannelDefinition F) × (lookup channel_id dict ≡ some r))
      → (r : ChannelDefinition F) × (lookup channel_id (by_id channels dict) ≡ some r)
  unfolding by_id has_channel
  lookup-by_id [] dict (inl h) = cc
  lookup-by_id [] dict (inr h) = h
  lookup-by_id (c ∷ channels) dict h =
      lookup-by_id channels (insert c.channel_id c dict)
        (elim (Bool-cases (list_eq c.channel_id channel_id)) [
          | inl is ↦ inr (c, lookup-insert c.channel_id channel_id c dict ∙ rw is refl)
          | inr other ↦ elim h [
            | inl has ↦ inl (ground arith)
            | inr (r, e) ↦ inr (r, lookup-insert c.channel_id channel_id c dict ∙ rw other e)
          ]
        ])

  pub channel-some :
      (config : HeatPumpConfig F)
      → has_channel channel_id config.channels ≡ true
      → (r : ChannelDefinition F) × (channel config channel_id ≡ some r)
  unfolding channel
  channel-some config h = lookup-by_id config.channels [] (inl h)

  pub channel-known :
      (config : HeatPumpConfig F) (r : ChannelDefinition F)
      → channel config channel_id ≡ some r
      → has_channel channel_id config.channels ≡ true
  unfolding channel lookup
  channel-known config r h = elim (has_channel-by_id config.channels [] r h) [
    | inl is ↦ is
    | inr never ↦ absurd (cc never)
  ]

-- Every configured channel can be read: if an id is configured, then there is a request for it, and
-- that request holds a channel of the id.
pub request_for_channel-some :
    {F : Type 0} (config : HeatPumpConfig F) (channel_id : Text) (r : ChannelDefinition F)
    → channel config channel_id ≡ some r
    → (request : Request F) × (request_for_channel config channel_id ≡ some request)
      × (has_channel channel_id request.records ≡ true)
unfolding channel request_for_channel requests group_requests
request_for_channel-some config channel_id r h =
    let known = channel-known channel_id config r h in
    find_request-some channel_id (group_loop config.channels [])
      (is_held-group_loop channel_id config.channels [] ∙ rw known)
