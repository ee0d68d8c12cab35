-- ===== src/Config/Grouping.antt =====
-- Grouping keeps every channel, under the request of its key.
use stiebel_eltron_heatpump.Prelude.{
  ◌≡◌, refl, ap, sym, ◌↔◌, Bool, true, ◌&&◌, List, [], ◌∷◌, ◌++◌, append_assoc, append-nil, Option,
  none, some, list_eq, list_eq_iff, arith, if◌then◌else◌,
}
use stiebel_eltron_heatpump.Models.{Text, ChannelDefinition}
use stiebel_eltron_heatpump.Config.{
  Request, request_key, has_key, add_channel, group_loop, group_requests, text_option_eq,
}

abbrev Key : Type 0
Key = Text × Option Text

abbrev key_eq : Key → Key → Bool
key_eq a b = list_eq a.0 b.0 && text_option_eq a.1 b.1

pub text_option_eq_iff : (a b : Option Text) → (text_option_eq a b ≡ true) ↔ (a ≡ b)
text_option_eq_iff none none = (λ _. refl, λ _. refl)
text_option_eq_iff none (some b) = (λ h. cc, λ h. cc)
text_option_eq_iff (some a) none = (λ h. cc, λ h. cc)
text_option_eq_iff (some a) (some b) =
    let (f, g) = list_eq_iff a b in (λ h. ap some (f h), λ h. g (cc))

key_eq_iff : (a b : Key) → (key_eq a b ≡ true) ↔ (a ≡ b)
key_eq_iff (a0, a1) (b0, b1) = ground (arith, list_eq_iff a0 b0, text_option_eq_iff a1 b1)

module _ {F : Type 0} where
  -- The records under a key: those of the first request that has it.
  unfoldable pub records_for : Text × Option Text → List (Request F) → List (ChannelDefinition F)
  records_for key [] = []
  records_for key (request ∷ requests) =
      let rest = records_for key requests in if has_key key request then request.records else rest

  -- The channels with a key, in the order of the configuration.
  unfoldable pub with_key :
      Text × Option Text → List (ChannelDefinition F) → List (ChannelDefinition F)
  with_key key [] = []
  with_key key (c ∷ channels) =
      let rest = with_key key channels in
      if list_eq (request_key c).0 key.0 && text_option_eq (request_key c).1 key.1
      then c ∷ rest
      else rest

  records_for-add_channel :
      (key : Key) (c : ChannelDefinition F) (requests : List (Request F))
      → records_for key (add_channel c requests) ≡ (
          if key_eq (request_key c) key
          then records_for key requests ++ (c ∷ [])
          else records_for key requests)
  unfolding records_for add_channel has_key
  records_for-add_channel key c [] = ground arith
  records_for-add_channel key c (request ∷ requests) = ground (
    arith,
    records_for-add_channel key c requests,
    key_eq_iff (request_key c) key,
    key_eq_iff (request.request_byte, request.request_byte2) key,
    key_eq_iff (request.request_byte, request.request_byte2) (request_key c),
  )

  records_for-group_loop :
      (key : Key) (channels : List (ChannelDefinition F)) (requests : List (Request F))
      → records_for key (group_loop channels requests)
        ≡ records_for key requests ++ with_key key channels
  unfolding group_loop with_key
  records_for-group_loop key [] requests = sym (append-nil _)
  records_for-group_loop key (c ∷ channels) requests = ground (
    arith,
    records_for-group_loop key channels (add_channel c requests),
    records_for-add_channel key c requests,
    append_assoc (records_for key requests) (c ∷ []) (with_key key channels),
  )

  -- The request that grouping makes for a key holds exactly the channels with that key, in the
  -- order of the configuration, and no channel is lost.
  pub records_for-group_requests :
      (key : Text × Option Text) (channels : List (ChannelDefinition F))
      → records_for key (group_requests channels) ≡ with_key key channels
  unfolding group_requests records_for
  records_for-group_requests key channels = records_for-group_loop key channels []
