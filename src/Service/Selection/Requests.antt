-- ===== src/Service/Selection/Requests.antt =====
-- Which requests a read of several channels sends, in stiebel_heatpump/service.py.
use stiebel_eltron_heatpump.Prelude.{
  IsIn, IsIn-append, IsIn-last, IsIn-split, arith, ◌≡◌, refl, sym, ap, subst, ◌∙◌, List, [], ◌∷◌,
  ◌++◌, none, some, true, ◌⊎◌, inl, inr, ◌↔◌, Option-cases, Bool-cases, list_eq_iff, if◌then◌else◌,
}
use stiebel_eltron_heatpump.Models.{Text, ChannelDefinition}
use stiebel_eltron_heatpump.Config.{
  Request, HeatPumpConfig, channel, has_channel, request_for_channel, has_key,
}
use stiebel_eltron_heatpump.Config.Lookup.{request_for_channel-some}
use stiebel_eltron_heatpump.Config.Grouping.{text_option_eq_iff}
use stiebel_eltron_heatpump.Service.{is_one_of, contains, requests_loop, requests_for, all_known}

pub is_one_of_iff :
    (texts : List Text) (text : Text) → (is_one_of texts text ≡ true) ↔ IsIn text texts
unfolding is_one_of
is_one_of_iff [] text = (λ h. cc, λ h. elim h [ ])
is_one_of_iff (t ∷ texts) text = ground (arith, list_eq_iff t text, is_one_of_iff texts text)

module _ {F : Type 0} where
  -- A request of these commands is among them.
  pub record Covers (requests : List (Request F)) (request : Request F) : Type 0 where
    pub sent : Request F
    pub is_sent : IsIn sent requests
    pub same_command : sent.request_byte ≡ request.request_byte
    pub same_second : sent.request_byte2 ≡ request.request_byte2

  Covers-itself :
      (requests : List (Request F)) (request : Request F)
      → IsIn request requests
      → Covers requests request
  Covers-itself requests request h = record {
    sent = request;
    is_sent = h;
    same_command = refl;
    same_second = refl;
  }

  contains-Covers :
      (requests : List (Request F)) (request : Request F)
      → contains requests request ≡ true
      → Covers requests request
  unfolding contains has_key
  contains-Covers [] request h = absurd (cc h)
  contains-Covers (other ∷ rest) request h =
      elim (Bool-cases (has_key (request.request_byte, request.request_byte2) other)) [
        | inl same ↦
            let (one, two) : (other.request_byte ≡ request.request_byte)
                × (other.request_byte2 ≡ request.request_byte2) =
              ground (
                arith,
                list_eq_iff other.request_byte request.request_byte,
                text_option_eq_iff other.request_byte2 request.request_byte2,
              ) in
            record { sent = other; is_sent = inl refl; same_command = one; same_second = two }
        | inr different ↦
            let x = contains-Covers rest request (sym (rw different refl) ∙ h) in
            record {
              sent = x.sent;
              is_sent = inr x.is_sent;
              same_command = x.same_command;
              same_second = x.same_second;
            }
      ]

  module _ (config : HeatPumpConfig F) where
    abbrev with_request : List (Request F) → Request F → List (Request F)
    with_request found request = if contains found request then found else found ++ (request ∷ [])

    loop-none :
        (channel_id : Text) (ids : List Text) (found : List (Request F))
        → request_for_channel config channel_id ≡ none
        → requests_loop config (channel_id ∷ ids) found ≡ requests_loop config ids found
    unfolding requests_loop
    loop-none channel_id ids found e = rw (requests_loop, e)

    loop-some :
        (channel_id : Text) (ids : List Text) (found : List (Request F)) (request : Request F)
        → request_for_channel config channel_id ≡ some request
        → requests_loop config (channel_id ∷ ids) found
          ≡ requests_loop config ids (with_request found request)
    unfolding requests_loop
    loop-some channel_id ids found request e = rw (requests_loop, e)

    with_request-keeps :
        (found : List (Request F)) (request q : Request F)
        → IsIn q found
        → IsIn q (with_request found request)
    with_request-keeps found request q h = elim (Bool-cases (contains found request)) [
      | inl is ↦ rw is h
      | inr new ↦ rw new (IsIn-append q found request h)
    ]

    with_request-Covers :
        (found : List (Request F)) (request : Request F)
        → Covers (with_request found request) request
    with_request-Covers found request = elim (Bool-cases (contains found request)) [
      | inl is ↦ rw is (contains-Covers found request is)
      | inr new ↦ rw new (Covers-itself _ request (IsIn-last found request))
    ]

    with_request-split :
        (found : List (Request F)) (request q : Request F)
        → IsIn q (with_request found request)
        → IsIn q found ⊎ (request ≡ q)
    with_request-split found request q h = elim (Bool-cases (contains found request)) [
      | inl is ↦ inl (subst (λ b. IsIn q (if b then found else found ++ (request ∷ []))) is h)
      | inr new ↦
          IsIn-split q found request
            (subst (λ b. IsIn q (if b then found else found ++ (request ∷ []))) new h)
    ]

    loop-keeps :
        (ids : List Text) (found : List (Request F)) (q : Request F)
        → IsIn q found
        → IsIn q (requests_loop config ids found)
    loop-keeps [] found q h = unfold requests_loop in h
    loop-keeps (channel_id ∷ ids) found q h =
        elim (Option-cases (request_for_channel config channel_id)) [
          | inl e ↦ rw (loop-none channel_id ids found e) (loop-keeps ids found q h)
          | inr (request, e) ↦
              rw (loop-some channel_id ids found request e) (
                loop-keeps ids (with_request found request) q
                  (with_request-keeps found request q h))
        ]

    loop-Covers :
        (ids : List Text) (found : List (Request F)) (channel_id : Text) (request : Request F)
        → IsIn channel_id ids
        → request_for_channel config channel_id ≡ some request
        → Covers (requests_loop config ids found) request
    loop-Covers [] found channel_id request h e = elim h [ ]
    loop-Covers (first ∷ ids) found channel_id request (inl same) e =
        let x = with_request-Covers found request in
        rw (loop-some first ids found request (ap (request_for_channel config) same ∙ e)) (record {
          sent = x.sent;
          is_sent = loop-keeps ids (with_request found request) x.sent x.is_sent;
          same_command = x.same_command;
          same_second = x.same_second;
        })
    loop-Covers (first ∷ ids) found channel_id request (inr h) e =
        elim (Option-cases (request_for_channel config first)) [
          | inl f ↦ rw (loop-none first ids found f) (loop-Covers ids found channel_id request h e)
          | inr (other, f) ↦
              rw (loop-some first ids found other f)
                (loop-Covers ids (with_request found other) channel_id request h e)
        ]

    -- The request is the one of an id that is asked for.
    abbrev pub IsWanted : List Text → Request F → Type 0
    IsWanted ids request =
        (channel_id : Text) × IsIn channel_id ids
        × (request_for_channel config channel_id ≡ some request)

    later-IsWanted :
        (first : Text) (ids : List Text) (q : Request F) → IsWanted ids q → IsWanted (first ∷ ids) q
    later-IsWanted first ids q (channel_id, h, e) = (channel_id, inr h, e)

    loop-only :
        (ids : List Text) (found : List (Request F)) (q : Request F)
        → IsIn q (requests_loop config ids found)
        → IsIn q found ⊎ IsWanted ids q
    loop-only [] found q h = inl (unfold requests_loop in h)
    loop-only (first ∷ ids) found q h = elim (Option-cases (request_for_channel config first)) [
      | inl e ↦
          elim (loop-only ids found q (subst (λ l. IsIn q l) (loop-none first ids found e) h)) [
            | inl old ↦ inl old
            | inr w ↦ inr (later-IsWanted first ids q w)
          ]
      | inr (request, e) ↦
          elim (loop-only ids (with_request found request) q
            (subst (λ l. IsIn q l) (loop-some first ids found request e) h)) [
              | inl old ↦ elim (with_request-split found request q old) [
                | inl before ↦ inl before
                | inr same ↦ inr (first, inl refl, e ∙ ap some same)
              ]
              | inr w ↦ inr (later-IsWanted first ids q w)
            ]
    ]

    -- The requests are those of the ids: for each id there is one with the commands of a request that
    -- holds a channel of that id, and each is the request of one of the ids.
    pub record AreRequestsOf (ids : List Text) (requests : List (Request F)) : Type 0 where
      pub every_id :
          (channel_id : Text)
          → IsIn channel_id ids
          → (request : Request F) × (request_for_channel config channel_id ≡ some request)
            × (has_channel channel_id request.records ≡ true)
            × Covers requests request
      pub only_those : (request : Request F) → IsIn request requests → IsWanted ids request

    -- All ids are configured.
    abbrev pub AllConfigured : List Text → Type 0
    AllConfigured ids =
        (channel_id : Text)
        → IsIn channel_id ids
        → (r : ChannelDefinition F) × (channel config channel_id ≡ some r)

    pub requests_for-AreRequestsOf :
        (ids : List Text) → AllConfigured ids → AreRequestsOf ids (requests_for config ids)
    unfolding requests_for
    requests_for-AreRequestsOf ids configured = record {
      every_id = λ channel_id h.
          let (r, e) = configured channel_id h in
          let (request, is, holds) = request_for_channel-some config channel_id r e in
          (request, is, holds, loop-Covers ids [] channel_id request h is);
      only_those = λ request h. elim (loop-only ids [] request h) [
        | inl before ↦ elim before [ ]
        | inr w ↦ w
      ];
    }

    pub all_known-AllConfigured :
        (ids : List Text) → AllConfigured ids → all_known config ids ≡ true
    unfolding all_known
    all_known-AllConfigured [] h = refl
    all_known-AllConfigured (channel_id ∷ ids) h =
        let (r, e) = h channel_id (inl refl) in
        let rest = all_known-AllConfigured ids (λ other is. h other (inr is)) in
        rw (e, all_known) rest
