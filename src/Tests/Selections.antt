-- ===== src/Tests/Selections.antt =====
-- Reads of several channels from a scripted device.
use stiebel_eltron_heatpump.Prelude.{
  IsIn, inl, inr, sym, ℤ, negsuc, ◌≡◌, refl, ◌∙◌, ap, List, [], ◌∷◌, ◌↔◌,
}
use stiebel_eltron_heatpump.Errors.{ok}
use stiebel_eltron_heatpump.Dict.{insert, update}
use stiebel_eltron_heatpump.Models.{Text, int, settings}
use stiebel_eltron_heatpump.Config.{
  Request, channel, requests, group_requests, group_loop, add_channel, request_key, upper,
}
use stiebel_eltron_heatpump.Communication.{read_requests, read_each}
use stiebel_eltron_heatpump.Service.{
  ChannelValue, contains, requests_for, requests_loop, requests_of_type, has_type, is_type,
}
use stiebel_eltron_heatpump.Service.Operations.{read_channels, read_all}
use stiebel_eltron_heatpump.Service.Selection.{Selected}
use stiebel_eltron_heatpump.Service.Selection.Requests.{AllConfigured, AreRequestsOf}
use stiebel_eltron_heatpump.Service.Selection.Types.{IsAsked, HoldsAsked}
use stiebel_eltron_heatpump.Service.Selection.Answers.{read_channels-answers, read_all-answers}
use stiebel_eltron_heatpump.Tests.Statuses.{time_found}
use stiebel_eltron_heatpump.Tests.Floats.{fixed}
use stiebel_eltron_heatpump.Tests.Links.{Script, scripted}
use stiebel_eltron_heatpump.Tests.Records.{start_time}
use stiebel_eltron_heatpump.Tests.Talks.{conversation, time_frame, silent, time_request, time_read}
use stiebel_eltron_heatpump.Tests.Gateway.{gateway, time_requested}

abbrev wanted : List Text
wanted = start_time.channel_id ∷ []

abbrev answers_third : Script
answers_third = silent (silent (conversation time_frame []))

configured : AllConfigured gateway wanted
configured channel_id (inl same) = (start_time, ap (channel gateway) (sym same) ∙ time_found)
configured channel_id (inr h) = elim h [ ]

wanted_requests : requests_for gateway wanted ≡ time_request ∷ []
unfolding requests_for requests_loop contains
wanted_requests = rw (requests_for, requests_loop, time_requested, contains)

settings_requests : requests_of_type (settings ∷ []) (requests gateway) ≡ time_request ∷ []
unfolding requests_of_type has_type is_type requests group_requests group_loop add_channel
    request_key upper
settings_requests = refl

one_read :
    read_requests scripted fixed (time_request ∷ []) answers_third
    ≡ (ok ((start_time.channel_id, int (negsuc 127)) ∷ []), [])
unfolding read_requests read_each update insert
one_read = rw time_read

read_channels-answers_example :
    (answers : List (ChannelValue ℤ)) × (read_channels scripted fixed gateway wanted answers_third
      ≡ (ok answers, []))
    × ((answer : ChannelValue ℤ)
        → IsIn answer answers
          ↔ Selected gateway
              (λ channel_id _. IsIn channel_id wanted)
              ((start_time.channel_id, int (negsuc 127)) ∷ [])
              answer)
    × AreRequestsOf gateway wanted (requests_for gateway wanted)
read_channels-answers_example =
    read_channels-answers scripted fixed gateway wanted
      ((start_time.channel_id, int (negsuc 127)) ∷ []) answers_third [] configured
      (ap (λ (x : List (Request ℤ)). read_requests scripted fixed x answers_third) wanted_requests
        ∙ one_read)

read_all-answers_example :
    (answers : List (ChannelValue ℤ)) × (read_all scripted fixed gateway
        (settings ∷ [])
        answers_third
      ≡ (ok answers, []))
    × ((answer : ChannelValue ℤ)
        → IsIn answer answers
          ↔ Selected gateway
              (λ _ r. IsAsked (settings ∷ []) r.data_type)
              ((start_time.channel_id, int (negsuc 127)) ∷ [])
              answer)
    × ((request : Request ℤ)
        → IsIn request (requests_of_type (settings ∷ []) (requests gateway))
          ↔ (IsIn request (requests gateway) × HoldsAsked (settings ∷ []) request.records))
read_all-answers_example =
    read_all-answers scripted fixed gateway (settings ∷ [])
      ((start_time.channel_id, int (negsuc 127)) ∷ []) answers_third []
      (ap (λ (x : List (Request ℤ)). read_requests scripted fixed x answers_third) settings_requests
        ∙ one_read)
