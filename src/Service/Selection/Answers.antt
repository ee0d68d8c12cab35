-- ===== src/Service/Selection/Answers.antt =====
-- What `read_channels` and `read_all` of stiebel_heatpump/service.py answer.
use stiebel_eltron_heatpump.Prelude.{IsIn, ◌≡◌, List, Bool, ◌↔◌}
use stiebel_eltron_heatpump.Errors.{ok}
use stiebel_eltron_heatpump.Dict.{Dict}
use stiebel_eltron_heatpump.Models.{Text, FloatOps, Value, DataType, ChannelDefinition}
use stiebel_eltron_heatpump.Config.{Request, HeatPumpConfig, requests}
use stiebel_eltron_heatpump.Protocol.Transport.{Transport}
use stiebel_eltron_heatpump.Communication.{read_requests}
use stiebel_eltron_heatpump.Service.{
  ChannelValue, is_one_of, requests_for, select, is_type, types_or_default, requests_of_type,
}
use stiebel_eltron_heatpump.Service.Operations.{read_channels, read_all}
use stiebel_eltron_heatpump.Service.Selection.{Selected, select_iff}
use stiebel_eltron_heatpump.Service.Selection.Requests.{
  is_one_of_iff, AllConfigured, AreRequestsOf, requests_for-AreRequestsOf, all_known-AllConfigured,
}
use stiebel_eltron_heatpump.Service.Selection.Types.{
  IsAsked, is_type_iff, HoldsAsked, requests_of_type_iff,
}

module _ (t : Transport) {F : Type 0} (ops : FloatOps F) (config : HeatPumpConfig F) where
  -- If all ids are configured and the requests of `requests_for` can be read, then `read_channels`
  -- answers; its answers are exactly the values read for ids that were asked for, each with its
  -- channel's id, unit and type, and writable if it is a setting. The requests are those of the ids:
  -- for every id there is one with the commands of a request that holds a channel of the id, and each
  -- is the request of one of the ids.
  pub read_channels-answers :
      (wanted : List Text) (values : Dict (Value F)) (s s' : t.State)
      → AllConfigured config wanted
      → read_requests t ops (requests_for config wanted) s ≡ (ok values, s')
      → (answers : List (ChannelValue F)) × (read_channels t ops config wanted s ≡ (ok answers, s'))
        × ((answer : ChannelValue F)
            → IsIn answer answers
              ↔ Selected config (λ channel_id _. IsIn channel_id wanted) values answer)
        × AreRequestsOf config wanted (requests_for config wanted)
  unfolding read_channels
  read_channels-answers wanted values s s' configured got =
      let test : Text → ChannelDefinition F → Bool = λ channel_id _. is_one_of wanted channel_id in
      (
        select config test values,
        rw (all_known-AllConfigured config wanted configured, got),
        select_iff config test _ (λ channel_id _. is_one_of_iff wanted channel_id) values,
        requests_for-AreRequestsOf config wanted configured,
      )

  -- If the requests of `requests_of_type` can be read, then `read_all` answers; its answers are
  -- exactly the values read for channels of the types, each with its channel's id, unit and type, and
  -- writable if it is a setting. The requests are exactly those of the configuration that hold a
  -- channel of the types. Without types these are sensors and status values.
  pub read_all-answers :
      (types : List DataType) (values : Dict (Value F)) (s s' : t.State)
      → read_requests t ops (requests_of_type (types_or_default types) (requests config)) s
        ≡ (ok values, s')
      → (answers : List (ChannelValue F)) × (read_all t ops config types s ≡ (ok answers, s'))
        × ((answer : ChannelValue F)
            → IsIn answer answers
              ↔ Selected config (λ _ r. IsAsked types r.data_type) values answer)
        × ((request : Request F)
            → IsIn request (requests_of_type (types_or_default types) (requests config))
              ↔ (IsIn request (requests config) × HoldsAsked types request.records))
  unfolding read_all
  read_all-answers types values s s' got =
      let test : Text → ChannelDefinition F → Bool =
        λ _ r. is_type (types_or_default types) r.data_type in
      (
        select config test values,
        rw got,
        select_iff config test _ (λ _ r. is_type_iff types r.data_type) values,
        requests_of_type_iff types (requests config),
      )
