-- ===== src/Config/Load/Readable.antt =====
-- What holds of the channels that the readers return.
use stiebel_eltron_heatpump.Prelude.{arith, ◌≡◌, refl, sym, ◌∙◌, ap, List, some, true, list_eq_iff}
use mathlib.Core.List.{Memᴰ}
use mathlib.Core.List.Memᴰ
use stiebel_eltron_heatpump.Errors.{ok, chain-ok, ok-injective}
use stiebel_eltron_heatpump.Dict.{Dict, lookup}
use stiebel_eltron_heatpump.Models.{Text, codes, FloatOps, ChannelDefinition}
use stiebel_eltron_heatpump.Config.{
  Request, HeatPumpConfig, has_channel, channel, request_for_channel,
}
use stiebel_eltron_heatpump.Config.Lookup.{request_for_channel-some, channel-some}
use stiebel_eltron_heatpump.Config.Load.{
  Readers, Yaml, null, scalar, text, sequence, mapping, Entries, raw_channels, load_rows, load_xml,
  load_yaml, load_config,
}
use stiebel_eltron_heatpump.Config.Load.Rows.{DescribeAll, no_rows, row, DescribeAll-load_rows}

raw_channels-mapping :
    (data_value raw : Yaml)
    → raw_channels data_value ≡ ok raw
    → (entries : Entries) × (data_value ≡ mapping entries)
unfolding raw_channels
raw_channels-mapping (mapping entries) raw h = (entries, refl)
raw_channels-mapping null raw h = cc
raw_channels-mapping scalar raw h = cc
raw_channels-mapping (text t) raw h = cc
raw_channels-mapping (sequence values) raw h = cc

module _ {F : Type 0} (ops : FloatOps F) (readers : Readers F) where
  has_channel-row :
      {rows : List (Dict Text)} {channels : List (ChannelDefinition F)} (attributes : Dict Text)
      → DescribeAll ops readers rows channels
      → Memᴰ attributes rows
      → (channel_id : Text) × (lookup (codes "channelid") attributes ≡ some channel_id)
        × (has_channel channel_id channels ≡ true)
  unfolding has_channel
  has_channel-row attributes no_rows m = absurd (Memᴰ.not-nil m)
  has_channel-row attributes (row {r = r} d rest) (Memᴰ.head e) = (
    r.channel_id,
    ap (lookup (codes "channelid")) e ∙ d.id_is,
    rw ((list_eq_iff r.channel_id r.channel_id).1 refl) refl,
  )
  has_channel-row attributes (row {r = r} d rest) (Memᴰ.tail m) =
      let (channel_id, e, has) = has_channel-row attributes rest m in (channel_id, e, ground arith)

  -- Every record of an XML file that loads can be read by its id: under it the configuration has a
  -- channel and a request, and the request holds a channel of that id.
  pub load_config-readable :
      (path : Text) (name : Yaml) (rows : List (Dict Text)) (config : HeatPumpConfig F)
      (attributes : Dict Text)
      → readers.suffix path ≡ codes ".xml"
      → readers.parse path ≡ ok rows
      → load_config ops readers path ≡ ok (name, config.channels)
      → Memᴰ attributes rows
      → (channel_id : Text) × (lookup (codes "channelid") attributes ≡ some channel_id)
        × ((r : ChannelDefinition F) × (channel config channel_id ≡ some r))
        × ((request : Request F) × (request_for_channel config channel_id ≡ some request)
            × (has_channel channel_id request.records ≡ true))
  unfolding load_config load_xml
  load_config-readable path name rows config attributes s e h m =
      let xml : load_xml ops readers path ≡ ok (name, config.channels) = sym (rw s refl) ∙ h in
      let (rows', e', h1) = chain-ok _ (readers.parse path) xml in
      let (found, f, h2) = chain-ok _ (load_rows ops readers rows') h1 in
      let loads : load_rows ops readers rows ≡ ok config.channels =
        ap (load_rows ops readers) (ok-injective (sym e ∙ e'))
        ∙ (f ∙ ap ok (ap (λ p. p.1) (ok-injective h2))) in
      let (channel_id, is, has) =
        has_channel-row attributes (DescribeAll-load_rows ops readers rows config.channels loads)
          m in
      let (r, known) = channel-some channel_id config has in
      (channel_id, is, (r, known), request_for_channel-some config channel_id r known)

  -- A YAML file that loads has a mapping at its top: a file that is a list of channels, for which
  -- `load_yaml` has a case, ends with an AttributeError.
  pub load_yaml-mapping :
      (path : Text) (p : Yaml × List (ChannelDefinition F))
      → load_yaml ops readers path ≡ ok p
      → (entries : Entries) × (readers.safe_load path ≡ ok (mapping entries))
  unfolding load_yaml
  load_yaml-mapping path p h =
      let (data_value, e, h1) = chain-ok _ (readers.safe_load path) h in
      let (raw, f, h2) = chain-ok _ (raw_channels data_value) h1 in
      let (entries, is) = raw_channels-mapping data_value raw f in (entries, e ∙ ap ok is)
