-- ===== src/Api/Listing.antt =====
-- The list of channels is the configuration's, filtered.
use stiebel_eltron_heatpump.Prelude.{
  sym, ◌≡◌, refl, ap, ◌∙◌, List, [], ◌∷◌, map, Option, none, some, Bool, true, ◌&&◌, arith,
  if◌then◌else◌,
}
use stiebel_eltron_heatpump.Models.{FloatOps, DataType, ChannelDefinition, writable}
use stiebel_eltron_heatpump.Config.{HeatPumpConfig}
use stiebel_eltron_heatpump.Service.{is_type}
use stiebel_eltron_heatpump.Api.{
  bool_eq, ChannelInfo, from_definition, of_type, of_writability, list_channels,
}

abbrev fits_type : Option DataType → DataType → Bool
fits_type none d = true
fits_type (some wanted) d = is_type (wanted ∷ []) d

abbrev fits_writability : Option Bool → Bool → Bool
fits_writability none w = true
fits_writability (some wanted) w = bool_eq w wanted

module _ {F : Type 0} where
  -- The channels that pass both filters, in the order of the configuration.
  pub selected :
      Option DataType → Option Bool → List (ChannelDefinition F) → List (ChannelDefinition F)
  selected data_type can_write [] = []
  selected data_type can_write (r ∷ rs) =
      let rest = selected data_type can_write rs in
      if fits_type data_type r.data_type && fits_writability can_write (writable r)
      then r ∷ rest
      else rest

module _ {F : Type 0} (ops : FloatOps F) where
  abbrev described : List (ChannelDefinition F) → List (ChannelInfo F)
  described rs = map (from_definition ops) rs

  by_type :
      (d : DataType) (rs : List (ChannelDefinition F))
      → of_type d (described rs) ≡ described (selected (some d) none rs)
  unfolding of_type selected from_definition
  by_type d [] = refl
  by_type d (r ∷ rs) = ground (arith, by_type d rs)

  by_writability :
      (w : Bool) (rs : List (ChannelDefinition F))
      → of_writability w (described rs) ≡ described (selected none (some w) rs)
  unfolding of_writability selected from_definition
  by_writability w [] = refl
  by_writability w (r ∷ rs) = ground (arith, by_writability w rs)

  all_selected : (rs : List (ChannelDefinition F)) → selected none none rs ≡ rs
  unfolding selected
  all_selected [] = refl
  all_selected (r ∷ rs) = ap (◌∷◌ r) (all_selected rs)

  twice_selected :
      (d : DataType) (w : Bool) (rs : List (ChannelDefinition F))
      → selected none (some w) (selected (some d) none rs) ≡ selected (some d) (some w) rs
  unfolding selected
  twice_selected d w [] = refl
  twice_selected d w (r ∷ rs) = ground (arith, twice_selected d w rs)

  -- `list_channels` describes exactly the configured channels that pass the filters which are given,
  -- each once and in the order of the configuration.
  pub list_channels-selected :
      (config : HeatPumpConfig F) (data_type : Option DataType) (can_write : Option Bool)
      → list_channels ops config data_type can_write
        ≡ map (from_definition ops) (selected data_type can_write config.channels)
  unfolding list_channels
  list_channels-selected config none none = ap described (sym (all_selected config.channels))
  list_channels-selected config (some d) none = by_type d config.channels
  list_channels-selected config none (some w) = by_writability w config.channels
  list_channels-selected config (some d) (some w) =
      ap (of_writability w) (by_type d config.channels)
      ∙ by_writability w (selected (some d) none config.channels)
      ∙ ap described (twice_selected d w config.channels)
