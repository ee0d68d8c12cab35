-- ===== src/Config/Load/Rows.antt =====
-- What the rows of an XML file must say for `load_xml` to return channels.
use stiebel_eltron_heatpump.Prelude.{
  arith, ◌≡◌, refl, sym, ap, subst, ◌∙◌, ◌↔◌, ℕ, List, [], ◌∷◌, Option, none, some,
}
use stiebel_eltron_heatpump.Errors.{Result, ok, chain-ok, ok-injective}
use stiebel_eltron_heatpump.Dict.{Dict, lookup}
use stiebel_eltron_heatpump.Models.{Text, codes, FloatOps, ChannelDefinition}
use stiebel_eltron_heatpump.Config.Load.{
  Readers, text, required, to_data_type, to_number, load_row, load_rows, load_xml,
}

-- The number of an attribute: the default without a text, or else what the text converts to.
pub data Gives {A : Type 0} (convert : Text → Result A) (default : A) (given : Option Text) (a : A)
    : Type 0 where
  omitted : given ≡ none → a ≡ default → Gives convert default given a
  empty : given ≡ some [] → a ≡ default → Gives convert default given a
  converted :
      (c : ℕ) (value : Text)
      → given ≡ some (c ∷ value)
      → convert (c ∷ value) ≡ ok a
      → Gives convert default given a

module _ {F : Type 0} (ops : FloatOps F) (readers : Readers F) where
  pub record Describes (attributes : Dict Text) (r : ChannelDefinition F) : Type 0 where
    pub id_is : lookup (codes "channelid") attributes ≡ some r.channel_id
    pub command_is : lookup (codes "requestByte") attributes ≡ some r.request_byte
    pub command2_is : lookup (codes "requestByte2") attributes ≡ r.request_byte2
    pub type_text : Text
    pub type_given : lookup (codes "dataType") attributes ≡ some type_text
    pub type_is : to_data_type type_text ≡ ok r.data_type
    pub position_is :
        Gives readers.natural_of_text 0 (lookup (codes "position") attributes) r.position
    pub length_is : Gives readers.natural_of_text 0 (lookup (codes "length") attributes) r.length
    pub scale_is : Gives readers.float_of_text ops.one (lookup (codes "scale") attributes) r.scale
    pub bit_is :
        Gives readers.natural_of_text 0 (lookup (codes "bitPosition") attributes) r.bit_position
    pub min_is : Gives readers.float_of_text ops.zero (lookup (codes "min") attributes) r.min
    pub max_is : Gives readers.float_of_text ops.zero (lookup (codes "max") attributes) r.max
    pub step_is : Gives readers.float_of_text ops.zero (lookup (codes "step") attributes) r.step
    pub unit_is : lookup (codes "unit") attributes ≡ r.unit

  pub data DescribeAll : List (Dict Text) → List (ChannelDefinition F) → Type 0 where
    no_rows : DescribeAll [] []
    row :
        {attributes : Dict Text} {rows : List (Dict Text)} {r : ChannelDefinition F}
        {channels : List (ChannelDefinition F)}
        → Describes attributes r
        → DescribeAll rows channels
        → DescribeAll (attributes ∷ rows) (r ∷ channels)

module _ {A : Type 0} (convert : Text → Result A) (default : A) where
  Gives-to_number :
      (given : Option Text) (a : A)
      → Gives convert default given a
      → to_number convert default given ≡ ok a
  unfolding to_number
  Gives-to_number given a (omitted e f) = rw (e, f) refl
  Gives-to_number given a (empty e f) = rw (e, f) refl
  Gives-to_number given a (converted c value e f) = rw e f

  to_number-Gives :
      (given : Option Text) (a : A)
      → to_number convert default given ≡ ok a
      → Gives convert default given a
  unfolding to_number
  to_number-Gives none a h = omitted refl (sym (ok-injective h))
  to_number-Gives (some []) a h = empty refl (sym (ok-injective h))
  to_number-Gives (some (c ∷ value)) a h = converted c value refl h

required-ok :
    (key : Text) (attributes : Dict Text) (value : Text)
    → required key attributes ≡ ok value
    → lookup key attributes ≡ some value
unfolding required
required-ok key attributes value h = ground arith

required-some :
    (key : Text) (attributes : Dict Text) (value : Text)
    → lookup key attributes ≡ some value
    → required key attributes ≡ ok value
unfolding required
required-some key attributes value h = rw (h, required) refl

module _ {F : Type 0} (ops : FloatOps F) (readers : Readers F) where
  load_row-Describes :
      (attributes : Dict Text) (r : ChannelDefinition F)
      → Describes ops readers attributes r
      → load_row ops readers attributes ≡ ok r
  unfolding load_row
  load_row-Describes attributes r d =
      rw
        (
          required-some (codes "channelid") attributes r.channel_id d.id_is,
          required-some (codes "requestByte") attributes r.request_byte d.command_is,
          required-some (codes "dataType") attributes d.type_text d.type_given,
          d.type_is,
          Gives-to_number readers.natural_of_text 0 (lookup (codes "position") attributes)
              r.position d.position_is,
          Gives-to_number readers.natural_of_text 0 (lookup (codes "length") attributes) r.length
              d.length_is,
          Gives-to_number readers.float_of_text ops.one (lookup (codes "scale") attributes) r.scale
              d.scale_is,
          Gives-to_number readers.natural_of_text 0 (lookup (codes "bitPosition") attributes)
              r.bit_position d.bit_is,
          Gives-to_number readers.float_of_text ops.zero (lookup (codes "min") attributes) r.min
              d.min_is,
          Gives-to_number readers.float_of_text ops.zero (lookup (codes "max") attributes) r.max
              d.max_is,
          Gives-to_number readers.float_of_text ops.zero (lookup (codes "step") attributes) r.step
              d.step_is,
          d.command2_is,
          d.unit_is,
        )
        refl

  Describes-load_row :
      (attributes : Dict Text) (r : ChannelDefinition F)
      → load_row ops readers attributes ≡ ok r
      → Describes ops readers attributes r
  unfolding load_row
  Describes-load_row attributes r h =
      let natural = λ (key : Text). to_number readers.natural_of_text 0 (lookup key attributes) in
      let decimal = λ (default : F) (key : Text).
        to_number readers.float_of_text default (lookup key attributes) in
      let (channel_id, e1, h1) = chain-ok _ (required (codes "channelid") attributes) h in
      let (request_byte, e2, h2) = chain-ok _ (required (codes "requestByte") attributes) h1 in
      let (type_text, e3, h3) = chain-ok _ (required (codes "dataType") attributes) h2 in
      let (data_type, e4, h4) = chain-ok _ (to_data_type type_text) h3 in
      let (position, e5, h5) = chain-ok _ (natural (codes "position")) h4 in
      let (length, e6, h6) = chain-ok _ (natural (codes "length")) h5 in
      let (scale, e7, h7) = chain-ok _ (decimal ops.one (codes "scale")) h6 in
      let (bit, e8, h8) = chain-ok _ (natural (codes "bitPosition")) h7 in
      let (min, e9, h9) = chain-ok _ (decimal ops.zero (codes "min")) h8 in
      let (max, e10, h10) = chain-ok _ (decimal ops.zero (codes "max")) h9 in
      let (step, e11, h11) = chain-ok _ (decimal ops.zero (codes "step")) h10 in
      subst (Describes ops readers attributes) (ok-injective h11) (record {
        id_is = required-ok (codes "channelid") attributes channel_id e1;
        command_is = required-ok (codes "requestByte") attributes request_byte e2;
        command2_is = refl;
        type_text = type_text;
        type_given = required-ok (codes "dataType") attributes type_text e3;
        type_is = e4;
        position_is = to_number-Gives readers.natural_of_text 0 _ position e5;
        length_is = to_number-Gives readers.natural_of_text 0 _ length e6;
        scale_is = to_number-Gives readers.float_of_text ops.one _ scale e7;
        bit_is = to_number-Gives readers.natural_of_text 0 _ bit e8;
        min_is = to_number-Gives readers.float_of_text ops.zero _ min e9;
        max_is = to_number-Gives readers.float_of_text ops.zero _ max e10;
        step_is = to_number-Gives readers.float_of_text ops.zero _ step e11;
        unit_is = refl;
      })

  load_rows-DescribeAll :
      {rows : List (Dict Text)} {channels : List (ChannelDefinition F)}
      → DescribeAll ops readers rows channels
      → load_rows ops readers rows ≡ ok channels
  unfolding load_rows
  load_rows-DescribeAll no_rows = refl
  load_rows-DescribeAll (row {attributes = attributes} {r = r} d rest) =
      rw (load_row-Describes attributes r d, load_rows-DescribeAll rest) refl

  pub DescribeAll-load_rows :
      (rows : List (Dict Text)) (channels : List (ChannelDefinition F))
      → load_rows ops readers rows ≡ ok channels
      → DescribeAll ops readers rows channels
  unfolding load_rows
  DescribeAll-load_rows [] channels h = subst (DescribeAll ops readers []) (ok-injective h) no_rows
  DescribeAll-load_rows (attributes ∷ rows) channels h =
      let (r, e, h1) = chain-ok _ (load_row ops readers attributes) h in
      let (rest, f, h2) = chain-ok _ (load_rows ops readers rows) h1 in
      subst (DescribeAll ops readers (attributes ∷ rows)) (ok-injective h2)
        (row (Describes-load_row attributes r e) (DescribeAll-load_rows rows rest f))

  -- `load_xml` returns channels exactly if the file can be parsed and its rows describe these
  -- channels one by one and in their order: each attribute that a channel needs is there, its type
  -- is one of the three, and every number is what its text converts to, or the default where the
  -- text is missing or empty. The name is the file's.
  pub load_xml-DescribeAll :
      (path : Text) (channels : List (ChannelDefinition F))
      → (load_xml ops readers path ≡ ok (text (readers.stem path), channels)) ↔ (
          (rows : List (Dict Text)) × (readers.parse path ≡ ok rows)
          × DescribeAll ops readers rows channels)
  unfolding load_xml
  load_xml-DescribeAll path channels = (
    λ h.
        let (rows, e, h1) = chain-ok _ (readers.parse path) h in
        let (found, f, h2) = chain-ok _ (load_rows ops readers rows) h1 in
        (
          rows,
          e,
          DescribeAll-load_rows rows channels (f ∙ ap ok (ap (λ p. p.1) (ok-injective h2))),
        ),
    λ p. let (rows, e, d) = p in rw (e, load_rows-DescribeAll d) refl,
  )
