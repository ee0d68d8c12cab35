-- ===== src/Protocol/Decode/Records.antt =====
-- What `parse_records` finds for one of several records.
use stiebel_eltron_heatpump.Prelude.{
  ◌≡◌, refl, ap, ◌∙◌, List, [], ◌∷◌, ◌++◌, length, none, some, false, inl, inr, ◌⊎◌, ◌<◌, ◌+◌,
  Bool-cases, list_eq, ltb, arith,
}
use stiebel_eltron_heatpump.Errors.{Exn, Result, ok, err, invalid_data, Result-cases}
use stiebel_eltron_heatpump.Dict.{Dict, lookup, insert, lookup-insert, lookup-insert_self}
use stiebel_eltron_heatpump.Models.{Text, FloatOps, Value, ChannelDefinition}
use stiebel_eltron_heatpump.Protocol.Frame.{Bytes}
use stiebel_eltron_heatpump.Protocol.Decode.{
  as_invalid_data, parse_by_length, parse_record, combine_response, parse_into, parse_loop,
  parse_records,
}

-- None of the records has that id.
abbrev pub NoneHas : {F : Type 0} → Text → List (ChannelDefinition F) → Type 0
NoneHas channel_id [] = Unit
NoneHas channel_id (r ∷ records) =
    (list_eq r.channel_id channel_id ≡ false) × NoneHas channel_id records

-- Each record of that id ends behind the end of the response.
abbrev pub AllCut : {F : Type 0} → Bytes → Text → List (ChannelDefinition F) → Type 0
AllCut response channel_id [] = Unit
AllCut response channel_id (r ∷ records) =
    ((length response < r.position + r.length) ⊎ (list_eq r.channel_id channel_id ≡ false))
    × AllCut response channel_id records

module _ {F : Type 0} (ops : FloatOps F) (response : Bytes) where
  as_invalid_data-err :
      (result : Result (Value F)) (e : Exn) → as_invalid_data result ≡ err e → e ≡ invalid_data
  as_invalid_data-err (ok v) e h = cc
  as_invalid_data-err (err x) e h = cc

  pub parse_record-err :
      (r : ChannelDefinition F) (e : Exn) → parse_record ops response r ≡ err e → e ≡ invalid_data
  unfolding parse_record
  parse_record-err r e h = ground (arith, as_invalid_data-err (parse_by_length ops response r) e)

  parse_into-found :
      (r : ChannelDefinition F) (v : Value F) (d : Dict (Value F))
      → parse_record ops response r ≡ ok v
      → parse_into ops response none r d ≡ ok (insert r.channel_id v d)
  unfolding parse_into combine_response
  parse_into-found r v d h = rw (parse_into, h, combine_response)

  -- Another record changes no other id, and never ends the loop.
  parse_into-other :
      (channel_id : Text) (r : ChannelDefinition F) (d : Dict (Value F))
      → list_eq r.channel_id channel_id ≡ false
      → (d' : Dict (Value F)) × (parse_into ops response none r d ≡ ok d')
        × (lookup channel_id d' ≡ lookup channel_id d)
  parse_into-other channel_id r d other = elim (Result-cases (parse_record ops response r)) [
    | inl (v, e) ↦ (
      insert r.channel_id v d,
      parse_into-found r v d e,
      lookup-insert r.channel_id channel_id v d ∙ rw other,
    )
    | inr (x, e) ↦
        (d, unfold parse_into in rw (parse_into, e ∙ ap err (parse_record-err r x e)), refl)
  ]

  parse_loop-other :
      (channel_id : Text) (records : List (ChannelDefinition F)) (d : Dict (Value F))
      → NoneHas channel_id records
      → (d' : Dict (Value F)) × (parse_loop ops response none records d ≡ ok d')
        × (lookup channel_id d' ≡ lookup channel_id d)
  unfolding parse_loop
  parse_loop-other channel_id [] d others = (d, refl, refl)
  parse_loop-other channel_id (r ∷ records) d (other, others) =
      let (d1, e, keeps) = parse_into-other channel_id r d other in
      let (d2, f, keeps') = parse_loop-other channel_id records d1 others in
      (d2, rw e f, keeps' ∙ keeps)

  parse_loop-found :
      (before after : List (ChannelDefinition F)) (r : ChannelDefinition F) (v : Value F)
      (d : Dict (Value F))
      → parse_record ops response r ≡ ok v
      → NoneHas r.channel_id before
      → NoneHas r.channel_id after
      → (d' : Dict (Value F)) × (parse_loop ops response none (before ++ (r ∷ after)) d ≡ ok d')
        × (lookup r.channel_id d' ≡ some v)
  unfolding parse_loop
  parse_loop-found [] after r v d h others others' =
      let d1 = insert r.channel_id v d in
      let (d2, e, keeps) = parse_loop-other r.channel_id after d1 others' in
      (d2, rw (parse_into-found r v d h) e, keeps ∙ lookup-insert_self r.channel_id v d)
  parse_loop-found (x ∷ before) after r v d h (other, others) others' =
      let (d1, e, keeps) = parse_into-other r.channel_id x d other in
      let (d2, f, is) = parse_loop-found before after r v d1 h others others' in (d2, rw e f, is)

  -- If a record reads as a value and no other record has its id, then `parse_records` finds that
  -- value under the id, whatever the other records read as, and whether or not they can be read.
  pub parse_records-found :
      (before after : List (ChannelDefinition F)) (r : ChannelDefinition F) (v : Value F)
      → ltb (length response) 2 ≡ false
      → parse_record ops response r ≡ ok v
      → NoneHas r.channel_id before
      → NoneHas r.channel_id after
      → (d : Dict (Value F)) × (parse_records ops response (before ++ (r ∷ after)) none ≡ ok d)
        × (lookup r.channel_id d ≡ some v)
  unfolding parse_records
  parse_records-found before after r v long h others others' =
      let (d, e, is) = parse_loop-found before after r v [] h others others' in (d, rw long e, is)

  parse_record-cut :
      (r : ChannelDefinition F)
      → length response < r.position + r.length
      → parse_record ops response r ≡ err invalid_data
  unfolding parse_record
  parse_record-cut r h = ground arith

  parse_loop-cut :
      (channel_id : Text) (records : List (ChannelDefinition F)) (d : Dict (Value F))
      → AllCut response channel_id records
      → (d' : Dict (Value F)) × (parse_loop ops response none records d ≡ ok d')
        × (lookup channel_id d' ≡ lookup channel_id d)
  unfolding parse_loop
  parse_loop-cut channel_id [] d cut = (d, refl, refl)
  parse_loop-cut channel_id (r ∷ records) d (inl h, cut) =
      let left_out : parse_into ops response none r d ≡ ok d =
        unfold parse_into in rw (parse_into, parse_record-cut r h) in
      let (d', e, keeps) = parse_loop-cut channel_id records d cut in (d', rw left_out e, keeps)
  parse_loop-cut channel_id (r ∷ records) d (inr other, cut) =
      let (d1, e, keeps) = parse_into-other channel_id r d other in
      let (d2, f, keeps') = parse_loop-cut channel_id records d1 cut in (d2, rw e f, keeps' ∙ keeps)

  -- If all records of an id end behind the end of the response, then `parse_records` finds nothing
  -- under the id.
  pub parse_records-cut :
      (channel_id : Text) (records : List (ChannelDefinition F))
      → AllCut response channel_id records
      → (d : Dict (Value F)) × (parse_records ops response records none ≡ ok d)
        × (lookup channel_id d ≡ none)
  unfolding parse_records lookup
  parse_records-cut channel_id records cut = elim (Bool-cases (ltb (length response) 2)) [
    | inl short ↦ ([], rw short refl, refl)
    | inr long ↦ let (d, e, is) = parse_loop-cut channel_id records [] cut in (d, rw long e, is)
  ]
