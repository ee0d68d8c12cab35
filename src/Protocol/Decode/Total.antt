-- ===== src/Protocol/Decode/Total.antt =====
-- `parse_records` returns a dictionary for every response.
use stiebel_eltron_heatpump.Prelude.{
  ◌≡◌, refl, sym, ◌∙◌, List, [], ◌∷◌, Option, none, some, inl, inr, Bool-cases, ℤ, arith, ltb,
  length,
}
use stiebel_eltron_heatpump.Errors.{Exn, ok, err, invalid_data, Result-cases}
use stiebel_eltron_heatpump.Dict.{Dict, insert}
use stiebel_eltron_heatpump.Models.{FloatOps, Value, bool, int, float, integer, ChannelDefinition}
use stiebel_eltron_heatpump.Protocol.Frame.{Bytes}
use stiebel_eltron_heatpump.Protocol.Decode.{
  parse_record, is_short_result, combine_values, combine_response, parse_into, parse_loop,
  too_short, parse_records,
}
use stiebel_eltron_heatpump.Protocol.Decode.Kind.{kind_of, kind_of-parse_record}
use stiebel_eltron_heatpump.Protocol.Decode.Records.{parse_record-err}

module _ {F : Type 0} (ops : FloatOps F) where
  -- Only integers are combined with integers, which no float operation is needed for.
  combine_values-ok :
      (v : Value F) (n : ℤ) → kind_of v ≡ integer → (w : Value F) × (combine_values ops v n ≡ ok w)
  unfolding combine_values
  combine_values-ok (int m) n k = (_, refl)
  combine_values-ok (bool b) n k = (_, refl)
  combine_values-ok (float x) n k = cc

  module _ (r : ChannelDefinition F) (response : Bytes) where
    combine_response-err :
        (second : Option Bytes) (v : Value F) (e : Exn)
        → parse_record ops response r ≡ ok v
        → combine_response ops second r v ≡ err e
        → e ≡ invalid_data
    unfolding combine_response is_short_result
    combine_response-err none v e is h = cc
    combine_response-err (some response2) (bool b) e is h = cc
    combine_response-err (some response2) (float x) e is h = cc
    combine_response-err (some response2) (int n) e is h =
        elim (Result-cases (parse_record ops response2 r)) [
          | inl (v2, is2) ↦
              let same : kind_of v2 ≡ kind_of {F = F} (int n) =
                kind_of-parse_record ops r response2 v2 is2
                ∙ sym (kind_of-parse_record ops r response (int n) is) in
              let (w, combined) = combine_values-ok v2 n same in ground (arith, combined)
          | inr (x, bad) ↦ ground (arith, parse_record-err ops response2 r x bad)
        ]

    parse_into-ok :
        (second : Option Bytes) (d : Dict (Value F))
        → (d' : Dict (Value F)) × (parse_into ops response second r d ≡ ok d')
    unfolding parse_into
    parse_into-ok second d = elim (Result-cases (parse_record ops response r)) [
      | inl (v, is) ↦ elim (Result-cases (combine_response ops second r v)) [
        | inl (w, combined) ↦ (insert r.channel_id w d, rw (is, combined, parse_into))
        | inr (x, bad) ↦ (d, rw (is, bad, combine_response-err second v x is bad, parse_into))
      ]
      | inr (x, bad) ↦ (d, rw (bad, parse_record-err ops response r x bad, parse_into))
    ]

  parse_loop-ok :
      (response : Bytes) (second : Option Bytes) (records : List (ChannelDefinition F))
      (d : Dict (Value F))
      → (d' : Dict (Value F)) × (parse_loop ops response second records d ≡ ok d')
  unfolding parse_loop
  parse_loop-ok response second [] d = (d, refl)
  parse_loop-ok response second (r ∷ records) d =
      let (d1, e) = parse_into-ok r response second d in
      let (d2, f) = parse_loop-ok response second records d1 in (d2, rw e f)

  -- Whatever bytes a response and a second response hold, `parse_records` raises nothing and returns
  -- a dictionary.
  pub parse_records-ok :
      (response : Bytes) (records : List (ChannelDefinition F)) (second : Option Bytes)
      → (d : Dict (Value F)) × (parse_records ops response records second ≡ ok d)
  unfolding parse_records
  parse_records-ok response records second = elim (Bool-cases (ltb (length response) 2)) [
    | inl short ↦ ([], rw short)
    | inr long ↦ elim (Bool-cases (too_short ops second)) [
      | inl short ↦ ([], rw (long, short))
      | inr long' ↦ let (d, e) = parse_loop-ok response second records [] in (d, rw (long, long') e)
    ]
  ]
