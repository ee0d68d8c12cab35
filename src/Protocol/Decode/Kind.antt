-- ===== src/Protocol/Decode/Kind.antt =====
-- The decoded value of a channel has the kind that the channel advertises.
use stiebel_eltron_heatpump.Prelude.{
  ◌+◌, length, none, some, refl, get_elem?, some, Option, ℕ, ◌<◌, ◌≡◌, ◌≢◌, ℤ, ◌==◌, if◌then◌else◌,
  arith, Bool, true, false, not, ltb, [], ◌∷◌, is_zero,
}
use stiebel_eltron_heatpump.Errors.{
  Exn, index_error, invalid_data, or_index_error, Result, ok, err, ◌>>=◌,
}
use stiebel_eltron_heatpump.Models.{
  FloatOps, ChannelDefinition, Value, bool, int, float, ValueKind, boolean, integer, number,
  value_kind, is_switch,
}
use stiebel_eltron_heatpump.Protocol.Frame.{Bytes}
use stiebel_eltron_heatpump.Protocol.Number.{
  unpack_int, signed_byte, unpack_short, get_bit_from_bytes,
}
use stiebel_eltron_heatpump.Protocol.Decode.{
  as_invalid_data, scale_number, decode_number, parse_by_length, parse_record,
}

abbrev pub kind_of : {F : Type 0} → Value F → ValueKind
kind_of (bool _) = boolean
kind_of (int _) = integer
kind_of (float _) = number

module _ {F : Type 0} (ops : FloatOps F) (r : ChannelDefinition F) (raw : Bytes) (n : ℤ) where
  pub decode_number-integer :
      value_kind ops r ≡ integer → r.length ≢ 4 → decode_number ops raw n r ≡ ok (int n)
  unfolding value_kind decode_number
  decode_number-integer k short = ground arith

  pub decode_number-number :
      value_kind ops r ≡ number
      → decode_number ops raw n r ≡ (do x ← scale_number ops n r.scale; ok (float x))
  unfolding value_kind decode_number
  decode_number-number k = ground arith

  pub decode_number-bit :
      0 < r.bit_position
      → decode_number ops raw n r ≡ (do b ← get_bit_from_bytes raw r.bit_position; ok (bool b))
  unfolding decode_number
  decode_number-bit h = ground arith

  pub decode_number-switch :
      r.bit_position ≡ 0
      → is_switch ops r ≡ true
      → decode_number ops raw n r ≡ ok (bool (not (is_zero n)))
  unfolding decode_number
  decode_number-switch z h = ground arith

-- If a value comes out, it has this kind.
record HasKind {F : Type 0} (k : ValueKind) (result : Result (Value F)) : Type 0 where
  kind_is : (v : Value F) → result ≡ ok v → kind_of v ≡ k

module _ {F : Type 0} (k : ValueKind) where
  HasKind-err : (e : Exn) → HasKind {F = F} k (err e)
  HasKind-err e = record { kind_is = λ v h. cc }

  HasKind-at_index :
      (o : Option ℕ) (f : ℕ → Result (Value F))
      → ((b : ℕ) → HasKind k (f b))
      → HasKind k (or_index_error o >>= f)
  HasKind-at_index none f h = HasKind-err index_error
  HasKind-at_index (some b) f h = h b

  HasKind-as_invalid_data :
      (result : Result (Value F)) → HasKind k result → HasKind k (as_invalid_data result)
  HasKind-as_invalid_data (ok v) h = h
  HasKind-as_invalid_data (err e) h = HasKind-err invalid_data

  HasKind-if :
      (b : Bool) (x y : Result (Value F))
      → (b ≡ true → HasKind k x)
      → (b ≡ false → HasKind k y)
      → HasKind k (if b then x else y)
  HasKind-if true x y f g = f refl
  HasKind-if false x y f g = g refl

-- The kind that `parse_record` gives.
abbrev pub parsed_kind : {F : Type 0} → FloatOps F → ChannelDefinition F → ValueKind
parsed_kind ops r = if r.length == 4 then integer else value_kind ops r

module _ {F : Type 0} (ops : FloatOps F) (r : ChannelDefinition F) where
  HasKind-decode_number :
      (raw : Bytes) (n : ℤ) → r.length ≢ 4 → HasKind (parsed_kind ops r) (decode_number ops raw n r)
  unfolding value_kind decode_number
  HasKind-decode_number raw n short = record { kind_is = λ v h. ground arith }

  HasKind-four : (r.length == 4) ≡ true → (n : ℤ) → HasKind {F = F} (parsed_kind ops r) (ok (int n))
  HasKind-four four n = record { kind_is = λ v h. ground arith }

  HasKind-parse_by_length :
      (response : Bytes) → HasKind (parsed_kind ops r) (parse_by_length ops response r)
  unfolding parse_by_length
  HasKind-parse_by_length response =
      let k = parsed_kind ops r in
      let at_index = λ (o : Option ℕ) (f : ℕ → Result (Value F)). HasKind-at_index k o f in
      HasKind-if k (r.length == 1) _ _
        (λ one.
          at_index (get_elem? response r.position) _
            (λ b. HasKind-decode_number (b ∷ []) (signed_byte b) (ground arith)))
        (λ _.
          HasKind-if k (r.length == 2) _ _
            (λ two. at_index (get_elem? response r.position) _ (λ high.
              at_index (get_elem? response (r.position + 1)) _ (λ low.
                HasKind-decode_number (high ∷ low ∷ []) (unpack_short high low) (ground arith))))
            (λ _.
              HasKind-if k (r.length == 4) _ _
                (λ four. at_index (get_elem? response r.position) _ (λ a.
                  at_index (get_elem? response (r.position + 1)) _ (λ b.
                    at_index (get_elem? response (r.position + 2)) _ (λ c.
                      at_index (get_elem? response (r.position + 3)) _
                        (λ d. HasKind-four four (unpack_int a b c d))))))
                (λ _. HasKind-err k invalid_data)))

-- Whatever `parse_record` decodes has the kind that `value_kind` advertises, but for a record of
-- four bytes, which is always decoded as an integer, also where a boolean is advertised.
pub kind_of-parse_record :
    {F : Type 0} (ops : FloatOps F) (r : ChannelDefinition F) (response : Bytes) (v : Value F)
    → parse_record ops response r ≡ ok v
    → kind_of v ≡ (if r.length == 4 then integer else value_kind ops r)
unfolding parse_record
kind_of-parse_record ops r response v h =
    let k = parsed_kind ops r in
    let all : HasKind k (parse_record ops response r) =
      HasKind-if k (ltb (length response) 2) _ _ (λ _. HasKind-err k invalid_data)
        (λ _.
          HasKind-if k (ltb (length response) (r.position + r.length)) _ _
            (λ _. HasKind-err k invalid_data)
            (λ _. HasKind-as_invalid_data k _ (HasKind-parse_by_length ops r response))) in
    all.kind_is v h
