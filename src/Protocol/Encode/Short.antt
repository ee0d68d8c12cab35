-- ===== src/Protocol/Encode/Short.antt =====
-- `compose_record` on a frame that is too short for the record.
use stiebel_eltron_heatpump.Prelude.{
  arith, ◌≡◌, refl, ◌⊎◌, inl, inr, ℕ, zero, suc, ◌≤◌, ◌<◌, ℤ, [], ◌∷◌, none, false, Bool, get_elem?,
  set, length, length-set, if◌then◌else◌,
}
use stiebel_eltron_heatpump.Errors.{ok, err, index_error}
use stiebel_eltron_heatpump.Models.{FloatOps, ChannelDefinition, Value, bool, int, float}
use stiebel_eltron_heatpump.Protocol.Frame.{Bytes, set_mark}
use stiebel_eltron_heatpump.Protocol.Number.{short_to_bytes, store}
use stiebel_eltron_heatpump.Protocol.Encode.{
  compose_record, encode_value, encode_number, encode_bool, out_of_range, raw_of_value,
}

get_elem?-short : (frame : Bytes) (p : ℕ) → length frame ≤ p → get_elem? frame p ≡ none
get_elem?-short [] p h = refl
get_elem?-short (b ∷ frame) zero h = absurd (omega arith)
get_elem?-short (b ∷ frame) (suc p) h = get_elem?-short frame p (omega arith)

length-store :
    (frame : Bytes) (p v : ℕ)
    → p < length frame
    → (marked : Bytes) × (store frame p v ≡ ok marked) × (length marked ≡ length frame)
unfolding store
length-store frame p v h = (set frame p v, ground arith, length-set frame p v)

module _ {F : Type 0} (ops : FloatOps F) (r : ChannelDefinition F) where
  store-short : (frame : Bytes) (p v : ℕ) → length frame ≤ p → store frame p v ≡ err index_error
  unfolding store
  store-short frame p v h = ground arith

  encode_number-short :
      (frame : Bytes) (raw : ℤ)
      → (r.length ≡ 1) ⊎ (r.length ≡ 2)
      → length frame ≤ r.position
      → encode_number frame raw r ≡ err index_error
  unfolding encode_number
  encode_number-short frame raw (inl one) h =
      rw (one) (store-short frame r.position (short_to_bytes raw).0 h)
  encode_number-short frame raw (inr two) h =
      rw (two, store-short frame r.position (short_to_bytes raw).1 h) refl

  encode_bool-short :
      (frame : Bytes) (b : Bool)
      → length frame ≤ r.position
      → encode_bool frame b r ≡ err index_error
  unfolding encode_bool
  encode_bool-short frame b h = ground (
    arith,
    store-short frame r.position (if b then 1 else 0) h,
    get_elem?-short frame r.position h,
  )

  encode_value-short :
      (frame : Bytes) (value : Value F) (raw : ℤ)
      → (r.length ≡ 1) ⊎ (r.length ≡ 2)
      → out_of_range ops value r ≡ false
      → raw_of_value ops value r ≡ ok raw
      → length frame ≤ r.position
      → encode_value ops value frame r ≡ err index_error
  unfolding encode_value
  encode_value-short frame (bool b) raw size fits is h = encode_bool-short frame b h
  encode_value-short frame (int n) raw size fits is h =
      rw (fits, is) (encode_number-short frame raw size h)
  encode_value-short frame (float x) raw size fits is h =
      rw (fits, is) (encode_number-short frame raw size h)

  -- A value in its range cannot be composed into a frame that ends before the record's place: that
  -- is an IndexError.
  pub compose_record-short :
      (frame : Bytes) (value : Value F) (raw : ℤ)
      → (r.length ≡ 1) ⊎ (r.length ≡ 2)
      → out_of_range ops value r ≡ false
      → raw_of_value ops value r ≡ ok raw
      → 2 ≤ length frame
      → length frame ≤ r.position
      → compose_record ops value frame r ≡ err index_error
  unfolding compose_record
  compose_record-short frame value raw size fits is two h =
      let (marked, m, same) = length-store frame 1 set_mark (omega arith) in
      rw (m, encode_value-short marked value raw size fits is (rw same h)) refl
