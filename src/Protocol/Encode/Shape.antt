-- ===== src/Protocol/Encode/Shape.antt =====
-- What `compose_record` does to a received frame: the set mark, the value in its slot of the
-- payload, and the checksum; all else stays. A position counts from the frame's start, and the
-- payload starts at 3.
use stiebel_eltron_heatpump.Prelude.{
  true, false, get_elem?-append, ltb, Bool, length-set, ◌≤◌, get_elem?, some, ℕ, suc, ◌+◌, ◌<◌, ◌≡◌,
  ℤ, ◌∷◌, length, set, set-append, length-append, ◌==◌, if◌then◌else◌, arith,
}
use stiebel_eltron_heatpump.Errors.{Exn, err, value_out_of_range, ok}
use stiebel_eltron_heatpump.Models.{int, bool, float, Value, FloatOps, ChannelDefinition}
use stiebel_eltron_heatpump.Protocol.Encode.{
  raw_of_value, scaled_to_raw, out_of_range, compose_record, encode_value, set_bit, encode_number,
  encode_bool,
}
use stiebel_eltron_heatpump.Protocol.Frame.{Bytes, footer, set_mark}
use stiebel_eltron_heatpump.Protocol.Frame.Escaping.{framed}
use stiebel_eltron_heatpump.Protocol.Frame.Checksum.{calculate_checksum-framed, frame_checksum}
use stiebel_eltron_heatpump.Protocol.Number.{short_to_bytes, store}

-- The frame with the set mark, this payload and its checksum.
abbrev pub set_frame : ℕ → Bytes → Bytes
set_frame h0 payload = framed h0 set_mark (frame_checksum h0 set_mark payload ∷ payload)

-- A number in the slot of `size` bytes at place `p` of a payload.
abbrev pub put_number : Bytes → ℕ → ℕ → ℤ → Bytes
put_number payload p size raw =
    if size == 1
    then set payload p (short_to_bytes raw).0
    else if size == 2
    then set (set payload p (short_to_bytes raw).1) (p + 1) (short_to_bytes raw).0
    else payload

pub store-framed :
    (h0 h1 c : ℕ) (payload : Bytes) (p v : ℕ)
    → p < length payload
    → store (framed h0 h1 (c ∷ payload)) (p + 3) v ≡ ok (framed h0 h1 (c ∷ set payload p v))
unfolding store
store-framed h0 h1 c payload p v h =
    let e : p + 3 ≡ suc (suc (suc p)) = omega arith in
    rw e (rw (set-append payload footer p v h) (ground (arith, length-append payload footer)))

pub get_elem?-framed :
    (h0 h1 c : ℕ) (payload : Bytes) (p : ℕ)
    → p < length payload
    → get_elem? (framed h0 h1 (c ∷ payload)) (p + 3) ≡ get_elem? payload p
get_elem?-framed h0 h1 c payload p h =
    let e : p + 3 ≡ suc (suc (suc p)) = omega arith in rw e (get_elem?-append payload footer p h)

pub store_mark :
    (h0 h1 : ℕ) (middle : Bytes)
    → store (framed h0 h1 middle) 1 set_mark ≡ ok (framed h0 set_mark middle)
unfolding store
store_mark h0 h1 middle = ground arith

pub store_checksum :
    (h0 h1 c x : ℕ) (payload : Bytes)
    → store (framed h0 h1 (c ∷ payload)) 2 x ≡ ok (framed h0 h1 (x ∷ payload))
unfolding store
store_checksum h0 h1 c x payload = ground arith

-- The byte that `compose_record` writes for a bool over an old one.
abbrev pub bool_byte : {F : Type 0} → ChannelDefinition F → ℕ → Bool → ℕ
bool_byte r old value =
    if ltb 0 r.bit_position then set_bit old r.bit_position value else if value then 1 else 0

module _ {F : Type 0} (r : ChannelDefinition F) (h0 h1 c : ℕ) (payload : Bytes) (p : ℕ)
    (slot : r.position ≡ p + 3) (fits : p + r.length ≤ length payload) where
  pub encode_number-framed :
      (raw : ℤ)
      → encode_number (framed h0 h1 (c ∷ payload)) raw r
        ≡ ok (framed h0 h1 (c ∷ put_number payload p r.length raw))
  unfolding encode_number
  encode_number-framed raw =
      let (low, high) = short_to_bytes raw in
      let next : p + 3 + 1 ≡ p + 1 + 3 = omega arith in
      ground (
        arith,
        slot,
        next,
        store-framed h0 h1 c payload p low,
        store-framed h0 h1 c payload p high,
        store-framed h0 h1 c (set payload p high) (p + 1) low,
        length-set payload p high,
      )

  pub encode_bool-framed :
      (value : Bool) (old : ℕ)
      → 0 < r.length
      → get_elem? payload p ≡ some old
      → encode_bool (framed h0 h1 (c ∷ payload)) value r
        ≡ ok (framed h0 h1 (c ∷ set payload p (bool_byte r old value)))
  unfolding encode_bool
  encode_bool-framed value old long old_is = ground (
    arith,
    slot,
    get_elem?-framed h0 h1 c payload p,
    store-framed h0 h1 c payload p (set_bit old r.bit_position value),
    store-framed h0 h1 c payload p (if value then 1 else 0),
  )

module _ {F : Type 0} (ops : FloatOps F) (r : ChannelDefinition F) (h0 h1 c : ℕ) (payload : Bytes)
    (p : ℕ) (slot : r.position ≡ p + 3) (fits : p + r.length ≤ length payload) where
  -- The frame that comes out, once the value's bytes are in the payload.
  finish :
      (value : Value F) (payload' : Bytes)
      → encode_value ops value (framed h0 set_mark (c ∷ payload)) r
        ≡ ok (framed h0 set_mark (c ∷ payload'))
      → compose_record ops value (framed h0 h1 (c ∷ payload)) r ≡ ok (set_frame h0 payload')
  unfolding compose_record
  finish value payload' h = rw (store_mark h0 h1 (c ∷ payload)) (
      rw h (
        rw (calculate_checksum-framed h0 set_mark c payload')
          (store_checksum h0 set_mark c (frame_checksum h0 set_mark payload') payload')))

  pub compose_record-bool :
      (b : Bool) (old : ℕ)
      → 0 < r.length
      → get_elem? payload p ≡ some old
      → compose_record ops (bool b) (framed h0 h1 (c ∷ payload)) r
        ≡ ok (set_frame h0 (set payload p (bool_byte r old b)))
  unfolding encode_value
  compose_record-bool b old long old_is =
      finish (bool b) _ (encode_bool-framed r h0 set_mark c payload p slot fits b old long old_is)

  pub compose_record-int :
      (n : ℤ)
      → out_of_range ops (int n) r ≡ false
      → compose_record ops (int n) (framed h0 h1 (c ∷ payload)) r
        ≡ ok (set_frame h0 (put_number payload p r.length n))
  unfolding encode_value raw_of_value
  compose_record-int n inside =
      finish (int n) _ (rw inside (encode_number-framed r h0 set_mark c payload p slot fits n))

  pub compose_record-float :
      (x : F) (raw : ℤ)
      → out_of_range ops (float x) r ≡ false
      → scaled_to_raw ops x r.scale ≡ ok raw
      → compose_record ops (float x) (framed h0 h1 (c ∷ payload)) r
        ≡ ok (set_frame h0 (put_number payload p r.length raw))
  unfolding encode_value raw_of_value
  compose_record-float x raw inside rounded =
      finish (float x) _
        (rw inside (rw rounded (encode_number-framed r h0 set_mark c payload p slot fits raw)))

-- A number outside the channel's range is refused, and no frame comes out.
pub compose_record-out_of_range :
    {F : Type 0} (ops : FloatOps F) (r : ChannelDefinition F) (value : Value F) (h0 h1 : ℕ)
    (middle : Bytes)
    → out_of_range ops value r ≡ true
    → compose_record ops value (framed h0 h1 middle) r ≡ err value_out_of_range
unfolding compose_record encode_value out_of_range
compose_record-out_of_range ops r (bool b) h0 h1 middle h = cc
compose_record-out_of_range ops r (int n) h0 h1 middle h = rw (store_mark h0 h1 middle) (rw h)
compose_record-out_of_range ops r (float x) h0 h1 middle h = rw (store_mark h0 h1 middle) (rw h)

-- Nor does one whose quotient by the scale cannot be rounded give a frame.
pub compose_record-no_raw :
    {F : Type 0} (ops : FloatOps F) (r : ChannelDefinition F) (x : F) (h0 h1 : ℕ) (middle : Bytes)
    (e : Exn)
    → out_of_range ops (float x) r ≡ false
    → scaled_to_raw ops x r.scale ≡ err e
    → compose_record ops (float x) (framed h0 h1 middle) r ≡ err e
unfolding compose_record encode_value raw_of_value
compose_record-no_raw ops r x h0 h1 middle e inside h =
    rw (store_mark h0 h1 middle) (rw inside (rw h))
