-- ===== src/Protocol/Encode/RoundTrip.antt =====
-- A value that `compose_record` writes is the value that `parse_record` reads back.
use stiebel_eltron_heatpump.Prelude.{
  ℕ, ◌+◌, ◌≤◌, ◌≡◌, refl, ap, ◌∙◌, ℤ, [], ◌∷◌, length, set, get_elem?-set_self, get_elem?-set_ne,
  length-set, arith, true, false, ◌⊎◌, inl, inr,
}
use stiebel_eltron_heatpump.Errors.{Result, ok, err, ◌>>=◌}
use stiebel_eltron_heatpump.Models.{
  FloatOps, ChannelDefinition, int, float, integer, number, value_kind,
}
use stiebel_eltron_heatpump.Protocol.Frame.{Bytes, header_start, set_mark, header_check}
use stiebel_eltron_heatpump.Protocol.Frame.Escaping.{framed}
use stiebel_eltron_heatpump.Protocol.Frame.Header.{header_check_iff}
use stiebel_eltron_heatpump.Protocol.Number.{signed_byte, unpack_short, short_to_bytes}
use stiebel_eltron_heatpump.Protocol.Number.Words.{
  FitsByte, FitsShort, signed_byte-short_to_bytes, unpack_short-short_to_bytes,
}
use stiebel_eltron_heatpump.Protocol.Decode.{
  as_invalid_data, decode_number, parse_record, scale_number,
}
use stiebel_eltron_heatpump.Protocol.Decode.Slot.{slot_value, parse_record-framed}
use stiebel_eltron_heatpump.Protocol.Decode.Kind.{decode_number-integer, decode_number-number}
use stiebel_eltron_heatpump.Protocol.Encode.{compose_record, out_of_range, scaled_to_raw}
use stiebel_eltron_heatpump.Protocol.Encode.Shape.{
  set_frame, put_number, compose_record-int, compose_record-float,
}

-- A composed frame passes the header check.
pub header_check-set_frame :
    (payload : Bytes) → header_check (set_frame header_start payload) ≡ true
header_check-set_frame payload =
    (header_check_iff header_start set_mark _ payload).1 (refl, inr refl, refl)

-- The number that a record of one or two bytes can hold, by its length.
abbrev pub FitsLength : {F : Type 0} → ChannelDefinition F → ℤ → Type 0
FitsLength r n = ((r.length ≡ 1) × FitsByte n) ⊎ ((r.length ≡ 2) × FitsShort n)

bind_assoc :
    {A B C : Type 0} (a : Result A) (f : A → Result B) (g : B → Result C)
    → ((a >>= f) >>= g) ≡ (a >>= (λ x. f x >>= g))
bind_assoc (ok x) f g = refl
bind_assoc (err e) f g = refl

bind_assoc2 :
    {A B C D : Type 0} (a : Result A) (f : A → Result B) (g : B → Result C) (h : C → Result D)
    → ((a >>= (λ x. f x >>= g)) >>= h) ≡ (a >>= (λ x. f x >>= (λ y. g y >>= h)))
bind_assoc2 (ok x) f g h = bind_assoc (f x) g h
bind_assoc2 (err e) f g h = refl

bind_assoc3 :
    {A B C D E : Type 0} (a : Result A) (f : A → Result B) (g : B → Result C) (h : C → Result D)
    (k : D → Result E)
    → ((a >>= (λ x. f x >>= (λ y. g y >>= h))) >>= k)
      ≡ (a >>= (λ x. f x >>= (λ y. g y >>= (λ z. h z >>= k))))
bind_assoc3 (ok x) f g h k = bind_assoc2 (f x) g h k
bind_assoc3 (err e) f g h k = refl

module _ {F : Type 0} (ops : FloatOps F) (r : ChannelDefinition F) (payload : Bytes) (p : ℕ)
    (fits : p + r.length ≤ length payload) where
  pub slot_value-put_number_one :
      (n : ℤ)
      → r.length ≡ 1
      → slot_value ops (put_number payload p r.length n) p r
        ≡ decode_number ops ((short_to_bytes n).0 ∷ []) (signed_byte (short_to_bytes n).0) r
  slot_value-put_number_one n one =
      let low = (short_to_bytes n).0 in
      let at_p = get_elem?-set_self payload p low (omega arith) in ground arith

  slot_value-put_number_two :
      (n : ℤ)
      → r.length ≡ 2
      → slot_value ops (put_number payload p r.length n) p r
        ≡ decode_number ops
            ((short_to_bytes n).1 ∷ (short_to_bytes n).0 ∷ [])
            (unpack_short (short_to_bytes n).1 (short_to_bytes n).0)
            r
  slot_value-put_number_two n two =
      let (low, high) = short_to_bytes n in
      let first =
        get_elem?-set_ne (set payload p high) (p + 1) p low (omega arith)
        ∙ get_elem?-set_self payload p high (omega arith) in
      let second =
        get_elem?-set_self (set payload p high) (p + 1) low
          (omega (arith, length-set payload p high)) in
      ground arith

  pub length-put_number : (n : ℤ) → length (put_number payload p r.length n) ≡ length payload
  length-put_number n =
      let (low, high) = short_to_bytes n in
      ground (
        arith,
        length-set payload p low,
        length-set payload p high,
        length-set (set payload p high) (p + 1) low,
      )

  -- The bytes of a number that fits are decoded as that number.
  pub slot_value-put_number :
      (n : ℤ)
      → FitsLength r n
      → (raw : Bytes) × (slot_value ops (put_number payload p r.length n) p r
          ≡ decode_number ops raw n r)
  slot_value-put_number n (inl (one, small)) = (
    _,
    slot_value-put_number_one n one
        ∙ ap (λ (k : ℤ). decode_number ops ((short_to_bytes n).0 ∷ []) k r)
            (signed_byte-short_to_bytes n small),
  )
  slot_value-put_number n (inr (two, small)) = (
    _,
    slot_value-put_number_two n two
        ∙ ap (λ (k : ℤ). decode_number ops ((short_to_bytes n).1 ∷ (short_to_bytes n).0 ∷ []) k r)
            (unpack_short-short_to_bytes n small),
  )

  parse_record-put_number :
      (n : ℤ)
      → r.position ≡ p + 3
      → FitsLength r n
      → (raw : Bytes) × (parse_record ops
            (set_frame header_start (put_number payload p r.length n))
            r
          ≡ as_invalid_data (decode_number ops raw n r))
  parse_record-put_number n slot small =
      let payload' = put_number payload p r.length n in
      let (raw, e) = slot_value-put_number n small in
      (
        raw,
        parse_record-framed ops r header_start set_mark _ payload' p slot
              (omega (arith, length-put_number n))
            ∙ ap as_invalid_data e,
      )

  -- An integer channel of one or two bytes reads back exactly the integer that was written, if its
  -- bytes can hold it and the channel allows it, in a frame that passes the header check.
  pub parse-compose_record-int :
      (h1 c : ℕ) (n : ℤ)
      → r.position ≡ p + 3
      → value_kind ops r ≡ integer
      → FitsLength r n
      → out_of_range ops (int n) r ≡ false
      → (frame : Bytes) × (compose_record ops (int n) (framed header_start h1 (c ∷ payload)) r
          ≡ ok frame)
        × (parse_record ops frame r ≡ ok (int n))
        × (header_check frame ≡ true)
  parse-compose_record-int h1 c n slot kind small inside =
      let payload' = put_number payload p r.length n in
      let (raw, e) = parse_record-put_number n slot small in
      (
        set_frame header_start payload',
        compose_record-int ops r header_start h1 c payload p slot fits n inside,
        e ∙ ap as_invalid_data (decode_number-integer ops r raw n kind (omega arith)),
        header_check-set_frame payload',
      )

  -- A scaled channel of one or two bytes stores the floor of the quotient of the requested value and
  -- the scale plus one half, if its bytes can hold that and the value is inside its limits. It reads
  -- back that number times the scale and times a hundred, plus one half, its floor, divided by a
  -- hundred, or invalid data if a step of this fails.
  pub parse-compose_record-float :
      (h1 c : ℕ) (x quotient : F) (n : ℤ)
      → r.position ≡ p + 3
      → value_kind ops r ≡ number
      → ops.div x r.scale ≡ ok quotient
      → ops.floor (ops.add quotient ops.half) ≡ ok n
      → FitsLength r n
      → out_of_range ops (float x) r ≡ false
      → (frame : Bytes) × (compose_record ops (float x) (framed header_start h1 (c ∷ payload)) r
          ≡ ok frame)
        × (parse_record ops frame r
            ≡ as_invalid_data (do
              stored ← ops.of_int n
              cents ← ops.floor (ops.add (ops.mul (ops.mul stored r.scale) ops.hundred) ops.half)
              rounded ← ops.of_int cents
              y ← ops.div rounded ops.hundred
              ok (float y)))
        × (header_check frame ≡ true)
  unfolding scaled_to_raw scale_number
  parse-compose_record-float h1 c x quotient n slot kind divided floored small inside =
      let payload' = put_number payload p r.length n in
      let (raw, e) = parse_record-put_number n slot small in
      (
        set_frame header_start payload',
        compose_record-float ops r header_start h1 c payload p slot fits x n inside
            (rw divided floored),
        e
            ∙ ap as_invalid_data (
                decode_number-number ops r raw n kind
                ∙ bind_assoc3 (ops.of_int n) _ ops.of_int _ (λ y. ok (float y))),
        header_check-set_frame payload',
      )
