-- ===== src/Simulator/Seeding/Laws.antt =====
-- Seeded values against written and read ones.
use stiebel_eltron_heatpump.Prelude.{
  ℕ, suc, ◌+◌, ◌-◌, ◌%◌, ◌≡◌, refl, ◌∷◌, length, take, true, false, inl, inr, arith, ℤ,
}
use stiebel_eltron_heatpump.Errors.{ok, Result-cases}
use stiebel_eltron_heatpump.Models.{FloatOps, Value, bool, int, float, ChannelDefinition}
use stiebel_eltron_heatpump.Protocol.Frame.{
  Bytes, header_start, get_mark, header_check, verify_header, calculate_checksum, sum_skipping,
}
use stiebel_eltron_heatpump.Protocol.Number.{store}
use stiebel_eltron_heatpump.Protocol.Encode.{
  encode_number, encode_bool, scaled_to_raw, encode_value, raw_of_value, out_of_range,
}
use stiebel_eltron_heatpump.Simulator.{with_checksum, mark_get}
use stiebel_eltron_heatpump.Simulator.Seeding.{encode, encode_short}

pub encode_short-encode_number :
    {F : Type 0} (frame : Bytes) (n : ℤ) (r : ChannelDefinition F)
    → encode_short frame n r ≡ encode_number frame n r
unfolding encode_short encode_number
encode_short-encode_number frame n r = refl

-- A seeded value and a written one encode to the same bytes: for every value that the channel's range
-- allows, bool, integer or float, the simulator's encoder and that of `compose_record` agree.
pub encode-encode_value :
    {F : Type 0} (ops : FloatOps F) (frame : Bytes) (r : ChannelDefinition F) (value : Value F)
    → out_of_range ops value r ≡ false
    → encode ops frame r value ≡ encode_value ops value frame r
unfolding encode encode_value raw_of_value
encode-encode_value ops frame r (bool b) h = unfold encode_bool in refl
encode-encode_value ops frame r (int n) h = rw h (encode_short-encode_number frame n r)
encode-encode_value ops frame r (float x) h = elim (Result-cases (scaled_to_raw ops x r.scale)) [
  | inl (n, e) ↦ rw (h, e) (encode_short-encode_number frame n r)
  | inr (y, e) ↦ rw (h, e)
]

-- The checksum of a frame of five bytes or more does not depend on its own slot.
checksum_of : ℕ → ℕ → Bytes → ℕ
checksum_of a b rest = (a % 256 + (b % 256 + sum_skipping 3 (take (length rest - 2) rest))) % 256

calculate_checksum-slot :
    (a b c d e : ℕ) (rest : Bytes)
    → calculate_checksum (a ∷ b ∷ c ∷ d ∷ e ∷ rest) ≡ ok (checksum_of a b (d ∷ e ∷ rest))
unfolding calculate_checksum sum_skipping checksum_of
calculate_checksum-slot a b c d e rest =
    let k : length (a ∷ b ∷ c ∷ d ∷ e ∷ rest) - 2 ≡ suc (suc (suc (length rest))) = omega arith in
    let k' : length (d ∷ e ∷ rest) - 2 ≡ length rest = omega arith in rw (k, k') (ground arith)

-- The mark and the checksum turn every frame with a header start that has room for them into one
-- that passes the header check.
pub header_check-mark_get :
    (b c d e : ℕ) (rest : Bytes)
    → (frame : Bytes) × (mark_get (header_start ∷ b ∷ c ∷ d ∷ e ∷ rest) ≡ ok frame)
      × (header_check frame ≡ true)
unfolding mark_get with_checksum store header_check verify_header
header_check-mark_get b c d e rest =
    let x = checksum_of header_start get_mark (d ∷ e ∷ rest) in
    (
      header_start ∷ get_mark ∷ x ∷ d ∷ e ∷ rest,
      ground (arith, calculate_checksum-slot header_start get_mark c d e rest),
      ground (arith, calculate_checksum-slot header_start get_mark x d e rest),
    )
