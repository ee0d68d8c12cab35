-- ===== src/Protocol/Frame/Checksum.antt =====
-- The checksum of a frame is the low byte of a sum that leaves out its own slot and the footer.
use stiebel_eltron_heatpump.Prelude.{
  ℕ, zero, suc, ◌+◌, ◌%◌, ◌<◌, ◌≡◌, refl, ap, [], ◌∷◌, length, set, get_elem?, some, length-append,
  arith, ltb, false,
}
use stiebel_eltron_heatpump.Errors.{ok}
use stiebel_eltron_heatpump.Protocol.Frame.{Bytes, footer, sum_skipping, calculate_checksum}
use stiebel_eltron_heatpump.Protocol.Frame.Escaping.{framed, take-framed}

-- Every byte is a byte.
abbrev pub AreBytes : Bytes → Type 0
AreBytes [] = Unit
AreBytes (b ∷ bs) = (b < 256) × AreBytes bs

unfoldable pub byte_sum : Bytes → ℕ
byte_sum [] = 0
byte_sum (b ∷ bs) = b % 256 + byte_sum bs

-- What the slot of a frame with this header and payload has to hold.
abbrev pub frame_checksum : ℕ → ℕ → Bytes → ℕ
frame_checksum h0 h1 payload = (h0 + h1 + byte_sum payload) % 256

sum_skipping-byte_sum : (i : ℕ) (bs : Bytes) → 2 < i → sum_skipping i bs ≡ byte_sum bs
unfolding sum_skipping byte_sum
sum_skipping-byte_sum i [] h = refl
sum_skipping-byte_sum i (b ∷ bs) h = ground (arith, sum_skipping-byte_sum (i + 1) bs)

pub calculate_checksum-framed :
    (h0 h1 c : ℕ) (payload : Bytes)
    → calculate_checksum (framed h0 h1 (c ∷ payload)) ≡ ok (frame_checksum h0 h1 payload)
unfolding calculate_checksum
calculate_checksum-framed h0 h1 c payload =
    let long : ltb (length (framed h0 h1 (c ∷ payload))) 5 ≡ false =
      ground (arith, length-append payload footer) in
    rw long (rw take-framed (ap ok (omega (arith, sum_skipping-byte_sum 3 payload (omega arith)))))

pub byte_sum-set :
    (payload : Bytes) (i v : ℕ) {b : ℕ}
    → get_elem? payload i ≡ some b
    → byte_sum (set payload i v) + b % 256 ≡ byte_sum payload + v % 256
unfolding byte_sum
byte_sum-set [] i v h = cc
byte_sum-set (x ∷ xs) zero v h = ground arith
byte_sum-set (x ∷ xs) (suc i) v h = omega (arith, byte_sum-set xs i v h)

pub AreBytes-get_elem? :
    (bs : Bytes) (i : ℕ) {b : ℕ} → AreBytes bs → get_elem? bs i ≡ some b → b < 256
AreBytes-get_elem? [] i a h = cc
AreBytes-get_elem? (x ∷ xs) zero a h = ground arith
AreBytes-get_elem? (x ∷ xs) (suc i) a h = AreBytes-get_elem? xs i a.1 h
