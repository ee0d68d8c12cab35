-- ===== src/Protocol/Number/Words.antt =====
-- `short_to_bytes` against `struct.unpack` and `_signed_byte`.
use stiebel_eltron_heatpump.Prelude.{
  ℕ, ◌<◌, ◌≤◌, ◌≡◌, ℤ, pos, negsuc, pos_part, neg_part, sub_ℕ, arith,
}
use stiebel_eltron_heatpump.Protocol.Number.{signed_byte, unpack_short, short_to_bytes}

-- The integers of a signed byte and of a signed 16-bit word.
abbrev pub FitsByte : ℤ → Type 0
FitsByte n = (pos_part n < 128) × (neg_part n ≤ 128)

abbrev pub FitsShort : ℤ → Type 0
FitsShort n = (pos_part n < 32768) × (neg_part n ≤ 32768)

-- Two bytes out and back.
pub unpack_short-short_to_bytes :
    (n : ℤ) → FitsShort n → unpack_short (short_to_bytes n).1 (short_to_bytes n).0 ≡ n
unfolding unpack_short short_to_bytes
unpack_short-short_to_bytes (pos n) h = ground arith
unpack_short-short_to_bytes (negsuc n) h = ground arith

pub signed_byte-short_to_bytes : (n : ℤ) → FitsByte n → signed_byte (short_to_bytes n).0 ≡ n
unfolding signed_byte short_to_bytes
signed_byte-short_to_bytes (pos n) h = ground arith
signed_byte-short_to_bytes (negsuc n) h = ground arith

-- A number from 128 to 255 comes back from one byte as a negative one.
pub signed_byte-wraps :
    (n : ℕ) → 128 ≤ n → n < 256 → signed_byte (short_to_bytes (pos n)).0 ≡ sub_ℕ n 256
unfolding signed_byte short_to_bytes
signed_byte-wraps n h k = ground arith

pub short_to_bytes-lt : (n : ℤ) → ((short_to_bytes n).0 < 256) × ((short_to_bytes n).1 < 256)
unfolding short_to_bytes
short_to_bytes-lt (pos n) = ground arith
short_to_bytes-lt (negsuc n) = ground arith
