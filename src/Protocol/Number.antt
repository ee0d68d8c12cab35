-- ===== src/Protocol/Number.antt =====
-- Numbers, bits and single bytes of stiebel_heatpump/protocol/parser.py.
pub mod Words
pub mod Bits
use Prim.Native.Nat.{bit_and, bit_or}
use stiebel_eltron_heatpump.Prelude.{
  ℕ, ◌+◌, ◌-◌, ◌*◌, ◌/◌, ◌%◌, ◌^◌, Bool, ℤ, pos, sub_ℕ, div_ℤ, mod_ℤ, length, get_elem?, set, leb,
  ltb, if◌then◌else◌,
}
use stiebel_eltron_heatpump.Errors.{index_error, Result, ok, err, ◌>>=◌, or_index_error}
use stiebel_eltron_heatpump.Protocol.Frame.{Bytes}

unfoldable pub signed_byte : ℕ → ℤ
signed_byte value = if leb 128 value then sub_ℕ value 256 else pos value

-- `struct.unpack(">h", raw)` and `struct.unpack(">i", raw)`: big-endian two's complement.
unfoldable pub unpack_short : ℕ → ℕ → ℤ
unpack_short high low =
    let value = high * 256 + low in if leb 32768 value then sub_ℕ value 65536 else pos value

unfoldable pub unpack_int : ℕ → ℕ → ℕ → ℕ → ℤ
unpack_int a b c d =
    let value = ((a * 256 + b) * 256 + c) * 256 + d in
    if leb 2147483648 value then sub_ℕ value 4294967296 else pos value

-- `[low, high]`
unfoldable pub short_to_bytes : ℤ → ℕ × ℕ
short_to_bytes value = (mod_ℤ value 256, mod_ℤ (div_ℤ value 256) 256)

unfoldable pub get_bit_from_bytes : Bytes → ℕ → Result Bool
get_bit_from_bytes raw bit_position = do
  byte ← or_index_error (get_elem? raw (bit_position / 8))
  ok (leb 1 (byte / 2 ^ (8 - (bit_position % 8 + 1)) % 2))

unfoldable pub set_bit : ℕ → ℕ → Bool → ℕ
set_bit byte_value bit_position value =
    let pos_bit = bit_position % 8 in
    let new_int : ℕ = if value then 1 else 0 in
    let old = bit_and (bit_and (0xFF7F / 2 ^ pos_bit) byte_value) 0x00FF in
    bit_or (new_int * 2 ^ (8 - (pos_bit + 1))) old % 256

-- `frame[i] = value` on a `bytearray`.
unfoldable pub store : Bytes → ℕ → ℕ → Result Bytes
store frame i value = if ltb i (length frame) then ok (set frame i value) else err index_error
