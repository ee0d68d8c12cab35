-- ===== src/Protocol/Hex.antt =====
-- `bytes_to_hex` and `hex_to_bytes` of stiebel_heatpump/protocol/parser.py.
use stiebel_eltron_heatpump.Prelude.{
  arith, ◌≡◌, refl, ◌<◌, ℕ, ◌+◌, ◌*◌, ◌/◌, ◌%◌, [], ◌∷◌, false, ltb, ◌==◌, if◌then◌else◌,
}
use stiebel_eltron_heatpump.Errors.{Result, ok}
use stiebel_eltron_heatpump.Models.{Text}
use stiebel_eltron_heatpump.Config.{upper, is_space, hex_digit, from_hex}
use stiebel_eltron_heatpump.Protocol.Frame.{Bytes}
use stiebel_eltron_heatpump.Protocol.Frame.Checksum.{AreBytes}

-- A digit as `bytes.hex` writes it.
abbrev pub digit : ℕ → ℕ
digit d = if ltb d 10 then d + 48 else d + 87

-- `bytes.hex`
unfoldable pub hex : Bytes → Text
hex [] = []
hex (b ∷ data_bytes) = digit (b / 16) ∷ digit (b % 16) ∷ hex data_bytes

unfoldable pub bytes_to_hex : Bytes → Text
bytes_to_hex data_bytes = upper (hex data_bytes)

-- `text.replace(" ", "")`
unfoldable pub without_blanks : Text → Text
without_blanks [] = []
without_blanks (c ∷ text) = let rest = without_blanks text in if c == 32 then rest else c ∷ rest

unfoldable pub hex_to_bytes : Text → Result Bytes
hex_to_bytes text = from_hex (without_blanks text)

-- A digit of a text that is in upper case.
abbrev upper_digit : ℕ → ℕ
upper_digit d = if ltb d 10 then d + 48 else d + 55

upper-hex :
    (b : ℕ) (data_bytes : Bytes)
    → b < 256
    → upper (hex (b ∷ data_bytes))
      ≡ upper_digit (b / 16) ∷ upper_digit (b % 16) ∷ upper (hex data_bytes)
unfolding upper hex
upper-hex b data_bytes h =
    let high : b / 16 < 16 = omega arith in let low : b % 16 < 16 = omega arith in ground arith

without_blanks-digit :
    (d : ℕ) (text : Text)
    → d < 16
    → without_blanks (upper_digit d ∷ text) ≡ upper_digit d ∷ without_blanks text
unfolding without_blanks
without_blanks-digit d text h = ground arith

hex_digit-upper_digit : (d : ℕ) → d < 16 → hex_digit (upper_digit d) ≡ ok d
unfolding hex_digit
hex_digit-upper_digit d h = ground arith

is_space-upper_digit : (d : ℕ) → d < 16 → is_space (upper_digit d) ≡ false
unfolding is_space
is_space-upper_digit d h = ground arith

-- The hexadecimal text of bytes is read back to these bytes.
pub hex_to_bytes-bytes_to_hex :
    (data_bytes : Bytes)
    → AreBytes data_bytes
    → hex_to_bytes (bytes_to_hex data_bytes) ≡ ok data_bytes
unfolding hex_to_bytes bytes_to_hex from_hex
hex_to_bytes-bytes_to_hex [] h = unfold hex upper without_blanks from_hex in refl
hex_to_bytes-bytes_to_hex (b ∷ data_bytes) h =
    let small : b < 256 = h.0 in
    let high : b / 16 < 16 = omega arith in
    let low : b % 16 < 16 = omega arith in
    let rest : hex_to_bytes (bytes_to_hex data_bytes) ≡ ok data_bytes =
      hex_to_bytes-bytes_to_hex data_bytes h.1 in
    let value : b / 16 * 16 + b % 16 ≡ b = omega arith in
    rw
      (
        upper-hex b data_bytes small,
        without_blanks-digit (b / 16) (upper_digit (b % 16) ∷ upper (hex data_bytes)) high,
        without_blanks-digit (b % 16) (upper (hex data_bytes)) low,
        from_hex,
        is_space-upper_digit (b / 16) high,
        hex_digit-upper_digit (b / 16) high,
        hex_digit-upper_digit (b % 16) low,
        rest,
        value,
      )
      refl
