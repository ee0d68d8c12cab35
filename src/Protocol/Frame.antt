-- ===== src/Protocol/Frame.antt =====
-- The frames of stiebel_heatpump/protocol/parser.py: checksum, escaping, footer and header.
-- A `bytes` value is the list of its numbers.
pub mod Escaping
pub mod Footer
pub mod Prefix
pub mod Checksum
pub mod Header
use stiebel_eltron_heatpump.Prelude.{
  ℕ, zero, suc, ◌+◌, ◌-◌, ◌%◌, Bool, true, false, not, ◌&&◌, ◌||◌, List, [], ◌∷◌, ◌++◌, length,
  get_elem?, get_or, set, take, drop, Option, none, some, leb, ltb, ◌==◌, if◌then◌else◌,
}
use stiebel_eltron_heatpump.Errors.{
  KnownError, timing_issue, crc_error, unknown_command, unknown_register, device_error,
  short_response, no_header_start, neither_get_nor_set, bad_checksum, Exn, protocol_error,
  invalid_data, Result, ok, err, ◌>>=◌, ◌>>◌, raise_if,
}

abbrev pub Bytes : Type 0
Bytes = List ℕ

abbrev pub escape : ℕ
escape = 0x10

abbrev pub header_start : ℕ
header_start = 0x01

abbrev pub end : ℕ
end = 0x03

abbrev pub get_mark : ℕ
get_mark = 0x00

abbrev pub set_mark : ℕ
set_mark = 0x80

abbrev pub start_communication : ℕ
start_communication = 0x02

abbrev pub footer : Bytes
footer = escape ∷ end ∷ []

abbrev pub data_available : Bytes
data_available = escape ∷ start_communication ∷ []

-- The loop of `calculate_checksum` from index `i` on, over the bytes before the footer.
unfoldable pub sum_skipping : ℕ → Bytes → ℕ
sum_skipping i [] = 0
sum_skipping i (b ∷ bs) = (if i == 2 then 0 else b % 256) + sum_skipping (i + 1) bs

unfoldable pub calculate_checksum : Bytes → Result ℕ
unfolding sum_skipping
calculate_checksum frame =
    if ltb (length frame) 5
    then err invalid_data
    else ok (sum_skipping 0 (take (length frame - 2) frame) % 256)

-- The loop of `add_duplicated_bytes`.
unfoldable pub escape_bytes : Bytes → Bytes
escape_bytes [] = []
escape_bytes (b ∷ bs) =
    let rest = escape_bytes bs in
    b ∷ (if b == 0x10 then 0x10 ∷ rest else if b == 0x2B then 0x18 ∷ rest else rest)

unfoldable pub add_duplicated_bytes : Bytes → Bytes
unfolding escape_bytes
add_duplicated_bytes frame =
    take 2 frame
    ++ (escape_bytes (take (length frame - 4) (drop 2 frame)) ++ drop (length frame - 2) frame)

-- `bytes.replace` of the pair `a b` by the single byte `a`: left to right, without looking again at
-- what it has put out.
unfoldable pub replace_pair : ℕ → ℕ → Bytes → Bytes
replace_pair a b [] = []
replace_pair a b (x ∷ []) = x ∷ []
replace_pair a b (x ∷ y ∷ rest) = elim (x == a && y == b) [
  | true ↦ a ∷ replace_pair a b rest
  | false ↦ x ∷ replace_pair a b (y ∷ rest)
]

unfoldable pub fix_duplicated_bytes : Bytes → Bytes
unfolding replace_pair
fix_duplicated_bytes frame =
    if ltb (length frame) 2
    then frame
    else let body = take (length frame - 2) frame in
      replace_pair 0x2B 0x18 (replace_pair 0x10 0x10 body) ++ footer

-- The `while` loop of `is_frame_end`, from index `k - 1` down.
unfoldable pub count_escapes : Bytes → ℕ → ℕ
count_escapes buffer zero = 0
count_escapes buffer (suc k) =
    let rest = count_escapes buffer k in if get_or buffer k 0 == escape then rest + 1 else 0

-- `is_frame_end(buffer, length)`; the callers pass a length within the buffer.
unfoldable pub is_frame_end_at : Bytes → ℕ → Bool
unfolding count_escapes
is_frame_end_at buffer n =
    if ltb n 2 || not (get_or buffer (n - 1) 0 == end) || not (get_or buffer (n - 2) 0 == escape)
    then false
    else count_escapes buffer (n - 1) % 2 == 1

-- `is_frame_end(buffer)`
unfoldable pub is_frame_end : Bytes → Bool
unfolding is_frame_end_at
is_frame_end buffer = is_frame_end_at buffer (length buffer)

-- `_KNOWN_ERRORS`
unfoldable pub known_error : ℕ → ℕ → Option KnownError
known_error a b =
    if not (a == 0x01)
    then none
    else if b == 0x01
    then some timing_issue
    else if b == 0x02
    then some crc_error
    else if b == 0x03
    then some unknown_command
    else if b == 0x04
    then some unknown_register
    else none

unfoldable pub check_known_errors : Bytes → Result (Unit {0})
unfolding known_error
check_known_errors (a ∷ b ∷ rest) = elim (known_error a b) [
  | none ↦ ok tt
  | some e ↦ err (protocol_error (device_error e))
]
check_known_errors _ = ok tt

unfoldable pub verify_header : Bytes → Result (Unit {0})
unfolding check_known_errors
verify_header response = do
  raise_if (ltb (length response) 4) (protocol_error short_response)
  raise_if (not (get_or response 0 0 == header_start)) (protocol_error no_header_start)
  if not (get_or response 1 0 == get_mark) && not (get_or response 1 0 == set_mark)
      then (do check_known_errors response; err (protocol_error neither_get_nor_set))
      else ok tt
  checksum ← calculate_checksum response
  raise_if (not (get_or response 2 0 == checksum)) (protocol_error bad_checksum)

-- `verify_header` raises nothing but protocol errors (Frame/Header.antt), so the handler of
-- `header_check` takes every error.
unfoldable pub header_check : Bytes → Bool
unfolding verify_header
header_check response = elim (verify_header response) [ ok _ ↦ true | err _ ↦ false ]

-- A message of the header, the command and the footer, with its checksum, before it is escaped.
unfoldable pub request_frame : Bytes → ℕ → Result Bytes
request_frame request_byte get_or_set = do
  let message = header_start ∷ get_or_set ∷ 0x00 ∷ (request_byte ++ footer)
  checksum ← calculate_checksum message
  ok (set message 2 checksum)

unfoldable pub create_request_message : Bytes → ℕ → Result Bytes
unfolding request_frame
create_request_message request_byte get_or_set = do
  message ← request_frame request_byte get_or_set
  ok (add_duplicated_bytes message)
