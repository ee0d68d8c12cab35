-- ===== src/Tests/Frames.antt =====
-- Frames: test_parser.py and the theorems of Protocol/Frame at concrete inputs.
use stiebel_eltron_heatpump.Prelude.{[], ◌∷◌, ◌≡◌, refl, true, arith}
use stiebel_eltron_heatpump.Errors.{ok, err, protocol_error, device_error, timing_issue}
use stiebel_eltron_heatpump.Protocol.Frame.{
  Bytes, footer, get_mark, calculate_checksum, add_duplicated_bytes, fix_duplicated_bytes,
  verify_header, header_check, create_request_message, request_frame,
}
use stiebel_eltron_heatpump.Protocol.Frame.Escaping.{framed, fix-add_duplicated_bytes}

-- test_checksum_matches_binding
checksum_of_version : calculate_checksum (0x01 ∷ 0x00 ∷ 0xFE ∷ 0xFD ∷ footer) ≡ ok 0xFE
unfolding calculate_checksum
checksum_of_version = refl

-- test_create_request_message_version
version_request :
    create_request_message (0xFD ∷ []) get_mark ≡ ok (0x01 ∷ 0x00 ∷ 0xFE ∷ 0xFD ∷ footer)
unfolding create_request_message request_frame calculate_checksum add_duplicated_bytes
version_request = refl

-- test_escaping_roundtrip
escaped_vector :
    add_duplicated_bytes (0x01 ∷ 0x00 ∷ 0x00 ∷ 0x10 ∷ 0x2B ∷ 0x05 ∷ footer)
    ≡ 0x01 ∷ 0x00 ∷ 0x00 ∷ 0x10 ∷ 0x10 ∷ 0x2B ∷ 0x18 ∷ 0x05 ∷ footer
unfolding add_duplicated_bytes
escaped_vector = refl

abbrev tricky : Bytes
tricky = 0x00 ∷ 0x2B ∷ 0x10 ∷ 0x03 ∷ []

fix-add_duplicated_bytes_example :
    fix_duplicated_bytes (add_duplicated_bytes (framed 0x01 0x00 tricky)) ≡ framed 0x01 0x00 tricky
fix-add_duplicated_bytes_example =
    fix-add_duplicated_bytes 0x01 0x00 tricky (omega arith, omega arith) (omega arith, omega arith)

-- A device error: 01 01 8C 0B 10 03.
refused :
    verify_header (0x01 ∷ 0x01 ∷ 0x8C ∷ 0x0B ∷ footer)
    ≡ err (protocol_error (device_error timing_issue))
unfolding verify_header
refused = refl

version_is_valid : header_check (framed 0x01 0x00 (0xFE ∷ 0xFD ∷ [])) ≡ true
unfolding header_check calculate_checksum
version_is_valid = refl
