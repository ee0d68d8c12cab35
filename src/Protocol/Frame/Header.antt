-- ===== src/Protocol/Frame/Header.antt =====
-- What `verify_header` accepts, and what `create_request_message` sends.
use stiebel_eltron_heatpump.Prelude.{
  get_elem?-append, Bool, set-append, get_elem?-in_bounds, ℕ, zero, suc, ◌+◌, ◌<◌, ◌≡◌, ◌≢◌, refl,
  ap, ◌∙◌, ◌↔◌, ◌⊎◌, ◌∷◌, true, false, length, set, get_elem?, some, length-append, arith,
}
use stiebel_eltron_heatpump.Errors.{Exn, ok, err, is_protocol_error}
use stiebel_eltron_heatpump.Protocol.Frame.{
  add_duplicated_bytes, Bytes, footer, header_start, get_mark, set_mark, calculate_checksum,
  known_error, verify_header, header_check, request_frame, create_request_message,
  fix_duplicated_bytes,
}
use stiebel_eltron_heatpump.Protocol.Frame.Escaping.{framed, fix-add_duplicated_bytes}
use stiebel_eltron_heatpump.Protocol.Frame.Checksum.{
  AreBytes-get_elem?, AreBytes, frame_checksum, calculate_checksum-framed, byte_sum-set,
}

-- The header check passes exactly the frames with header start, a get or set byte and the checksum
-- of the rest.
pub header_check_iff :
    (h0 h1 c : ℕ) (payload : Bytes)
    → (header_check (framed h0 h1 (c ∷ payload)) ≡ true) ↔ (
        (h0 ≡ header_start)
        × ((h1 ≡ get_mark) ⊎ (h1 ≡ set_mark))
        × (c ≡ frame_checksum h0 h1 payload))
unfolding header_check
header_check_iff h0 h1 c payload =
    ground (arith, calculate_checksum-framed h0 h1 c payload, length-append payload footer)

-- Whatever the response, `verify_header` raises nothing but a kind of ProtocolError, so
-- `header_check` catches all that it raises.
pub verify_header_errors :
    (response : Bytes) (e : Exn) → verify_header response ≡ err e → is_protocol_error e ≡ true
unfolding verify_header is_protocol_error calculate_checksum known_error
verify_header_errors response e h = ground arith

not_true : (b : Bool) → b ≢ true → b ≡ false
not_true b h = ground arith

-- Two frames that differ in one payload byte cannot both pass.
payload_differs :
    (h0 h1 c : ℕ) (payload : Bytes) (i v : ℕ)
    → AreBytes payload
    → v < 256
    → i < length payload
    → get_elem? payload i ≢ some v
    → header_check (framed h0 h1 (c ∷ payload)) ≡ true
    → header_check (framed h0 h1 (c ∷ set payload i v)) ≢ true
payload_differs h0 h1 c payload i v are small inside differs before after =
    let (b, at_i) = get_elem?-in_bounds payload i inside in
    let b_small = AreBytes-get_elem? payload i are at_i in
    let x = (header_check_iff h0 h1 c payload).0 before in
    let y = (header_check_iff h0 h1 c (set payload i v)).0 after in
    let apart : b ≢ v = λ e. differs (at_i ∙ ap some e) in
    omega (arith, byte_sum-set payload i v at_i, x.2, y.2, b_small, apart)

-- The header check finds every single-byte corruption: if a frame passes and one of its bytes
-- before the footer is replaced by another byte, the result does not pass.
pub header_check-set :
    (h0 h1 c : ℕ) (payload : Bytes) (i v : ℕ)
    → AreBytes (h0 ∷ h1 ∷ c ∷ payload)
    → v < 256
    → i < length payload + 3
    → get_elem? (framed h0 h1 (c ∷ payload)) i ≢ some v
    → header_check (framed h0 h1 (c ∷ payload)) ≡ true
    → header_check (set (framed h0 h1 (c ∷ payload)) i v) ≡ false
header_check-set h0 h1 c payload zero v are small inside differs before = not_true _ λ after.
    differs (
      ap some (
        omega (
          arith,
          ((header_check_iff h0 h1 c payload).0 before).0,
          ((header_check_iff v h1 c payload).0 after).0,
        )))
header_check-set h0 h1 c payload (suc zero) v are small inside differs before =
    let x = (header_check_iff h0 h1 c payload).0 before in
    not_true _ λ after.
      let y = (header_check_iff h0 v c payload).0 after in
      differs (ap some (omega (arith, x.1, y.1, x.2, y.2)))
header_check-set h0 h1 c payload (suc (suc zero)) v are small inside differs before =
    let x = (header_check_iff h0 h1 c payload).0 before in
    not_true _ λ after.
      let y = (header_check_iff h0 h1 v payload).0 after in
      differs (ap some (omega (arith, x.2, y.2)))
header_check-set h0 h1 c payload (suc (suc (suc i))) v are small inside differs before =
    let fits : i < length payload = omega arith in
    rw (set-append payload footer i v fits) (
      not_true _ (
        payload_differs h0 h1 c payload i v are.1.1.1 small fits
          (rw (get_elem?-append payload footer i fits) at differs) before))

-- The message for a command, before it is escaped: header, checksum, command, footer.
pub request_frame-framed :
    (command : Bytes) (mark : ℕ)
    → request_frame command mark
      ≡ ok (framed header_start mark (frame_checksum header_start mark command ∷ command))
unfolding request_frame
request_frame-framed command mark = rw (calculate_checksum-framed header_start mark 0 command)

-- For a get or a set, the message of any command goes out, and what the receiver gets by
-- de-escaping it is a frame that passes the header check and carries the command unchanged.
pub create_request_message_lem :
    (command : Bytes) (mark : ℕ)
    → (mark ≡ get_mark) ⊎ (mark ≡ set_mark)
    → (message : Bytes) × (create_request_message command mark ≡ ok message)
      × (fix_duplicated_bytes message
          ≡ framed header_start mark (frame_checksum header_start mark command ∷ command))
      × (header_check (fix_duplicated_bytes message) ≡ true)
unfolding create_request_message
create_request_message_lem command mark h =
    let whole = frame_checksum header_start mark command ∷ command in
    let fixed =
      fix-add_duplicated_bytes header_start mark whole (omega arith, omega arith)
        (omega arith, omega arith) in
    (
      add_duplicated_bytes (framed header_start mark whole),
      rw (request_frame-framed command mark),
      fixed,
      rw fixed ((header_check_iff header_start mark _ command).1 (refl, h, refl)),
    )
