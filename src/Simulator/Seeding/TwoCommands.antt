-- ===== src/Simulator/Seeding/TwoCommands.antt =====
-- A seeded value that spans two commands is the value that `parse_records` recombines.
use stiebel_eltron_heatpump.Prelude.{
  ℕ, ◌+◌, ◌≤◌, ◌≡◌, ◌≢◌, ap, ◌∙◌, sym, [], ◌∷◌, length, some, true, false, arith, ℤ, pos, negsuc,
  div_ℤ, mod_ℤ, ◌+ℤ◌, ◌*ℤ◌, list_eq, list_eq_iff, Bool-cases, inl, inr, ltb, ==_ne,
}
use stiebel_eltron_heatpump.Errors.{Result, ok}
use stiebel_eltron_heatpump.Dict.{Dict, lookup, insert, lookup-insert, lookup-insert_self}
use stiebel_eltron_heatpump.Models.{
  Text, FloatOps, Conversions, int, integer, value_kind, ChannelDefinition,
}
use stiebel_eltron_heatpump.Config.{Request, given}
use stiebel_eltron_heatpump.Protocol.Frame.{Bytes, header_start, get_mark, header_check}
use stiebel_eltron_heatpump.Protocol.Frame.Escaping.{framed}
use stiebel_eltron_heatpump.Protocol.Decode.{
  combine_values, as_invalid_data, parse_record, parse_records, parse_loop, parse_into,
  combine_response, is_short_result,
}
use stiebel_eltron_heatpump.Protocol.Decode.Slot.{parse_record-framed}
use stiebel_eltron_heatpump.Protocol.Decode.Kind.{decode_number-integer}
use stiebel_eltron_heatpump.Protocol.Encode.Shape.{put_number, encode_number-framed}
use stiebel_eltron_heatpump.Protocol.Encode.RoundTrip.{
  FitsLength, slot_value-put_number, length-put_number,
}
use stiebel_eltron_heatpump.Simulator.{mark_get}
use stiebel_eltron_heatpump.Simulator.Answers.{get_frame, mark_get-framed}
use stiebel_eltron_heatpump.Simulator.Stack.{stored-header_check}
use stiebel_eltron_heatpump.Simulator.Seeding.{
  encode, modify, int_of_value, encode_parts, set_in_request,
}
use stiebel_eltron_heatpump.Simulator.Seeding.Laws.{encode_short-encode_number}

-- The two parts of a number make up the number.
recombined : (n : ℤ) → div_ℤ n 1000 *ℤ pos 1000 +ℤ pos (mod_ℤ n 1000) ≡ n
recombined (pos n) = ground arith
recombined (negsuc n) = ground arith

modify-ok :
    (key : Text) (change : Bytes → Result Bytes) (frames : Dict Bytes) (frame changed : Bytes)
    → lookup key frames ≡ some frame
    → change frame ≡ ok changed
    → modify key change frames ≡ ok (insert key changed frames)
unfolding modify
modify-ok key change frames frame changed e f = rw (e, f)

module _ {F : Type 0} (ops : FloatOps F) (r : ChannelDefinition F) (p : ℕ)
    (slot : r.position ≡ p + 3) where
  encode-framed :
      (c : ℕ) (payload : Bytes) (n : ℤ)
      → p + r.length ≤ length payload
      → encode ops (framed header_start get_mark (c ∷ payload)) r (int n)
        ≡ ok (framed header_start get_mark (c ∷ put_number payload p r.length n))
  unfolding encode
  encode-framed c payload n fits =
      encode_short-encode_number (framed header_start get_mark (c ∷ payload)) n r
      ∙ encode_number-framed r header_start get_mark c payload p slot fits n

  pub parse_record-get_frame :
      (payload : Bytes) (n : ℤ)
      → p + r.length ≤ length payload
      → value_kind ops r ≡ integer
      → FitsLength r n
      → parse_record ops (get_frame header_start (put_number payload p r.length n)) r ≡ ok (int n)
  parse_record-get_frame payload n fits kind small =
      let payload' = put_number payload p r.length n in
      let (raw, e) = slot_value-put_number ops r payload p fits n small in
      parse_record-framed ops r header_start get_mark _ payload' p slot
        (omega (arith, length-put_number ops r payload p fits n))
      ∙ ap as_invalid_data (e ∙ decode_number-integer ops r raw n kind (omega arith))

  parse_records-two :
      (frame frame2 : Bytes) (n : ℤ)
      → r.length ≢ 4
      → ltb (length frame) 2 ≡ false
      → ltb (length frame2) 2 ≡ false
      → parse_record ops frame r ≡ ok (int (pos (mod_ℤ n 1000)))
      → parse_record ops frame2 r ≡ ok (int (div_ℤ n 1000))
      → parse_records ops frame (r ∷ []) (some frame2) ≡ ok ((r.channel_id, int n) ∷ [])
  unfolding parse_records parse_loop parse_into combine_response combine_values is_short_result
      insert
  parse_records-two frame frame2 n short long long2 low high = rw (
    long,
    long2,
    parse_loop,
    parse_into,
    low,
    combine_response,
    is_short_result,
    ==_ne short,
    high,
    combine_values,
    recombined n,
  )

-- Another key's value stays.
lookup-insert_other :
    {V : Type 0} (key j : Text) (v : V) (d : Dict V)
    → key ≢ j
    → lookup j (insert key v d) ≡ lookup j d
lookup-insert_other key j v d other = elim (Bool-cases (list_eq key j)) [
  | inl same ↦ absurd (other ((list_eq_iff key j).0 same))
  | inr differ ↦ lookup-insert key j v d ∙ rw differ
]

module _ {F : Type 0} (ops : FloatOps F) (conv : Conversions F) (r : ChannelDefinition F)
    (request : Request F) (key2 : Text) (frames : Dict Bytes) (c1 c2 : ℕ) (payload payload2 : Bytes)
    (p : ℕ) (slot : r.position ≡ p + 3) (fits : p + r.length ≤ length payload)
    (fits2 : p + r.length ≤ length payload2) (two : given request.request_byte2 ≡ some key2)
    (differ : request.request_byte ≢ key2)
    (stored : lookup request.request_byte frames
      ≡ some (framed header_start get_mark (c1 ∷ payload)))
    (stored2 : lookup key2 frames ≡ some (framed header_start get_mark (c2 ∷ payload2)))
    (n : ℤ) where
  abbrev low : Bytes
  low = put_number payload p r.length (pos (mod_ℤ n 1000))

  abbrev high : Bytes
  high = put_number payload2 p r.length (div_ℤ n 1000)

  encode_parts-two :
      (frames' : Dict Bytes) × (encode_parts ops conv request r (int n) (some key2) frames
        ≡ ok frames')
      × (lookup request.request_byte frames' ≡ some (framed header_start get_mark (c1 ∷ low)))
      × (lookup key2 frames' ≡ some (get_frame header_start high))
  unfolding encode_parts int_of_value
  encode_parts-two =
      let key = request.request_byte in
      let frame1 = framed header_start get_mark (c1 ∷ low) in
      let frame2 = framed header_start get_mark (c2 ∷ high) in
      let last = get_frame header_start high in
      let frames1 = insert key frame1 frames in
      let frames2 = insert key2 frame2 frames1 in
      let step1 =
        modify-ok key (λ frame. encode ops frame r (int (pos (mod_ℤ n 1000)))) frames _ frame1
          stored (encode-framed ops r p slot c1 payload (pos (mod_ℤ n 1000)) fits) in
      let step2 =
        modify-ok key2 (λ frame. encode ops frame r (int (div_ℤ n 1000))) frames1 _ frame2
          (lookup-insert_other key key2 frame1 frames differ ∙ stored2)
          (encode-framed ops r p slot c2 payload2 (div_ℤ n 1000) fits2) in
      let step3 =
        modify-ok key2 mark_get frames2 frame2 last (lookup-insert_self key2 frame2 frames1)
          (mark_get-framed header_start get_mark c2 high) in
      (
        insert key2 last frames2,
        rw (step1, step2, step3),
        lookup-insert_other key2 key last frames2 (λ e. differ (sym e))
            ∙ lookup-insert_other key2 key frame2 frames1 (λ e. differ (sym e))
            ∙ lookup-insert_self key frame1 frames,
        lookup-insert_self key2 last frames2,
      )

  seeded :
      (frames' : Dict Bytes) × (set_in_request ops conv r (int n) (some request) frames
        ≡ ok frames')
      × (lookup request.request_byte frames' ≡ some (get_frame header_start low))
      × (lookup key2 frames' ≡ some (get_frame header_start high))
  unfolding set_in_request
  seeded =
      let key = request.request_byte in
      let (frames', e, at_key, at_key2) = encode_parts-two in
      let last = get_frame header_start low in
      let step =
        modify-ok key mark_get frames' _ last at_key
          (mark_get-framed header_start get_mark c1 low) in
      (
        insert key last frames',
        rw (two, e, step),
        lookup-insert_self key last frames',
        lookup-insert_other key key2 last frames' differ ∙ at_key2,
      )

  -- An integer that is seeded for a channel of two commands, `value % 1000` into the frame of the
  -- first and `value // 1000` into that of the second, is what `parse_records` recombines from the two
  -- frames, and both pass the header check, if the channel is an integer of one or two bytes in which
  -- both parts fit, lies inside both payloads, and the commands differ. Negative numbers too.
  pub set_in_request-parse_records :
      value_kind ops r ≡ integer
      → FitsLength r (pos (mod_ℤ n 1000))
      → FitsLength r (div_ℤ n 1000)
      → (frames' : Dict Bytes) × (frame frame2 : Bytes) × (set_in_request ops conv r
            (int n)
            (some request)
            frames
          ≡ ok frames')
        × (lookup request.request_byte frames' ≡ some frame)
        × (lookup key2 frames' ≡ some frame2)
        × (parse_records ops frame (r ∷ []) (some frame2) ≡ ok ((r.channel_id, int n) ∷ []))
        × (header_check frame ≡ true)
        × (header_check frame2 ≡ true)
  set_in_request-parse_records kind small small2 =
      let (frames', e, at_key, at_key2) = seeded in
      (
        frames',
        get_frame header_start low,
        get_frame header_start high,
        e,
        at_key,
        at_key2,
        parse_records-two ops r p slot (get_frame header_start low) (get_frame header_start high) n
            (omega arith) (ground arith) (ground arith)
            (parse_record-get_frame ops r p slot payload (pos (mod_ℤ n 1000)) fits kind small)
            (parse_record-get_frame ops r p slot payload2 (div_ℤ n 1000) fits2 kind small2),
        stored-header_check low,
        stored-header_check high,
      )
