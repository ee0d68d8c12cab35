-- ===== src/Communication/Confirmed.antt =====
-- A write of one value, when the device confirms it and when it does not.
use stiebel_eltron_heatpump.Prelude.{
  ap, sym, ◌++◌, ℕ, ◌+◌, ◌≤◌, ◌≡◌, ◌≢◌, ◌∙◌, false, [], ◌∷◌, ℤ, length, list_eq, list_eq_iff, inl,
  inr, Bool-cases,
}
use stiebel_eltron_heatpump.Errors.{ok-injective, ok, err, Exn, write_not_confirmed}
use stiebel_eltron_heatpump.Dict.{insert}
use stiebel_eltron_heatpump.Models.{FloatOps, Value, int, integer, value_kind, ChannelDefinition}
use stiebel_eltron_heatpump.Config.{from_hex}
use stiebel_eltron_heatpump.Items.{compose_items, parse_items, confirm, first_command}
use stiebel_eltron_heatpump.Protocol.Frame.{
  footer, Bytes, header_start, verify_header, add_duplicated_bytes,
}
use stiebel_eltron_heatpump.Protocol.Frame.Escaping.{framed}
use stiebel_eltron_heatpump.Protocol.Frame.Header.{verify_header_errors}
use stiebel_eltron_heatpump.Protocol.Decode.{parse_record}
use stiebel_eltron_heatpump.Protocol.Encode.{compose_record, out_of_range}
use stiebel_eltron_heatpump.Protocol.Encode.RoundTrip.{FitsLength, parse-compose_record-int}
use stiebel_eltron_heatpump.Protocol.Transport.{Transport}
use stiebel_eltron_heatpump.Protocol.Connector.{get_data, set_data}
use stiebel_eltron_heatpump.Communication.{
  message_for, write_frame, write_read, write_values, write_data,
}

list_eq_ne : (xs ys : Bytes) → xs ≢ ys → list_eq xs ys ≡ false
list_eq_ne xs ys h = elim (Bool-cases (list_eq xs ys)) [
  | inl e ↦ absurd (h ((list_eq_iff xs ys).0 e))
  | inr e ↦ e
]

module _ (t : Transport) {F : Type 0} (ops : FloatOps F) (r : ChannelDefinition F) where
  compose_items-one :
      (value : Value F) (frame updated : Bytes)
      → compose_record ops value frame r ≡ ok updated
      → compose_items ops ((value, r) ∷ []) frame ≡ ok updated
  unfolding compose_items
  compose_items-one value frame updated h = rw h

  parse_items-one :
      (value new_value : Value F) (frame : Bytes)
      → parse_record ops frame r ≡ ok value
      → parse_items ops frame ((new_value, r) ∷ []) [] ≡ ok ((r.channel_id, value) ∷ [])
  unfolding parse_items insert
  parse_items-one value new_value frame h = rw h

  -- The steps of a write up to the answer of the device.
  pub record Written (value : Value F) (s : t.State) (response updated answer : Bytes)
      (s2 : t.State) : Type 0 where
    pub message : Bytes
    pub s1 : t.State
    pub command : message_for (from_hex r.request_byte) ≡ ok message
    pub read : get_data t message s ≡ (ok response, s1)
    pub other : message ≢ response
    pub composed : compose_record ops value response r ≡ ok updated
    pub sent : set_data t (add_duplicated_bytes updated) s1 ≡ (ok answer, s2)

  module _ (value : Value F) (s s2 : t.State) (b : ℕ) (bs updated answer : Bytes)
      (w : Written value s (b ∷ bs) updated answer s2) where
    write_frame-Written :
        write_frame t ops (b ∷ bs) ((value, r) ∷ []) w.s1
        ≡ (confirm ops (b ∷ bs) updated ((value, r) ∷ []) (verify_header answer), s2)
    unfolding write_frame
    write_frame-Written = rw (compose_items-one value (b ∷ bs) updated w.composed, w.sent)

    write_data-Written :
        write_data t ops value r s
        ≡ (confirm ops (b ∷ bs) updated ((value, r) ∷ []) (verify_header answer), s2)
    unfolding write_data write_values write_read first_command
    write_data-Written =
        rw (w.command, w.read, list_eq_ne w.message (b ∷ bs) w.other, write_frame-Written)

    -- If the device confirms a write, then `write_data` returns the channel with the value that the
    -- frame as sent decodes to.
    write_data-confirmed :
        (stored : Value F)
        → parse_record ops updated r ≡ ok stored
        → verify_header answer ≡ ok tt
        → write_data t ops value r s ≡ (ok ((r.channel_id, stored) ∷ []), s2)
    unfolding confirm
    write_data-confirmed stored p v =
        write_data-Written ∙ rw (v, parse_items-one stored value updated p)

    -- If the channel's frame is read and decodes, is not the request message itself, and the device
    -- answers the write with no valid header, whatever the reason, then `write_data` raises
    -- WriteNotConfirmed.
    pub write_data-refused :
        (old : Value F) (e : Exn)
        → parse_record ops (b ∷ bs) r ≡ ok old
        → verify_header answer ≡ err e
        → write_data t ops value r s ≡ (err write_not_confirmed, s2)
    unfolding confirm
    write_data-refused old e p v =
        write_data-Written
        ∙ rw (v, verify_header_errors answer e v, parse_items-one old value (b ∷ bs) p)

  module _ (h1 c p : ℕ) (payload updated answer : Bytes) (s s2 : t.State)
      (fits : p + r.length ≤ length payload) where
    -- If the channel's frame is read, is not the request message itself, and the device confirms the
    -- write of an integer that the channel allows and its bytes can hold, then `write_data` returns
    -- the channel with that integer, and the frame that was sent decodes to it.
    pub write_data-int :
        (n : ℤ)
        → Written (int n) s (framed header_start h1 (c ∷ payload)) updated answer s2
        → r.position ≡ p + 3
        → value_kind ops r ≡ integer
        → FitsLength r n
        → out_of_range ops (int n) r ≡ false
        → verify_header answer ≡ ok tt
        → (write_data t ops (int n) r s ≡ (ok ((r.channel_id, int n) ∷ []), s2))
          × (parse_record ops updated r ≡ ok (int n))
    write_data-int n w slot kind small inside confirmed =
        let (frame, e, back, _) =
          parse-compose_record-int ops r payload p fits h1 c n slot kind small inside in
        let stored : parse_record ops updated r ≡ ok (int n) =
          ap (λ (x : Bytes). parse_record ops x r) (ok-injective (sym w.composed ∙ e)) ∙ back in
        (
          write_data-confirmed (int n) s s2 header_start (h1 ∷ (c ∷ (payload ++ footer))) updated
              answer w (int n) stored confirmed,
          stored,
        )
