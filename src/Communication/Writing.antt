-- ===== src/Communication/Writing.antt =====
-- What a write gives: the values that the device confirmed, or an error.
use stiebel_eltron_heatpump.Prelude.{
  ◌≡◌, refl, true, List, [], ◌∷◌, inl, inr, ◌⊎◌, Bool-cases, list_eq, list_eq_iff,
}
use stiebel_eltron_heatpump.Errors.{
  Result, ok, err, Exn, is_protocol_error, write_not_confirmed, Result-cases,
}
use stiebel_eltron_heatpump.Exec.{next-ok}
use stiebel_eltron_heatpump.Dict.{Dict}
use stiebel_eltron_heatpump.Models.{FloatOps, Value}
use stiebel_eltron_heatpump.Items.{Item, compose_items, parse_items, confirm, first_command}
use stiebel_eltron_heatpump.Protocol.Frame.{Bytes, verify_header, add_duplicated_bytes}
use stiebel_eltron_heatpump.Protocol.Transport.{Transport}
use stiebel_eltron_heatpump.Protocol.Connector.{get_data, set_data}
use stiebel_eltron_heatpump.Communication.{message_for, write_frame, write_read, write_values}

module _ (t : Transport) {F : Type 0} (ops : FloatOps F) where
  -- What a write that succeeds did on the line: it read a frame, composed all items into it, sent
  -- the result escaped, and got an answer with a valid header; it returns what the frame that was
  -- sent decodes to.
  pub record IsConfirmed (items : List (Item F)) (read_response : Bytes) (s1 s2 : t.State)
      (values : Dict (Value F)) : Type 0 where
    pub updated : Bytes
    pub answer : Bytes
    pub composed : compose_items ops items read_response ≡ ok updated
    pub sent : set_data t (add_duplicated_bytes updated) s1 ≡ (ok answer, s2)
    pub verified : verify_header answer ≡ ok tt
    pub reported : parse_items ops updated items [] ≡ ok values

  -- What `confirm` lets through.
  confirm-ok :
      (read_response updated : Bytes) (items : List (Item F)) (answer : Result (Unit {0}))
      (values : Dict (Value F))
      → confirm ops read_response updated items answer ≡ ok values
      → (answer ≡ ok tt) × (parse_items ops updated items [] ≡ ok values)
  unfolding confirm
  confirm-ok read_response updated items (ok tt) values h = (refl, h)
  confirm-ok read_response updated items (err e) values h =
      elim (Bool-cases (is_protocol_error e)) [
        | inl good ↦ elim (Result-cases (parse_items ops read_response items [])) [
          | inl p ↦ cc
          | inr p ↦ cc
        ]
        | inr bad ↦ cc
      ]

  write_frame-ok :
      (items : List (Item F)) (read_response : Bytes) (s1 s2 : t.State) (values : Dict (Value F))
      → write_frame t ops read_response items s1 ≡ (ok values, s2)
      → IsConfirmed items read_response s1 s2 values
  unfolding write_frame
  write_frame-ok items read_response s1 s2 values h =
      let (updated, s3, e, h1) = next-ok _ (compose_items ops items read_response, s1) h in
      let (answer, s4, f, h2) = next-ok _ (set_data t (add_duplicated_bytes updated) s3) h1 in
      let (a, b) = confirm-ok read_response updated items (verify_header answer) values (cc) in
      record {
        updated = updated;
        answer = answer;
        composed = cc;
        sent = cc;
        verified = a;
        reported = b;
      }

  write_read-ok :
      (message read_response : Bytes) (items : List (Item F)) (s1 s2 : t.State)
      (values : Dict (Value F))
      → write_read t ops message read_response items s1 ≡ (ok values, s2)
      → ((message ≡ read_response) × (values ≡ []) × (s2 ≡ s1))
        ⊎ IsConfirmed items read_response s1 s2 values
  unfolding write_read
  write_read-ok message [] items s1 s2 values h = elim (Bool-cases (list_eq message [])) [
    | inl same ↦ let e = (list_eq_iff message []).0 same in inl (e, cc, cc)
    | inr other ↦ cc
  ]
  write_read-ok message (b ∷ bs) items s1 s2 values h =
      elim (Bool-cases (list_eq message (b ∷ bs))) [
        | inl same ↦ let e = (list_eq_iff message (b ∷ bs)).0 same in inl (e, cc, cc)
        | inr other ↦ inr (write_frame-ok items (b ∷ bs) s1 s2 values (cc))
      ]

  -- A write that returns values read a frame first. Either that frame was the request itself, and
  -- then nothing was sent and no value is returned; or all values were composed into the frame, the
  -- result was sent escaped, the answer had a valid header, and what is returned is what the frame
  -- that was sent decodes to.
  pub write_values-ok :
      (items : List (Item F)) (s s2 : t.State) (values : Dict (Value F))
      → write_values t ops items s ≡ (ok values, s2)
      → (message : Bytes) × (read_response : Bytes) × (s1 : t.State) × (get_data t message s
          ≡ (ok read_response, s1))
        × (((message ≡ read_response) × (values ≡ []) × (s2 ≡ s1))
            ⊎ IsConfirmed items read_response s1 s2 values)
  unfolding write_values
  write_values-ok items s s2 values h =
      let (message, s0, e, h1) = next-ok _ (message_for (first_command items), s) h in
      let (read_response, s1, got, h2) = next-ok _ (get_data t message s0) h1 in
      (message, read_response, s1, cc, write_read-ok message read_response items s1 s2 values h2)

  confirm-refused :
      (read_response updated : Bytes) (items : List (Item F)) (e : Exn) (unchanged : Dict (Value F))
      → is_protocol_error e ≡ true
      → parse_items ops read_response items [] ≡ ok unchanged
      → confirm ops read_response updated items (err e) ≡ err write_not_confirmed
  unfolding confirm
  confirm-refused read_response updated items e unchanged is p = rw (is, p)
