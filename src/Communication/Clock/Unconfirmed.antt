-- ===== src/Communication/Clock/Unconfirmed.antt =====
-- `_set_time_via_frame` of stiebel_heatpump/protocol/communication.py, which does not look at the
-- device's answer to the SET.
use stiebel_eltron_heatpump.Prelude.{
  ℕ, ◌+◌, ◌≤◌, ◌≡◌, refl, sym, ap, ◌∙◌, subst, ◌⊎◌, inl, inr, List, [], ◌∷◌, none, some, true,
  false, length, list_eq, list_eq_iff, Bool-cases, ℤ,
}
use stiebel_eltron_heatpump.Errors.{
  Exn, Result, ok, err, protocol_error, too_much_data, Result-cases,
}
use stiebel_eltron_heatpump.Exec.Raises.{Within, Within-ok}
use stiebel_eltron_heatpump.Dict.{Dict, lookup, insert, lookup-insert, lookup-insert_self}
use stiebel_eltron_heatpump.Models.{Text, FloatOps, Value, int, ChannelDefinition}
use stiebel_eltron_heatpump.Config.{Request, request_bytes}
use stiebel_eltron_heatpump.Items.{compose_clock}
use stiebel_eltron_heatpump.Protocol.Frame.{
  Bytes, escape, header_start, set_mark, header_check, add_duplicated_bytes,
}
use stiebel_eltron_heatpump.Protocol.Frame.Escaping.{framed}
use stiebel_eltron_heatpump.Protocol.Frame.Checksum.{frame_checksum}
use stiebel_eltron_heatpump.Protocol.Encode.{out_of_range}
use stiebel_eltron_heatpump.Protocol.Encode.Shape.{put_number, compose_record-int}
use stiebel_eltron_heatpump.Protocol.Encode.RoundTrip.{length-put_number}
use stiebel_eltron_heatpump.Protocol.Transport.{Transport}
use stiebel_eltron_heatpump.Protocol.Connector.{
  start, establish_request, receive_data, finish_set, set_data, get_data,
}
use stiebel_eltron_heatpump.Protocol.Connector.Outcomes.{
  IsReceived, bounded, too_much, receive_data-IsReceived,
}
use stiebel_eltron_heatpump.Exec.{◌>>◌, next, pure}
use stiebel_eltron_heatpump.Communication.{message_for}
use stiebel_eltron_heatpump.Communication.Clock.{Now, clock_values, send_clock, set_time_via_frame}

module _ {F : Type 0} (values : Dict (Value F)) where
  -- Under the id of each record the answer has what the values have.
  abbrev pub AllTold : Dict (Value F) → List (ChannelDefinition F) → Type 0
  AllTold written [] = Unit
  AllTold written (r ∷ records) =
      (lookup r.channel_id written ≡ lookup r.channel_id values) × AllTold written records

module _ {F : Type 0} (ops : FloatOps F) (values : Dict (Value F)) where
  -- A record of no clock field, or with an integer that it allows and a slot inside the payload.
  pub data IsSettable (size : ℕ) (r : ChannelDefinition F) : Type 0 where
    no_field : lookup r.channel_id values ≡ none → IsSettable size r
    has_slot :
        (p : ℕ) (n : ℤ)
        → r.position ≡ p + 3
        → p + r.length ≤ size
        → lookup r.channel_id values ≡ some (int n)
        → out_of_range ops (int n) r ≡ false
        → IsSettable size r

  abbrev pub AllSettable : ℕ → List (ChannelDefinition F) → Type 0
  AllSettable size [] = Unit
  AllSettable size (r ∷ records) = IsSettable size r × AllSettable size records

  -- No id beside those of the values.
  abbrev HasNoMore : Dict (Value F) → Type 0
  HasNoMore written = (key : Text) → lookup key values ≡ none → lookup key written ≡ none

  record Composed (records : List (ChannelDefinition F)) (before : Bytes) (written : Dict (Value F))
      : Type 0 where
    frame : Bytes
    result : Dict (Value F)
    is_composed : compose_clock ops records values before written ≡ ok (frame, result)
    keeps :
        (key : Text)
        → lookup key written ≡ lookup key values
        → lookup key result ≡ lookup key values
    tells : AllTold values result records

  insert-told :
      (channel_id key : Text) (value : Value F) (written : Dict (Value F))
      → lookup channel_id values ≡ some value
      → lookup key written ≡ lookup key values
      → lookup key (insert channel_id value written) ≡ lookup key values
  insert-told channel_id key value written e h = elim (Bool-cases (list_eq channel_id key)) [
    | inl same ↦
        lookup-insert channel_id key value written
        ∙ rw same (sym e ∙ ap (λ (k : Text). lookup k values) ((list_eq_iff channel_id key).0 same))
    | inr other ↦ lookup-insert channel_id key value written ∙ rw other h
  ]

  insert-HasNoMore :
      (channel_id : Text) (value : Value F) (written : Dict (Value F))
      → lookup channel_id values ≡ some value
      → HasNoMore written
      → HasNoMore (insert channel_id value written)
  insert-HasNoMore channel_id value written e h key missing =
      insert-told channel_id key value written e (h key missing ∙ sym missing) ∙ missing

  compose_clock-none :
      (r : ChannelDefinition F) (records : List (ChannelDefinition F)) (frame : Bytes)
      (written : Dict (Value F))
      → lookup r.channel_id values ≡ none
      → compose_clock ops (r ∷ records) values frame written
        ≡ compose_clock ops records values frame written
  unfolding compose_clock
  compose_clock-none r records frame written e = rw (compose_clock, e)

  compose_clock-Composed :
      (records : List (ChannelDefinition F)) (h1 c : ℕ) (payload : Bytes) (written : Dict (Value F))
      → HasNoMore written
      → AllSettable (length payload) records
      → Composed records (framed header_start h1 (c ∷ payload)) written
  unfolding compose_clock
  compose_clock-Composed [] h1 c payload written fresh settable = record {
    frame = framed header_start h1 (c ∷ payload);
    result = written;
    is_composed = refl;
    keeps = λ key h. h;
    tells = tt;
  }
  compose_clock-Composed (r ∷ records) h1 c payload written fresh (no_field e, settable) =
      let rest = compose_clock-Composed records h1 c payload written fresh settable in
      record {
        frame = rest.frame;
        result = rest.result;
        is_composed =
            compose_clock-none r records (framed header_start h1 (c ∷ payload)) written e
            ∙ rest.is_composed;
        keeps = rest.keeps;
        tells = (rest.keeps r.channel_id (fresh r.channel_id e ∙ sym e), rest.tells);
      }
  compose_clock-Composed (r ∷ records) h1 c payload written fresh
        (has_slot p n slot fits e inside, settable) =
      let payload' = put_number payload p r.length n in
      let same = length-put_number ops r payload p fits n in
      let rest =
        compose_clock-Composed records set_mark (frame_checksum header_start set_mark payload')
          payload' (insert r.channel_id (int n) written)
          (insert-HasNoMore r.channel_id (int n) written e fresh)
          (subst (λ (size : ℕ). AllSettable size records) (sym same) settable) in
      record {
        frame = rest.frame;
        result = rest.result;
        is_composed =
            rw
              (
                compose_clock,
                e,
                compose_record-int ops r header_start h1 c payload p slot fits n inside,
              )
              rest.is_composed;
        keeps = λ key h. rest.keeps key (insert-told r.channel_id key (int n) written e h);
        tells = (
          rest.keeps r.channel_id (lookup-insert_self r.channel_id (int n) written ∙ sym e),
          rest.tells,
        );
      }

module _ {S A B : Type 0} where
  after_ok : (p : Result A × S) (b : B) (a : A) → p.0 ≡ ok a → (next (λ _. pure b) p).0 ≡ ok b
  after_ok (ok x, s) b a h = refl
  after_ok (err x, s) b a h = cc

  after_err :
      (p : Result A × S) (b : B) (e : Exn) → p.0 ≡ err e → (next {B = B} (λ _. pure b) p).0 ≡ err e
  after_err (ok x, s) b e h = cc
  after_err (err x, s) b e h = cc

module _ (t : Transport) where
  -- A SET raises nothing but the error of the full buffer.
  abbrev IsTooMuch : Exn → Type 0
  IsTooMuch e = e ≡ protocol_error too_much_data

  IsReceived-IsTooMuch : (r : Result Bytes) → IsReceived r → Within IsTooMuch r
  IsReceived-IsTooMuch r (bounded bytes is few) e h = cc
  IsReceived-IsTooMuch r (too_much is) e h = cc

  finish_set-IsTooMuch : {A : Type 0} (p : Result A × t.State) → Within IsTooMuch (finish_set t p).0
  finish_set-IsTooMuch (ok a, s) =
      IsReceived-IsTooMuch (receive_data t s).0 (receive_data-IsReceived t s)
  finish_set-IsTooMuch (err x, s) = Within-ok IsTooMuch []

  set_data-IsTooMuch : (message : Bytes) (s : t.State) → Within IsTooMuch (set_data t message s).0
  unfolding set_data
  set_data-IsTooMuch message s =
      finish_set-IsTooMuch ((start t >> (establish_request t message >> t.write (escape ∷ []))) s)

  module _ {F : Type 0} (ops : FloatOps F) (now : Now) where
    -- If the frame of the clock was read and passes the header check, and each record of the request
    -- that is a clock field has its slot inside the payload and allows the field's number, then
    -- writing the time ends, whatever the device does from there on, also if it is silent, refuses
    -- the SET or does not answer it, either with the time reported as written under the id of each
    -- of these records, and nothing under the other ids of the request, or with the error of too
    -- much data.
    pub set_time_via_frame-unconfirmed :
        (read_request : Request F) (message : Bytes) (h1 c : ℕ) (payload : Bytes) (s s1 : t.State)
        → message_for (request_bytes read_request) ≡ ok message
        → get_data t message s ≡ (ok (framed header_start h1 (c ∷ payload)), s1)
        → header_check (framed header_start h1 (c ∷ payload)) ≡ true
        → AllSettable ops (clock_values now) (length payload) read_request.records
        → ((written : Dict (Value F)) × ((set_time_via_frame t ops read_request
                (clock_values now)
                s).0
              ≡ ok written)
            × AllTold (clock_values now) written read_request.records)
          ⊎ ((set_time_via_frame t ops read_request (clock_values now) s).0
              ≡ err (protocol_error too_much_data))
    unfolding set_time_via_frame send_clock lookup
    set_time_via_frame-unconfirmed read_request message h1 c payload s s1 m g h settable =
        let x =
          compose_clock-Composed ops (clock_values now) read_request.records h1 c payload []
            (λ key missing. refl) settable in
        let sent = set_data t (add_duplicated_bytes x.frame) s1 in
        elim (Result-cases sent.0) [
          | inl (answer, e) ↦
              inl (x.result, rw (m, g, h, x.is_composed) (after_ok sent x.result answer e), x.tells)
          | inr (z, e) ↦ inr (
              rw (m, g, h, x.is_composed) (after_err sent x.result z e)
              ∙ ap err (set_data-IsTooMuch (add_duplicated_bytes x.frame) s1 z e))
        ]
