-- ===== src/Communication/Outcomes.antt =====
-- What a read can raise, whatever the device does.
use stiebel_eltron_heatpump.Prelude.{
  ℕ, zero, suc, ◌≡◌, refl, inl, Option, none, some, inr, Bool-cases,
}
use stiebel_eltron_heatpump.Errors.{
  Result, ok, err, is_protocol_error, protocol_error, invalid_response, read_exhausted,
}
use stiebel_eltron_heatpump.Exec.{Exec}
use stiebel_eltron_heatpump.Exec.Raises.{is_link_error, Within, Within-ok, Within-err, Within-next}
use stiebel_eltron_heatpump.Dict.{Dict}
use stiebel_eltron_heatpump.Models.{FloatOps, Value}
use stiebel_eltron_heatpump.Config.{Request, request_bytes, request_bytes2}
use stiebel_eltron_heatpump.Protocol.Frame.{Bytes, get_mark, header_check}
use stiebel_eltron_heatpump.Protocol.Frame.Header.{create_request_message_lem}
use stiebel_eltron_heatpump.Protocol.Decode.Total.{parse_records-ok}
use stiebel_eltron_heatpump.Protocol.Transport.{Transport}
use stiebel_eltron_heatpump.Protocol.Connector.{connect, disconnect, get_data}
use stiebel_eltron_heatpump.Protocol.Connector.Outcomes.{
  Fails, link, opens-Fails, closes-Fails, get_data-Fails,
}
use stiebel_eltron_heatpump.Communication.{
  max_tries, restart, get_checked, read_second, read_attempt, retry, read_loop, read_request,
}

-- The commands of the request are hexadecimal texts.
pub record HasCommands {F : Type 0} (request : Request F) : Type 0 where
  pub command : Bytes
  pub second : Option Bytes
  pub first_is : request_bytes request ≡ ok command
  pub second_is : request_bytes2 request ≡ ok second

module _ (t : Transport) {F : Type 0} (ops : FloatOps F) where
  restart-Fails : (s : t.State) → Within (Fails t) (restart t ops s).0
  unfolding restart disconnect connect
  restart-Fails s =
      Within-next (Fails t) _ (t.close_link s) (closes-Fails t s) (λ u s1 e. opens-Fails t s1)

  get_checked-Fails :
      (message : Bytes) (s : t.State) → Within (Fails t) (get_checked t ops message s).0
  unfolding get_checked
  get_checked-Fails message s =
      Within-next (Fails t) _ (get_data t message s) (get_data-Fails t message s) (λ response s1 e.
        elim (Bool-cases (header_check response)) [
          | inl is ↦ rw is (Within-ok (Fails t) response)
          | inr bad ↦ rw bad (
              Within-err (Fails t) (protocol_error invalid_response)
                (link (unfold is_link_error in refl)))
        ])

  read_second-Fails :
      (request : Request F) (response : Bytes) (second : Option Bytes) (s : t.State)
      → Within (Fails t) (read_second t ops request response second s).0
  unfolding read_second
  read_second-Fails request response none s =
      let (d, e) = parse_records-ok ops response request.records none in
      rw e (Within-ok (Fails t) d)
  read_second-Fails request response (some command2) s =
      let (message2, m, _, _) = create_request_message_lem command2 get_mark (inl refl) in
      rw m (
        Within-next (Fails t) _ (get_checked t ops message2 s) (get_checked-Fails message2 s)
          (λ response2 s1 e.
            let (d, f) = parse_records-ok ops response request.records (some response2) in
            rw f (Within-ok (Fails t) d)))

  module _ (request : Request F) (commands : HasCommands request) where
    read_attempt-Fails : (s : t.State) → Within (Fails t) (read_attempt t ops request s).0
    unfolding read_attempt
    read_attempt-Fails s =
        let (message, m, _, _) = create_request_message_lem commands.command get_mark (inl refl) in
        rw (commands.first_is, m)
          (Within-next (Fails t) _ (get_checked t ops message s) (get_checked-Fails message s)
            (λ response s1 e.
              rw (commands.second_is) (read_second-Fails request response commands.second s1)))

    retry-Fails :
        (again : Exec t.State (Dict (Value F))) (p : Result (Dict (Value F)) × t.State)
        → ((s : t.State) → Within (Fails t) (again s).0)
        → Within (Fails t) p.0
        → Within (Fails t) (retry t ops again p).0
    retry-Fails again (ok d, s) later now = Within-ok (Fails t) d
    retry-Fails again (err e, s) later now = elim (Bool-cases (is_protocol_error e)) [
      | inl is ↦
          rw (is, retry)
            (Within-next (Fails t) _ (restart t ops s) (restart-Fails s) (λ u s1 f. later s1))
      | inr other ↦ rw (other, retry) now
    ]

    read_loop-Fails :
        (tries : ℕ) (s : t.State) → Within (Fails t) (read_loop t ops tries request s).0
    unfolding read_loop
    read_loop-Fails zero s =
        Within-err (Fails t) (protocol_error read_exhausted) (link (unfold is_link_error in refl))
    read_loop-Fails (suc tries) s =
        retry-Fails (read_loop t ops tries request) (read_attempt t ops request s)
          (read_loop-Fails tries) (read_attempt-Fails s)

    -- Whatever the device sends and whenever it is silent, `read_request` of a request with
    -- hexadecimal commands ends with values, with a protocol error that is not WriteNotConfirmed, or
    -- with an exception that a call of the transport raises.
    pub read_request-Fails : (s : t.State) → Within (Fails t) (read_request t ops request s).0
    unfolding read_request
    read_request-Fails s = read_loop-Fails max_tries s
