-- ===== src/Protocol/Connector/Handshake.antt =====
-- `get_data` and `set_data` with a device that follows the protocol: escape, data available, and
-- the frame.
use stiebel_eltron_heatpump.Prelude.{
  ap, set, ℕ, zero, suc, ◌<◌, ◌≤◌, ◌≡◌, refl, ◌∙◌, [], ◌∷◌, none, some, true, false, length,
  replicate, arith,
}
use stiebel_eltron_heatpump.Errors.{ok}
use stiebel_eltron_heatpump.Protocol.Frame.{
  Bytes, escape, start_communication, data_available, escape_bytes,
}
use stiebel_eltron_heatpump.Protocol.Frame.Escaping.{framed, IsPlain}
use stiebel_eltron_heatpump.Protocol.Transport.{Transport, Delivers, byte, pause, Delivers-nil}
use stiebel_eltron_heatpump.Protocol.Connector.{
  max_retry, input_buffer_length, data_ready, num_read, start, await_data, establish_loop,
  establish_request, get_data, set_data,
}
use stiebel_eltron_heatpump.Protocol.Connector.Receive.{receive_data-frame}

module _ (t : Transport) where
  module _ (retries room : ℕ) (buffer : Bytes) {s s' : t.State} where
    await_data-pause :
        t.get s ≡ (none, s')
        → await_data t (suc retries) (suc room) buffer s ≡ await_data t retries (suc room) buffer s'
    unfolding await_data
    await_data-pause e = rw e

    module _ (b : ℕ) (e : t.get s ≡ (some b, s')) where
      await_data-next :
          data_ready (set buffer (num_read (suc room)) b) ≡ false
          → await_data t (suc retries) (suc room) buffer s
            ≡ await_data t (suc retries) room (set buffer (num_read (suc room)) b) s'
      unfolding await_data
      await_data-next test = ground arith

      await_data-last :
          data_ready (set buffer (num_read (suc room)) b) ≡ true
          → await_data t (suc retries) (suc room) buffer s
            ≡ (ok (true, set buffer (num_read (suc room)) b), s')
      unfolding await_data
      await_data-last test = ground arith

  data_ready-available : (rest : Bytes) → data_ready (escape ∷ start_communication ∷ rest) ≡ true
  unfolding data_ready
  data_ready-available rest = refl

  data_ready-half : (rest : Bytes) → data_ready (escape ∷ 0 ∷ rest) ≡ false
  unfolding data_ready
  data_ready-half rest = refl

  await_data-second :
      (retries timeouts : ℕ) (rest : Bytes) (s last : t.State)
      → Delivers t last s timeouts (start_communication ∷ [])
      → timeouts < retries
      → await_data t retries 1023 (escape ∷ 0 ∷ rest) s
        ≡ (ok (true, escape ∷ start_communication ∷ rest), last)
  await_data-second zero n rest s last d few = elim few [ ]
  await_data-second (suc retries) n rest s last (byte {s' = s'} e d) few =
      await_data-last retries 1022 (escape ∷ 0 ∷ rest) start_communication e
        (data_ready-available rest)
      ∙ ap (λ (x : t.State). (ok (true, escape ∷ start_communication ∷ rest), x))
          (Delivers-nil t last s' n d)
  await_data-second (suc retries) _ rest s last (pause {s' = s'} {n = n} e d) few =
      await_data-pause retries 1022 (escape ∷ 0 ∷ rest) e
      ∙ await_data-second retries n rest s' last d (omega arith)

  await_data-available :
      (retries timeouts : ℕ) (rest : Bytes) (s last : t.State)
      → Delivers t last s timeouts data_available
      → timeouts < retries
      → await_data t retries 1024 (0 ∷ 0 ∷ rest) s
        ≡ (ok (true, escape ∷ start_communication ∷ rest), last)
  await_data-available zero n rest s last d few = elim few [ ]
  await_data-available (suc retries) n rest s last (byte {s' = s'} e d) few =
      await_data-next retries 1023 (0 ∷ 0 ∷ rest) escape e (data_ready-half rest)
      ∙ await_data-second (suc retries) n rest s' last d few
  await_data-available (suc retries) _ rest s last (pause {s' = s'} {n = n} e d) few =
      await_data-pause retries 1023 (0 ∷ 0 ∷ rest) e
      ∙ await_data-available retries n rest s' last d (omega arith)

  -- What the device does up to the frame that it sends: it takes the start, answers with an escape,
  -- takes the message, answers that data is available, and takes the escape.
  pub record Handshake (message : Bytes) (s0 s5 : t.State) : Type 0 where
    pub s1 : t.State
    pub s2 : t.State
    pub s3 : t.State
    pub s4 : t.State
    pub timeouts : ℕ
    pub started : t.write (start_communication ∷ []) s0 ≡ (ok tt, s1)
    pub acknowledged : t.get s1 ≡ (some escape, s2)
    pub sent : t.write message s2 ≡ (ok tt, s3)
    pub available : Delivers t s4 s3 timeouts data_available
    pub in_time : timeouts < max_retry
    pub requested : t.write (escape ∷ []) s4 ≡ (ok tt, s5)

  module _ (message : Bytes) (s0 s5 : t.State) (h : Handshake message s0 s5) where
    start-Handshake : start t s0 ≡ (ok tt, h.s2)
    unfolding start
    start-Handshake = rw (h.started, h.acknowledged)

    establish_request-Handshake : establish_request t message h.s2 ≡ (ok true, h.s4)
    unfolding establish_request establish_loop
    establish_request-Handshake =
        let ready =
          await_data-available max_retry h.timeouts (replicate 1022 0) h.s3 h.s4 h.available
            h.in_time in
        rw (h.sent, ready)

    module _ (h0 h1 : ℕ) (middle : Bytes) (plain0 : IsPlain h0) (plain1 : IsPlain h1)
        (some_payload : 0 < length middle) where
      -- If the device follows the handshake and sends an escaped frame whose header bytes are no
      -- escapes, which fits into the buffer and in which fewer than five reads time out, then
      -- `get_data` returns the frame itself, and takes nothing more from the line.
      pub get_data-frame :
          (last : t.State) (timeouts : ℕ)
          → Delivers t last s5 timeouts (framed h0 h1 (escape_bytes middle))
          → timeouts < max_retry
          → length (framed h0 h1 (escape_bytes middle)) ≤ input_buffer_length
          → get_data t message s0 ≡ (ok (framed h0 h1 middle), last)
      unfolding get_data
      get_data-frame last timeouts d few fits = rw (
        start-Handshake,
        establish_request-Handshake,
        h.requested,
        receive_data-frame t last h0 h1 middle plain0 plain1 some_payload s5 timeouts d few fits,
      )

      -- Under the same conditions `set_data` returns the device's answer to the frame it sent.
      pub set_data-frame :
          (last : t.State) (timeouts : ℕ)
          → Delivers t last s5 timeouts (framed h0 h1 (escape_bytes middle))
          → timeouts < max_retry
          → length (framed h0 h1 (escape_bytes middle)) ≤ input_buffer_length
          → set_data t message s0 ≡ (ok (framed h0 h1 middle), last)
      unfolding set_data
      set_data-frame last timeouts d few fits = rw (
        start-Handshake,
        establish_request-Handshake,
        h.requested,
        receive_data-frame t last h0 h1 middle plain0 plain1 some_payload s5 timeouts d few fits,
      )
