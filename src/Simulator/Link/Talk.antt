-- ===== src/Simulator/Link/Talk.antt =====
-- The simulator keeps its side of the handshake, and what it sends is its answer to the frame that
-- it was sent.
use stiebel_eltron_heatpump.Prelude.{ℕ, ◌≤◌, ◌<◌, ◌≡◌, refl, ap, [], ◌∷◌, append-nil, length, arith}
use stiebel_eltron_heatpump.Errors.{ok}
use stiebel_eltron_heatpump.Protocol.Frame.{
  Bytes, escape, start_communication, data_available, add_duplicated_bytes,
}
use stiebel_eltron_heatpump.Protocol.Frame.Escaping.{framed, IsPlain, add_duplicated_bytes-framed}
use stiebel_eltron_heatpump.Protocol.Transport.{Delivers, done, byte}
use stiebel_eltron_heatpump.Protocol.Connector.{input_buffer_length, get_data, set_data}
use stiebel_eltron_heatpump.Protocol.Connector.Handshake.{Handshake, get_data-frame, set_data-frame}
use stiebel_eltron_heatpump.Simulator.{Simulator, Phase, idle, collecting}
use stiebel_eltron_heatpump.Simulator.Feed.{
  rest, build_response, feed_idle, send_response, feed_byte_in, feed_byte,
}
use stiebel_eltron_heatpump.Simulator.Link.Collect.{
  wire, with_frame, feed-frame, feed-step, feed-nil,
}
use stiebel_eltron_heatpump.Simulator.Link.{simulated, write_simulator, get_simulator}

module _ {F : Type 0} where
  module _ (h0 h1 : ℕ) (middle : Bytes) (plain0 : IsPlain h0) (plain1 : IsPlain h1)
      (some_payload : 2 ≤ length middle) where
    Delivers-queue :
        (s : Simulator F) (queue : Bytes) → Delivers (simulated F) (s, []) (s, queue) 0 queue
    unfolding get_simulator
    Delivers-queue s [] = done refl
    Delivers-queue s (b ∷ queue) = byte refl (Delivers-queue s queue)

    module _ (s s' : Simulator F) (rests : s.phase ≡ idle) (g0 g1 : ℕ) (out : Bytes)
        (plain2 : IsPlain g0) (plain3 : IsPlain g1) (some_answer : 0 < length out)
        (fits : length (wire g0 g1 out) ≤ input_buffer_length)
        (answered : build_response
            (framed h0 h1 middle)
            (with_frame (wire h0 h1 middle) (framed h0 h1 middle) s)
          ≡ (ok (framed g0 g1 out), s')) where
      write-start :
          write_simulator (start_communication ∷ []) (s, [])
          ≡ (ok tt, (record s { phase = collecting; frame_buffer = [] }, escape ∷ []))
      unfolding write_simulator
      write-start =
          let step : feed_byte start_communication s
              ≡ (ok (escape ∷ []), record s { phase = collecting; frame_buffer = [] }) =
            unfold feed_byte feed_byte_in feed_idle in
            ap (λ (p : Phase). feed_byte_in p start_communication s) rests in
          rw (feed-step start_communication [] (escape ∷ []) [] s _ _ step (feed-nil _))

      write-frame :
          write_simulator
            (wire h0 h1 middle)
            (record s { phase = collecting; frame_buffer = [] }, [])
          ≡ (ok tt, (with_frame (wire h0 h1 middle) (framed h0 h1 middle) s, data_available))
      unfolding write_simulator
      write-frame = rw (
          feed-frame h0 h1 middle plain0 plain1 some_payload (wire h0 h1 middle)
            (record s { phase = collecting; frame_buffer = [] }) refl refl (omega arith))

      write-escape :
          write_simulator (escape ∷ []) (with_frame (wire h0 h1 middle) (framed h0 h1 middle) s, [])
          ≡ (ok tt, (record s' { phase = idle }, wire g0 g1 out))
      unfolding write_simulator
      write-escape =
          let s4 = with_frame (wire h0 h1 middle) (framed h0 h1 middle) s in
          let step : feed_byte escape s4
              ≡ (ok (add_duplicated_bytes (framed g0 g1 out)), record s' { phase = idle }) =
            unfold feed_byte feed_byte_in send_response rest in rw answered in
          rw (
            feed-step escape [] _ [] s4 _ _ step (feed-nil _),
            append-nil (add_duplicated_bytes (framed g0 g1 out)),
            add_duplicated_bytes-framed g0 g1 out,
          )

      conversation :
          Handshake
            (simulated F)
            (wire h0 h1 middle)
            (s, [])
            (record s' { phase = idle }, wire g0 g1 out)
      conversation = record {
        s1 = (record s { phase = collecting; frame_buffer = [] }, escape ∷ []);
        s2 = (record s { phase = collecting; frame_buffer = [] }, []);
        s3 = (with_frame (wire h0 h1 middle) (framed h0 h1 middle) s, data_available);
        s4 = (with_frame (wire h0 h1 middle) (framed h0 h1 middle) s, []);
        timeouts = 0;
        started = write-start;
        acknowledged = unfold get_simulator in refl;
        sent = write-frame;
        available =
            Delivers-queue (with_frame (wire h0 h1 middle) (framed h0 h1 middle) s) data_available;
        in_time = omega arith;
        requested = write-escape;
      }

      -- The connector over the simulator, byte by byte, is one call of `_build_response`: a frame
      -- that is sent escaped to a waiting simulator arrives whole, and the answer that
      -- `_build_response` gives to it, if it fits into the buffer, is what `get_data` returns; the
      -- simulator then waits again and nothing is left in the queue.
      pub get_data-build_response :
          get_data (simulated F) (wire h0 h1 middle) (s, [])
          ≡ (ok (framed g0 g1 out), (record s' { phase = idle }, []))
      get_data-build_response =
          get_data-frame (simulated F) (wire h0 h1 middle) (s, []) _ conversation g0 g1 out plain2
            plain3 some_answer (record s' { phase = idle }, []) 0
            (Delivers-queue (record s' { phase = idle }) (wire g0 g1 out)) (omega arith) fits

      -- The same of `set_data`.
      pub set_data-build_response :
          set_data (simulated F) (wire h0 h1 middle) (s, [])
          ≡ (ok (framed g0 g1 out), (record s' { phase = idle }, []))
      set_data-build_response =
          set_data-frame (simulated F) (wire h0 h1 middle) (s, []) _ conversation g0 g1 out plain2
            plain3 some_answer (record s' { phase = idle }, []) 0
            (Delivers-queue (record s' { phase = idle }) (wire g0 g1 out)) (omega arith) fits
