-- ===== src/SynapSock/Framed/Fields/Known.antt =====
-- Frames whose bytes are known in advance, and fields of a known size.
use synap_tcp.Base.{
  ℕ, ◌+◌, ◌*◌, ◌<◌, ◌≡◌, refl, sym, ap, ◌∙◌, inl, inr, true, false, List, ◌++◌, append_assoc, done,
  arith, length,
}
use synap_tcp.Socket.{Socket}
use synap_tcp.Socket.Os.{Os, IsStream}
use synap_tcp.Socket.Receive.Total.{IsReady}
use synap_tcp.Socket.Collect.Input.{to_come}
use synap_tcp.Socket.Collect.Exact.{receive_n_bytes_lem}
use synap_tcp.Socket.Collect.Stop.{receive_stop_bytes_lem}
use synap_tcp.Socket.Search.Start.{receive_start_bytes_lem}
use synap_tcp.Socket.Buffer.{get_buffer_as_vector}
use synap_tcp.Frames.{Frames}
use synap_tcp.SynapSock.{SynapSock}
use synap_tcp.SynapSock.Framed.{
  Callback, with_sock, is_start, is_stop, is_field, receive_start, receive_stop, receive_sized,
}
use synap_tcp.SynapSock.Framed.Fields.{
  IsQuiet, Field.started, Field.stopped, Field.stored, Field.dropped, FrameEnd, FrameEnd.taken,
  FrameEnd.timed_out, ahead,
}

module _ {W : Type 0} (os : Os W) (st : IsStream os) (fr : Frames W) (call : Callback W)
    (quiet : IsQuiet st fr call) where
  open st use {incoming}

  pub receive_start-FrameEnd :
      (fuel f : ℕ) (y : SynapSock) (w : W)
      → is_start os fr call f w ≡ true
      → IsReady y.sock
      → y.sock.keep_alive_ms + length (ahead os st fr call quiet y w) < fuel
      → FrameEnd os st fr call quiet f y w (receive_start os fr call fuel f y w)
  unfolding receive_start
  receive_start-FrameEnd fuel f y w start ready hf =
      let mark : List ℕ = fr.get_reference f w in
      let (ret, s', w', run, end, received) =
        receive_start_bytes_lem os st mark fuel y.sock w ready (ground arith) hf in
      elim end [
        | inl (code, found) ↦
            taken (started found.skipped mark) f (with_sock y s') w' (rw (run, code) refl)
              (start, refl) (append_assoc found.skipped mark (to_come os st s' w') ∙ found.parts)
              (received, refl) (inl refl)
        | inr (code, missing) ↦
            timed_out (with_sock y s') w' (rw (run, code) refl) missing.parts (received, refl)
      ]

  pub receive_stop-FrameEnd :
      (fuel f : ℕ) (y : SynapSock) (w : W)
      → is_stop os fr call f w ≡ true
      → IsReady y.sock
      → y.sock.keep_alive_ms + length (ahead os st fr call quiet y w) < fuel
      → FrameEnd os st fr call quiet f y w (receive_stop os fr call fuel f y w)
  unfolding receive_stop
  receive_stop-FrameEnd fuel f y w stop ready hf =
      let mark : List ℕ = fr.get_reference f w in
      let (ret, s', w', run, parts, end, received) =
        receive_stop_bytes_lem os st fuel mark y.sock w ready (ground arith) hf in
      elim end [
        | inl (code, same) ↦
            taken (stopped mark) f (with_sock y s') w' (rw (run, code) refl) (stop, refl)
              (ap (λ d. d ++ to_come os st s' w') (sym same) ∙ parts) (received, refl) (inl refl)
        | inr (inl (code, _, _)) ↦
            timed_out (with_sock y s') w' (rw (run, code) refl) parts (received, refl)
        | inr (inr (code, _)) ↦
            timed_out (with_sock y s') w' (rw (run, code) refl) parts (received, refl)
      ]

  pub receive_sized-FrameEnd :
      (fuel f : ℕ) (y : SynapSock) (w : W)
      → is_field os fr call f w ≡ true
      → 0 < fr.get_size f w
      → IsReady y.sock
      → y.sock.keep_alive_ms + 4 * length (ahead os st fr call quiet y w) < fuel
      → FrameEnd os st fr call quiet f y w (receive_sized os fr call fuel f y w)
  unfolding receive_sized get_buffer_as_vector
  receive_sized-FrameEnd fuel f y w field some_size ready hf =
      let (ret, s', w', run, parts, end, received) =
        receive_n_bytes_lem os st fuel (fr.get_size f w) y.sock w ready hf in
      let unlocked : Socket = record s' { mtx = false } in
      elim end [
        | inl (code, size) ↦
            let step : receive_sized os fr call fuel f y w
                ≡ done (0, f, with_sock y unlocked, fr.set_data f s'.data_buf w') =
              rw (run, code, received.0.0) (ground (arith, size)) in
            taken (stored s'.data_buf) f (with_sock y unlocked) (fr.set_data f s'.data_buf w') step
              (field, size, with_sock y unlocked, w', step)
              (ap (λ d. s'.data_buf ++ (s'.remaining_data ++ d))
                  (quiet.set_data_incoming f s'.data_buf w')
                ∙ parts)
              (
                (
                  (refl, received.0.1, received.0.2),
                  ap (λ (x : Socket). record x { mtx = false }) received.1,
                ),
                refl,
              )
              (inl refl)
        | inr (code, size) ↦
            taken (dropped s'.data_buf) f (with_sock y s') w' (rw (run, code) refl) (field, size)
              parts (received, refl) (inl refl)
      ]
