-- ===== src/Socket/Collect/Input.antt =====
-- One round of input: some bytes from the front of what is to come, or a timeout.
use synap_tcp.Base.{
  ℕ, ◌+◌, ◌<◌, ◌≡◌, refl, inl, inr, List, ◌++◌, done, arith, ltb, Bool-cases, length, length-append,
}
use synap_tcp.Socket.{Socket}
use synap_tcp.Socket.Os.{Os, IsStream}
use synap_tcp.Socket.Receive.Total.{IsReady, with_input, input_code, receive_unsplit_total}
use synap_tcp.Socket.Collect.{next_input}

module _ {W : Type 0} (os : Os W) (st : IsStream os) where
  open st use {incoming}

  -- What the object and the stream still hold.
  abbrev pub to_come : Socket → W → List ℕ
  to_come s w = s.remaining_data ++ incoming w

  pub next_input_total :
      (fuel sz : ℕ) (s : Socket) (w : W)
      → IsReady s
      → s.keep_alive_ms + length (to_come s w) < fuel
      → (bytes : List ℕ) × (w' : W) × (next_input os fuel sz s w
          ≡ done (input_code bytes, with_input s bytes, w'))
        × (bytes ++ incoming w' ≡ to_come s w)
  unfolding next_input
  next_input_total fuel sz s w ready hf = elim (Bool-cases (ltb 0 (length s.remaining_data))) [
    | inl some_left ↦ (s.remaining_data, w, rw some_left (ground arith), refl)
    | inr none_left ↦
        let (bytes, w', run, front) =
          receive_unsplit_total os st fuel sz s w ready
            (omega (arith, length-append s.remaining_data (incoming w))) in
        (bytes, w', rw none_left run, front)
  ]
