-- ===== src/Socket/Collect/Prompt.antt =====
-- `receiveNBytes` on a system whose reads wait for input.
use synap_tcp.Base.{
  ℕ, zero, suc, ◌+◌, ◌*◌, ◌≤◌, ◌<◌, ◌≡◌, refl, sym, ap, ◌∙◌, inl, inr, Bool, true, false, List, [],
  ◌++◌, append-nil, done, done-injective, arith, ltb, leb, ◌==◌, if◌then◌else◌, Bool-cases, length,
  length-append, length_zero,
}
use synap_tcp.Socket.{Socket}
use synap_tcp.Socket.Os.{Os, IsStream}
use synap_tcp.Socket.Receive.Total.{IsReady, Received, with_input, input_code}
use synap_tcp.Socket.Receive.Prompt.{IsPrompt, receive_unsplit_prompt}
use synap_tcp.Socket.Collect.Input.{to_come, next_input_total}
use synap_tcp.Socket.Collect.Exact.{receive_n_bytes_lem}
use synap_tcp.Socket.Collect.{next_input, n_loop, keep_front, receive_n_bytes}
use synap_tcp.Socket.Receive.{receive_data}

tries_left :
    (first : Bool) (tries : ℕ)
    → (first ≡ true → 0 < tries)
    → (ltb 0 (if first then tries else 3) ≡ true) × (0 < (if first then tries else 3))
tries_left true tries h = (ground (arith, h refl), h refl)
tries_left false tries h = (refl, omega arith)

module _ {W : Type 0} (os : Os W) (st : IsStream os) (prompt : IsPrompt st) where
  open st use {incoming}

  abbrev left_over : Socket → Socket
  left_over s = record s { data_buf = s.remaining_data; remaining_data = [] }

  next_input_left :
      (fuel sz : ℕ) (s : Socket) (w : W)
      → ltb 0 (length s.remaining_data) ≡ true
      → next_input os fuel sz s w ≡ done (0, left_over s, w)
  unfolding next_input
  next_input_left fuel sz s w some_left = rw some_left refl

  next_input_fresh :
      (fuel sz : ℕ) (s : Socket) (w : W)
      → ltb 0 (length s.remaining_data) ≡ false
      → next_input os fuel sz s w ≡ receive_data os fuel sz true s w
  unfolding next_input
  next_input_fresh fuel sz s w none_left = rw none_left refl

  pub next_input_prompt :
      (fuel sz : ℕ) (s : Socket) (w : W) (bytes : List ℕ) (w' : W)
      → IsReady s
      → s.keep_alive_ms + length (to_come os st s w) < fuel
      → 0 < length (to_come os st s w)
      → next_input os fuel sz s w ≡ done (input_code bytes, with_input s bytes, w')
      → 0 < length bytes
  next_input_prompt fuel sz s w bytes w' ready hf some_input run =
      elim (Bool-cases (ltb 0 (length s.remaining_data))) [
        | inl some_left ↦
            let same : s.remaining_data ≡ bytes =
              ap (λ r. r.1.data_buf)
                (done-injective (0, left_over s, w) (input_code bytes, with_input s bytes, w')
                  (sym (next_input_left fuel sz s w some_left) ∙ run)) in
            ground (arith, ap length same)
        | inr none_left ↦
            let nothing : s.remaining_data ≡ [] = length_zero s.remaining_data (ground arith) in
            receive_unsplit_prompt os st prompt fuel sz s w bytes w' ready nothing
              (omega (arith, length-append s.remaining_data (incoming w)))
              (omega (arith, length-append s.remaining_data (incoming w), ap length nothing))
              (sym (next_input_fresh fuel sz s w none_left) ∙ run)
      ]

  -- A round that has got nothing has met the end of the stream.
  pub next_input_ended :
      (fuel sz : ℕ) (s : Socket) (w : W) (bytes : List ℕ) (w' : W)
      → IsReady s
      → s.keep_alive_ms + length (to_come os st s w) < fuel
      → next_input os fuel sz s w ≡ done (input_code bytes, with_input s bytes, w')
      → bytes ++ incoming w' ≡ to_come os st s w
      → bytes ≡ []
      → incoming w' ≡ []
  next_input_ended fuel sz s w bytes w' ready hf run front nothing =
      let all : length bytes + length (incoming w') ≡ length (to_come os st s w) =
        sym (length-append bytes (incoming w')) ∙ ap length front in
      elim (Bool-cases (ltb 0 (length (incoming w')))) [
        | inl more ↦
            let got : 0 < length bytes =
              next_input_prompt fuel sz s w bytes w' ready hf (ground arith) run in
            absurd (omega (arith, got, ap length nothing))
        | inr none_left ↦ length_zero (incoming w') (ground arith)
      ]

  n_loop_prompt :
      (fuel sz : ℕ) (tmp : List ℕ) (tries : ℕ) (first : Bool) (s : Socket) (w : W)
      → IsReady s
      → (first ≡ true → 0 < tries)
      → s.keep_alive_ms + 4 * length (to_come os st s w) < fuel
      → length tmp < sz
      → sz ≤ length tmp + length (to_come os st s w)
      → (tmp' last : List ℕ) × (w' : W) × (n_loop os fuel sz tmp tries first s w
          ≡ done (tmp', with_input s last, w'))
        × (sz ≤ length tmp')
  unfolding n_loop
  n_loop_prompt zero sz tmp tries first s w ready hi hf below enough = absurd (omega arith)
  n_loop_prompt (suc fuel) sz tmp tries first s w ready hi hf below enough =
      let (bytes, w₁, ran, front) = next_input_total os st (suc fuel) sz s w ready (omega arith) in
      let some_bytes : 0 < length bytes =
        next_input_prompt (suc fuel) sz s w bytes w₁ ready (omega arith) (omega arith) ran in
      let not_empty : (length bytes == 0) ≡ false = ground arith in
      let size : length bytes + length (incoming w₁) ≡ length (to_come os st s w) =
        sym (length-append bytes (incoming w₁)) ∙ ap length front in
      let got : (tmp ++ bytes) ++ [] ≡ tmp ++ bytes = append-nil (tmp ++ bytes) in
      elim (Bool-cases (leb sz (length (tmp ++ bytes)))) [
        | inl reached ↦
            (tmp ++ bytes, bytes, w₁, rw (ran, not_empty, got, reached) refl, ground arith)
        | inr few ↦
            let (left, left') = tries_left first tries hi in
            let (tmp', last, w', run, long) =
              n_loop_prompt fuel sz (tmp ++ bytes) (if first then tries else 3) true
                (with_input s bytes) w₁ (refl, ready.1, ready.2) (λ e. left') (omega (arith, size))
                (ground arith) (omega (arith, size, length-append tmp bytes)) in
            (tmp', last, w', rw (ran, not_empty, got, few, left) run, long)
      ]

  receive_n_bytes_enough :
      (fuel sz : ℕ) (s : Socket) (w : W) (tmp : List ℕ) (s' : Socket) (w' : W)
      → n_loop os fuel sz [] 0 false s w ≡ done (tmp, s', w')
      → ltb (length tmp) sz ≡ false
      → receive_n_bytes os fuel sz s w ≡ done (0, keep_front sz tmp s', w')
  unfolding receive_n_bytes
  receive_n_bytes_enough fuel sz s w tmp s' w' run fits = rw (run, fits) refl

  -- `receiveNBytes` on a socket that is open and free, with enough fuel, where a read gives no byte only
  -- at the end of the stream: if at least `sz` bytes are to come, it returns 0 with the first `sz`
  -- of them, and the others are still to come. The socket stays open and free, and nothing of it
  -- changes but its buffers.
  pub receive_n_bytes-IsPrompt :
      (fuel sz : ℕ) (s : Socket) (w : W)
      → IsReady s
      → s.keep_alive_ms + 4 * length (to_come os st s w) < fuel
      → sz ≤ length (to_come os st s w)
      → (s' : Socket) × (w' : W) × (receive_n_bytes os fuel sz s w ≡ done (0, s', w'))
        × (length s'.data_buf ≡ sz)
        × (s'.data_buf ++ to_come os st s' w' ≡ to_come os st s w)
        × Received s s'
  receive_n_bytes-IsPrompt fuel sz s w ready hf enough =
      let (ret, s', w', run, parts, end, received) =
        receive_n_bytes_lem os st fuel sz s w ready hf in
      elim end [
        | inl (code, size) ↦ (s', w', run ∙ ap (λ r. done (r, s', w')) code, size, parts, received)
        | inr (code, short) ↦
            let (tmp, last, w₂, ran, long) =
              n_loop_prompt fuel sz [] 0 false s w ready (λ e. cc) hf (omega arith) (omega arith) in
            let fits : ltb (length tmp) sz ≡ false = ground arith in
            let zero_code : ret ≡ 0 =
              ap (λ r. r.0)
                (done-injective (ret, s', w') (0, keep_front sz tmp (with_input s last), w₂)
                  (sym run
                    ∙ receive_n_bytes_enough fuel sz s w tmp (with_input s last) w₂ ran fits)) in
            absurd (omega (arith, code, zero_code))
      ]
