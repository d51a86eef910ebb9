-- ===== src/Socket/Collect/Stop.antt =====
-- `receiveStopBytes` tells whether the next bytes of the stream are the stop bytes.
use synap_tcp.Base.{
  ℕ, zero, suc, ◌+◌, ◌-◌, ◌≤◌, ◌<◌, ◌≡◌, ◌≢◌, refl, sym, ap, ◌∙◌, ◌⊎◌, inl, inr, Bool, true, false,
  List, [], ◌∷◌, ◌++◌, append_assoc, append-nil, done, arith, ltb, leb, ◌==◌, Bool-cases, length,
  length-append, length_zero, ltb→lt, take, drop, take-append-drop,
}
use synap_tcp.Socket.{Socket}
use synap_tcp.Socket.Os.{Os, IsStream}
use synap_tcp.Socket.Receive.Total.{Received, IsReady, with_input}
use synap_tcp.Socket.Collect.Input.{to_come, next_input_total}
use synap_tcp.Socket.Receive.Prompt.{IsPrompt}
use synap_tcp.Socket.Collect.Prompt.{next_input_ended}
use synap_tcp.Socket.Collect.Exact.{IsLast, IsLast-append, keep_front_lem}
use synap_tcp.Socket.Collect.{same_bytes, stop_loop, receive_stop_bytes}

pub same_bytes-eq : (xs ys : List ℕ) → same_bytes xs ys ≡ true → xs ≡ ys
same_bytes-eq [] [] h = refl
same_bytes-eq [] (y ∷ ys) h = cc
same_bytes-eq (x ∷ xs) [] h = cc
same_bytes-eq (x ∷ xs) (y ∷ ys) h = ground (arith, same_bytes-eq xs ys)

pub same_bytes_refl : (xs : List ℕ) → same_bytes xs xs ≡ true
same_bytes_refl [] = refl
same_bytes_refl (x ∷ xs) = ground (arith, same_bytes_refl xs)

pub same_bytes-ne : (xs ys : List ℕ) → same_bytes xs ys ≡ false → xs ≢ ys
same_bytes-ne xs ys h e = cc (same_bytes_refl ys, ap (λ x. same_bytes x ys) e)

module _ {W : Type 0} (os : Os W) (st : IsStream os) where
  open st use {incoming}

  -- At the end of the stream, if the system is prompt.
  abbrev pub Ended : W → Type 0
  Ended w = IsPrompt st → incoming w ≡ []

  -- The loop ends with enough bytes and their comparison, or short of them after a timeout.
  abbrev pub StopEnd : List ℕ → Bool → ℕ → List ℕ → List ℕ → W → Type 0
  StopEnd stop found ret tmp last w =
      ((length stop ≤ length tmp)
        × (found ≡ same_bytes (take (length stop) tmp) stop)
        × (ret ≡ 0)
        × IsLast last tmp)
      ⊎ ((length tmp < length stop) × Ended w)

  pub stop_loop_total :
      (fuel : ℕ) (stop tmp : List ℕ) (s : Socket) (w : W)
      → IsReady s
      → length tmp < length stop
      → s.keep_alive_ms + length (to_come os st s w) < fuel
      → (found : Bool) × (ret : ℕ) × (tmp' last : List ℕ) × (w' : W) × (stop_loop os fuel stop tmp s
            w
          ≡ done (found, ret, tmp', with_input s last, w'))
        × (tmp' ++ incoming w' ≡ tmp ++ to_come os st s w)
        × StopEnd stop found ret tmp' last w'
  unfolding stop_loop
  stop_loop_total zero stop tmp s w ready hs hf = absurd (omega arith)
  stop_loop_total (suc fuel) stop tmp s w ready hs hf =
      let (bytes, w₁, ran, front) =
        next_input_total os st (suc fuel) (length stop - length tmp) s w ready (omega arith) in
      let ready' : IsReady (with_input s bytes) = (refl, ready.1, ready.2) in
      let size : length bytes + length (incoming w₁) ≡ length (to_come os st s w) =
        sym (length-append bytes (incoming w₁)) ∙ ap length front in
      elim (Bool-cases (length bytes == 0)) [
        | inl empty ↦
            let nothing : bytes ≡ [] = length_zero bytes (ground arith) in
            let same : incoming w₁ ≡ to_come os st s w =
              sym (ap (λ b. b ++ incoming w₁) nothing) ∙ front in
            (
              false,
              2,
              tmp,
              bytes,
              w₁,
              rw (ran, empty) refl,
              ap (◌++◌ tmp) same,
              inr (
                hs,
                λ prompt.
                    next_input_ended os st prompt (suc fuel) (length stop - length tmp) s w bytes w₁
                      ready (omega arith) ran front nothing,
              ),
            )
        | inr some_bytes ↦
            let all : (tmp ++ bytes) ++ incoming w₁ ≡ tmp ++ to_come os st s w =
              append_assoc tmp bytes (incoming w₁) ∙ ap (◌++◌ tmp) front in
            let got : (tmp ++ bytes) ++ [] ≡ tmp ++ bytes = append-nil (tmp ++ bytes) in
            elim (Bool-cases (leb (length stop) (length (tmp ++ bytes)))) [
              | inl enough ↦ (
                same_bytes (take (length stop) (tmp ++ bytes)) stop,
                0,
                tmp ++ bytes,
                bytes,
                w₁,
                rw (ran, some_bytes, got, enough) refl,
                all,
                inl (ground arith, refl, refl, IsLast-append tmp bytes),
              )
              | inr few ↦
                  let (found, ret, tmp', last, w', run, eq, end) =
                    stop_loop_total fuel stop (tmp ++ bytes) (with_input s bytes) w₁ ready'
                      (ground arith) (ground (arith, size)) in
                  (found, ret, tmp', last, w', rw (ran, some_bytes, got, few) run, eq ∙ all, end)
            ]
      ]

  Ended-at :
      (stop : List ℕ) (found : Bool) (ret : ℕ) (tmp last : List ℕ) (w : W)
      → StopEnd stop found ret tmp last w
      → length tmp < length stop
      → Ended w
  Ended-at stop found ret tmp last w (inl (fits, _, _, _)) short = absurd (omega arith)
  Ended-at stop found ret tmp last w (inr (_, ended)) short = ended

  pub receive_stop_bytes_total :
      (fuel : ℕ) (stop : List ℕ) (s : Socket) (w : W)
      → IsReady s
      → 0 < length stop
      → s.keep_alive_ms + length (to_come os st s w) < fuel
      → (ret : ℕ) × (s' : Socket) × (w' : W) × (receive_stop_bytes os fuel stop s w
          ≡ done (ret, s', w'))
        × (s'.data_buf ++ to_come os st s' w' ≡ to_come os st s w)
        × (((ret ≡ 0) × (s'.data_buf ≡ stop))
            ⊎ (((ret ≡ 3)
                  × (length stop ≤ length s'.data_buf)
                  × (take (length stop) s'.data_buf ≢ stop))
                ⊎ ((ret ≡ 2)
                    × (length s'.data_buf < length stop)
                    × (IsPrompt st → to_come os st s' w' ≡ []))))
        × Received s s'
  unfolding receive_stop_bytes
  receive_stop_bytes_total fuel stop s w ready some_stop hf =
      let (found, ret, tmp, last, w', run, eq, end) =
        stop_loop_total fuel stop [] s w ready some_stop hf in
      let sz : ℕ = length stop in
      let all : Socket = record s { mtx = false; data_buf = tmp; remaining_data = [] } in
      elim (Bool-cases (ltb (length tmp) sz)) [
        | inl short ↦ (
          2,
          all,
          w',
          rw (run, short) refl,
          eq,
          inr (
              inr (
                refl,
                ltb→lt (length tmp) sz short,
                Ended-at stop found ret tmp last w' end (ltb→lt (length tmp) sz short),
              )),
          ((refl, ready.1, ready.2), refl),
        )
        | inr long ↦ elim end [
          | inr (short, _) ↦ absurd (ground arith)
          | inl (fits, is_found, code, is_last) ↦ elim (Bool-cases found) [
            | inr other ↦ (
              3,
              all,
              w',
              rw (run, long, other) refl,
              eq,
              inr (inl (refl, fits, same_bytes-ne (take sz tmp) stop (sym is_found ∙ other))),
              ((refl, ready.1, ready.2), refl),
            )
            | inl same ↦ (
              0,
              record s { mtx = false; data_buf = take sz tmp; remaining_data = drop sz tmp },
              w',
              rw (run, long, same, code)
                  (rw (keep_front_lem sz tmp last s fits is_last) (ground arith)),
              sym (append_assoc (take sz tmp) (drop sz tmp) (incoming w'))
                  ∙ ap (λ d. d ++ incoming w') (take-append-drop sz tmp)
                  ∙ eq,
              inl (refl, same_bytes-eq (take sz tmp) stop (sym is_found ∙ same)),
              ((refl, ready.1, ready.2), refl),
            )
          ]
        ]
      ]

  -- For at least one stop byte, with enough fuel, on a socket that is open and free, over any stream,
  -- the method returns: 0 with the stop bytes, 3 with at least as many bytes that start otherwise, or 2 with fewer bytes. What it hands over,
  -- the remaining data and the rest of the stream are what was to come, in order. The socket stays
  -- open and free, and nothing of it changes but its buffers.
  pub receive_stop_bytes_lem :
      (fuel : ℕ) (stop : List ℕ) (s : Socket) (w : W)
      → IsReady s
      → 0 < length stop
      → s.keep_alive_ms + length (to_come os st s w) < fuel
      → (ret : ℕ) × (s' : Socket) × (w' : W) × (receive_stop_bytes os fuel stop s w
          ≡ done (ret, s', w'))
        × (s'.data_buf ++ to_come os st s' w' ≡ to_come os st s w)
        × (((ret ≡ 0) × (s'.data_buf ≡ stop))
            ⊎ (((ret ≡ 3)
                  × (length stop ≤ length s'.data_buf)
                  × (take (length stop) s'.data_buf ≢ stop))
                ⊎ ((ret ≡ 2) × (length s'.data_buf < length stop))))
        × Received s s'
  receive_stop_bytes_lem fuel stop s w ready some_stop hf =
      let (ret, s', w', run, parts, end, received) =
        receive_stop_bytes_total fuel stop s w ready some_stop hf in
      (
        ret,
        s',
        w',
        run,
        parts,
        elim end [
          | inl same ↦ inl same
          | inr (inl other) ↦ inr (inl other)
          | inr (inr (code, short, _)) ↦ inr (inr (code, short))
        ],
        received,
      )
