-- ===== src/Socket/Collect/Exact.antt =====
-- `receiveNBytes` hands over exactly the next bytes of the stream.
use synap_tcp.Base.{
  ℕ, zero, suc, ◌+◌, ◌-◌, ◌*◌, ◌≤◌, ◌<◌, ◌≡◌, refl, sym, ap, ◌∙◌, ◌⊎◌, inl, inr, Bool, true, false,
  List, [], ◌∷◌, ◌++◌, append_assoc, append-nil, done, arith, ltb, leb, ◌==◌, if◌then◌else◌,
  Bool-cases, length, length-append, length_zero, ltb→lt, take, drop, take-append-drop,
  length-take_le, drop_all, take_all,
}
use synap_tcp.Socket.{Socket}
use synap_tcp.Socket.Os.{Os, IsStream}
use synap_tcp.Socket.Receive.Total.{Received, IsReady, with_input}
use synap_tcp.Socket.Collect.Input.{to_come, next_input_total}
use synap_tcp.Socket.Collect.{keep_front, n_loop, receive_n_bytes}

-- The last piece received is all of `tmp` if it is as long.
abbrev pub IsLast : List ℕ → List ℕ → Type 0
IsLast last tmp = length last ≡ length tmp → last ≡ tmp

pub IsLast-append : (tmp last : List ℕ) → IsLast last (tmp ++ last)
IsLast-append [] last e = refl
IsLast-append (x ∷ tmp) last e = absurd (omega (arith, length-append tmp last))

pub IsLast-nil : (tmp : List ℕ) → IsLast [] tmp
IsLast-nil tmp e = sym (length_zero tmp (sym e))

-- Cutting `tmp` at `size` loses nothing.
pub keep_front_lem :
    (size : ℕ) (tmp last : List ℕ) (s : Socket)
    → size ≤ length tmp
    → IsLast last tmp
    → keep_front size tmp (with_input s last)
      ≡ record s { mtx = false; data_buf = take size tmp; remaining_data = drop size tmp }
unfolding keep_front
keep_front_lem size tmp last s fits same = elim (Bool-cases (length last == length tmp)) [
  | inl e ↦ rw (same (ground arith)) (ground (arith, take_all size tmp, drop_all size tmp))
  | inr e ↦ ground (arith, drop_all size tmp)
]

left-lt :
    (first : Bool) (tries : ℕ)
    → (first ≡ false → tries ≡ 0)
    → ltb 0 (if first then tries - 1 else tries) ≡ true
    → (if first then tries - 1 else tries) < tries
left-lt true tries hi h = ground arith
left-lt false tries hi h = ground (arith, hi refl)

module _ {W : Type 0} (os : Os W) (st : IsStream os) where
  open st use {incoming}

  -- `isRcvFirstBytes` is set once there are tries to count.
  pub n_loop_total :
      (fuel sz : ℕ) (tmp : List ℕ) (tries : ℕ) (first : Bool) (s : Socket) (w : W)
      → IsReady s
      → (first ≡ false → tries ≡ 0)
      → s.keep_alive_ms + 4 * length (to_come os st s w) + tries < fuel
      → (tmp' last : List ℕ) × (w' : W) × (n_loop os fuel sz tmp tries first s w
          ≡ done (tmp', with_input s last, w'))
        × (tmp' ++ incoming w' ≡ tmp ++ to_come os st s w)
        × IsLast last tmp'
  unfolding n_loop
  n_loop_total zero sz tmp tries first s w ready hi hf = absurd (omega arith)
  n_loop_total (suc fuel) sz tmp tries first s w ready hi hf =
      let (bytes, w₁, ran, front) = next_input_total os st (suc fuel) sz s w ready (omega arith) in
      let ready' : IsReady (with_input s bytes) = (refl, ready.1, ready.2) in
      let size : length bytes + length (incoming w₁) ≡ length (to_come os st s w) =
        sym (length-append bytes (incoming w₁)) ∙ ap length front in
      elim (Bool-cases (length bytes == 0)) [
        | inl empty ↦
            let nothing : bytes ≡ [] = length_zero bytes (ground arith) in
            let same : incoming w₁ ≡ to_come os st s w =
              sym (ap (λ b. b ++ incoming w₁) nothing) ∙ front in
            elim (Bool-cases (ltb 0 (if first then tries - 1 else tries))) [
              | inl more ↦
                  let (tmp', last, w', run, eq, is_last) =
                    n_loop_total fuel sz tmp (if first then tries - 1 else tries) first
                      (with_input s bytes) w₁ ready' (λ e. rw e (hi e))
                      (omega (arith, size, left-lt first tries hi more)) in
                  (tmp', last, w', rw (ran, empty, more) run, eq ∙ ap (◌++◌ tmp) same, is_last)
              | inr stop ↦ (
                tmp,
                bytes,
                w₁,
                rw (ran, empty, stop) refl,
                ap (◌++◌ tmp) same,
                λ e. nothing ∙ sym (length_zero tmp (sym e ∙ ap length nothing)),
              )
            ]
        | inr some_bytes ↦
            let all : (tmp ++ bytes) ++ incoming w₁ ≡ tmp ++ to_come os st s w =
              append_assoc tmp bytes (incoming w₁) ∙ ap (◌++◌ tmp) front in
            let got : (tmp ++ bytes) ++ [] ≡ tmp ++ bytes = append-nil (tmp ++ bytes) in
            elim (Bool-cases (leb sz (length (tmp ++ bytes)))) [
              | inl enough ↦ (
                tmp ++ bytes,
                bytes,
                w₁,
                rw (ran, some_bytes, got, enough) refl,
                all,
                IsLast-append tmp bytes,
              )
              | inr few ↦ elim (Bool-cases (ltb 0 (if first then tries else 3))) [
                | inl more ↦
                    let (tmp', last, w', run, eq, is_last) =
                      n_loop_total fuel sz (tmp ++ bytes) (if first then tries else 3) true
                        (with_input s bytes) w₁ ready' (λ e. cc) (ground (arith, size)) in
                    (tmp', last, w', rw (ran, some_bytes, got, few, more) run, eq ∙ all, is_last)
                | inr stop ↦ (
                  tmp ++ bytes,
                  bytes,
                  w₁,
                  rw (ran, some_bytes, got, few, stop) refl,
                  all,
                  IsLast-append tmp bytes,
                )
              ]
            ]
      ]

  -- `receiveNBytes` on a socket that is open and free, over any stream, with enough fuel, returns.
  -- It hands over exactly `sz` bytes with code 0, or fewer with code 2; those, the remaining data
  -- and the rest of the stream are what was to come, in order. The socket stays open and free, and
  -- nothing of it changes but its buffers.
  pub receive_n_bytes_lem :
      (fuel sz : ℕ) (s : Socket) (w : W)
      → IsReady s
      → s.keep_alive_ms + 4 * length (to_come os st s w) < fuel
      → (ret : ℕ) × (s' : Socket) × (w' : W) × (receive_n_bytes os fuel sz s w ≡ done (ret, s', w'))
        × (s'.data_buf ++ to_come os st s' w' ≡ to_come os st s w)
        × (((ret ≡ 0) × (length s'.data_buf ≡ sz)) ⊎ ((ret ≡ 2) × (length s'.data_buf < sz)))
        × Received s s'
  unfolding receive_n_bytes
  receive_n_bytes_lem fuel sz s w ready hf =
      let (tmp, last, w', run, eq, is_last) =
        n_loop_total fuel sz [] 0 false s w ready (λ _. refl) (omega arith) in
      elim (Bool-cases (ltb (length tmp) sz)) [
        | inl short ↦ (
          2,
          record s { mtx = false; data_buf = tmp; remaining_data = [] },
          w',
          rw (run, short) refl,
          eq,
          inr (refl, ltb→lt (length tmp) sz short),
          ((refl, ready.1, ready.2), refl),
        )
        | inr long ↦
            let fits : sz ≤ length tmp = ground arith in
            (
              0,
              record s { mtx = false; data_buf = take sz tmp; remaining_data = drop sz tmp },
              w',
              rw (run, long)
                  (ap (λ o. done (0, o, w')) (keep_front_lem sz tmp last s fits is_last)),
              sym (append_assoc (take sz tmp) (drop sz tmp) (incoming w'))
                  ∙ ap (λ d. d ++ incoming w') (take-append-drop sz tmp)
                  ∙ eq,
              inl (refl, length-take_le sz tmp fits),
              ((refl, ready.1, ready.2), refl),
            )
      ]
