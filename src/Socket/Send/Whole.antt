-- ===== src/Socket/Send/Whole.antt =====
-- `sendData` sends the whole buffer, or a front part of it and reports the failure.
use synap_tcp.Base.{
  ℕ, zero, suc, ◌+◌, ◌-◌, ◌≤◌, ◌<◌, ◌≡◌, refl, sym, ap, ◌∙◌, ◌⊎◌, inl, inr, true, false, some, ℤ,
  List, ◌++◌, append_assoc, append-nil, is_non_positive, done, arith, ltb, Bool-cases, length, take,
  drop, length-drop, take-add,
}
use synap_tcp.Socket.{Socket, unlock_wmtx}
use synap_tcp.Socket.Os.{Os}
use synap_tcp.Socket.Receive.Total.{HasChannel}
use synap_tcp.Socket.Send.{write_chunk, send_loop, send_data}

-- What a connection has taken from the program: a write appends the bytes that it reports.
pub record IsSink {W : Type 0} (os : Os W) : Type 0 where
  pub sent : W → List ℕ
  pub write_fits : (fd : ℤ) (bytes : List ℕ) (w : W) → (os.write fd bytes w).0 ≤ length bytes
  pub write_sent :
      (fd : ℤ) (bytes : List ℕ) (w : W)
      → sent (os.write fd bytes w).1 ≡ sent w ++ take (os.write fd bytes w).0 bytes
  pub ssl_write_fits : (c : ℕ) (bytes : List ℕ) (w : W) → (os.ssl_write c bytes w).0 ≤ length bytes
  pub ssl_write_sent :
      (c : ℕ) (bytes : List ℕ) (w : W)
      → sent (os.ssl_write c bytes w).1 ≡ sent w ++ take (os.ssl_write c bytes w).0 bytes

module _ {W : Type 0} (os : Os W) (sink : IsSink os) where
  open sink use {sent}

  write_chunk_total :
      (rest : List ℕ) (s : Socket) (w : W)
      → HasChannel s
      → (n : ℕ) × (w' : W) × (write_chunk os rest s w ≡ some (n, w'))
        × (n ≤ length rest)
        × (sent w' ≡ sent w ++ take n rest)
  unfolding write_chunk
  write_chunk_total rest s w (inl off) = (
    (os.write s.sock_fd rest w).0,
    (os.write s.sock_fd rest w).1,
    rw off refl,
    sink.write_fits s.sock_fd rest w,
    sink.write_sent s.sock_fd rest w,
  )
  write_chunk_total rest s w (inr (c, e)) = elim (Bool-cases s.use_ssl) [
    | inl on ↦ (
      (os.ssl_write c rest w).0,
      (os.ssl_write c rest w).1,
      rw on (rw e refl),
      sink.ssl_write_fits c rest w,
      sink.ssl_write_sent c rest w,
    )
    | inr off ↦ (
      (os.write s.sock_fd rest w).0,
      (os.write s.sock_fd rest w).1,
      rw off refl,
      sink.write_fits s.sock_fd rest w,
      sink.write_sent s.sock_fd rest w,
    )
  ]

  -- All of the buffer with code 0, or a proper front part of it with code 2.
  abbrev pub SendEnd : List ℕ → ℕ → ℕ → Type 0
  SendEnd buffer ret total =
      ((ret ≡ 0) × (total ≡ length buffer)) ⊎ ((ret ≡ 2) × (total < length buffer))

  send_loop_total :
      (fuel : ℕ) (buffer : List ℕ) (total : ℕ) (s : Socket) (w w₀ : W)
      → HasChannel s
      → total ≤ length buffer
      → length buffer < total + fuel
      → sent w ≡ sent w₀ ++ take total buffer
      → (ret total' : ℕ) × (w' : W) × (send_loop os fuel buffer total s w
          ≡ done (ret, unlock_wmtx s, w'))
        × (sent w' ≡ sent w₀ ++ take total' buffer)
        × SendEnd buffer ret total'
  unfolding send_loop
  send_loop_total zero buffer total s w w₀ chan le hf eq = absurd (omega arith)
  send_loop_total (suc fuel) buffer total s w w₀ chan le hf eq =
      elim (Bool-cases (ltb total (length buffer))) [
        | inr all ↦ (0, total, w, rw all refl, eq, inl (refl, ground arith))
        | inl left ↦
            let (n, w₁, wrote, fits, out) = write_chunk_total (drop total buffer) s w chan in
            let size : length (drop total buffer) ≡ length buffer - total =
              length-drop total buffer in
            let eq' : sent w₁ ≡ sent w₀ ++ take (total + n) buffer =
              out
              ∙ ap (λ x. x ++ take n (drop total buffer)) eq
              ∙ append_assoc (sent w₀) (take total buffer) (take n (drop total buffer))
              ∙ ap (◌++◌ (sent w₀)) (sym (take-add total n buffer)) in
            elim (Bool-cases (ltb 0 n)) [
              | inl some_bytes ↦
                  let (ret, total', w', run, eq'', end) =
                    send_loop_total fuel buffer (total + n) s w₁ w₀ chan (omega (arith, size, fits))
                      (ground (arith, size)) eq' in
                  (ret, total', w', rw (left, wrote, some_bytes) run, eq'', end)
              | inr failed ↦ (
                2,
                total + n,
                w₁,
                rw (left, wrote, failed) refl,
                eq',
                inr (refl, ground (arith, size)),
              )
            ]
      ]

  -- On a socket that is open and that nobody writes to, with fuel for each byte and one more round,
  -- the method returns 0 after the whole buffer, or 2 after a front part of it that is not all.
  -- Nothing of the object changes.
  pub send_data_lem :
      (fuel : ℕ) (buffer : List ℕ) (s : Socket) (w : W)
      → s.wmtx ≡ false
      → is_non_positive s.sock_fd ≡ false
      → HasChannel s
      → length buffer < fuel
      → (ret total : ℕ) × (w' : W) × (send_data os fuel buffer s w ≡ done (ret, s, w'))
        × (sent w' ≡ sent w ++ take total buffer)
        × SendEnd buffer ret total
  unfolding send_data
  send_data_lem fuel buffer s w free fd chan hf =
      let (ret, total, w', run, eq, end) =
        send_loop_total fuel buffer 0 (record s { wmtx = true }) w w chan (omega arith)
          (omega arith) (sym (append-nil (sent w))) in
      (ret, total, w', rw (free, fd, run) (ground arith), eq, end)
