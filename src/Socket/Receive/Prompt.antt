-- ===== src/Socket/Receive/Prompt.antt =====
-- `receiveData` gets something when something is to come, on a system whose reads wait for it.
use synap_tcp.Base.{
  ℕ, zero, suc, ◌+◌, ◌<◌, ◌≡◌, refl, sym, ap, ◌∙◌, inl, inr, true, some, ℤ, List, [], ◌++◌,
  append_assoc, done, done-injective, arith, Bool-cases, length, length-append,
}
use synap_tcp.Socket.{Socket}
use synap_tcp.Socket.Os.{Os, IsStream}
use synap_tcp.Socket.Receive.Wait.{relock}
use synap_tcp.Socket.Receive.{
  await_more, read_chunk, push_chunk, wants_more, finished, read_loop, start_buffer, receive_data,
}
use synap_tcp.Socket.Receive.Total.{
  HasChannel, IsReady, with_input, input_code, read_loop_total, finish_unsplit,
}

-- A read waits until there is input: it gives no byte only at the end of the stream.
pub record IsPrompt {W : Type 0} {os : Os W} (st : IsStream os) : Type 0 where
  pub read_some :
      (fd : ℤ) (n : ℕ) (w : W) → 0 < n → 0 < length (st.incoming w) → 0 < length (os.read fd n w).0
  pub ssl_read_some :
      (c n : ℕ) (w : W) → 0 < n → 0 < length (st.incoming w) → 0 < length (os.ssl_read c n w).0

module _ {W : Type 0} (os : Os W) (st : IsStream os) (prompt : IsPrompt st) where
  open st use {incoming}

  read_chunk_prompt :
      (s : Socket) (w : W)
      → HasChannel s
      → 0 < length (incoming w)
      → (bytes : List ℕ) × (w' : W) × (read_chunk os s w ≡ some (bytes, w'))
        × (bytes ++ incoming w' ≡ incoming w)
        × (0 < length bytes)
  unfolding read_chunk
  read_chunk_prompt s w (inl off) more = (
    (os.read s.sock_fd 128 w).0,
    (os.read s.sock_fd 128 w).1,
    rw off refl,
    st.read_front s.sock_fd 128 w,
    prompt.read_some s.sock_fd 128 w (omega arith) more,
  )
  read_chunk_prompt s w (inr (c, e)) more = elim (Bool-cases s.use_ssl) [
    | inl on ↦ (
      (os.ssl_read c 128 w).0,
      (os.ssl_read c 128 w).1,
      rw on (rw e refl),
      st.ssl_read_front c 128 w,
      prompt.ssl_read_some c 128 w (omega arith) more,
    )
    | inr off ↦ (
      (os.read s.sock_fd 128 w).0,
      (os.read s.sock_fd 128 w).1,
      rw off refl,
      st.read_front s.sock_fd 128 w,
      prompt.read_some s.sock_fd 128 w (omega arith) more,
    )
  ]

  await_more_empty :
      (fuel : ℕ) (s : Socket) (w : W) → s.data_buf ≡ [] → await_more os fuel s w ≡ done (true, s, w)
  unfolding await_more
  await_more_empty fuel s w empty = rw (ap length empty) refl

  read_loop_prompt :
      (fuel sz : ℕ) (s : Socket) (w : W)
      → s.data_buf ≡ []
      → HasChannel s
      → s.keep_alive_ms + length (incoming w) < fuel
      → 0 < length (incoming w)
      → (bytes : List ℕ) × (w' : W) × (read_loop os fuel sz (relock s) w
          ≡ done (finished, relock (push_chunk s bytes), w'))
        × (0 < length bytes)
  unfolding read_loop push_chunk wants_more
  read_loop_prompt zero sz s w empty chan hf some_input = absurd (omega arith)
  read_loop_prompt (suc fuel) sz s w empty chan hf some_input =
      let (bytes, w₂, got, front, some_bytes) = read_chunk_prompt (relock s) w chan some_input in
      rw (await_more_empty (suc fuel) (relock s) w empty, got)
        (elim (Bool-cases (wants_more sz bytes (push_chunk s bytes))) [
          | inr enough ↦ (bytes, w₂, rw enough refl, some_bytes)
          | inl more ↦
              let (rest, w₃, run, tail) =
                read_loop_total os st fuel sz (push_chunk (relock s) bytes) w₂ refl chan
                  (omega (arith, length-append bytes (incoming w₂), ap length front)) in
              (
                bytes ++ rest,
                w₃,
                rw more (
                    run
                    ∙ ap (λ d. done (finished, record s { mtx = true; data_buf = d }, w₃))
                        (append_assoc s.data_buf bytes rest)),
                omega (arith, length-append bytes rest),
              )
        ])

  -- A reception that has got nothing has met the end of the stream.
  pub receive_unsplit_prompt :
      (fuel sz : ℕ) (s : Socket) (w : W) (bytes : List ℕ) (w' : W)
      → IsReady s
      → s.remaining_data ≡ []
      → s.keep_alive_ms + length (incoming w) < fuel
      → 0 < length (incoming w)
      → receive_data os fuel sz true s w ≡ done (input_code bytes, with_input s bytes, w')
      → 0 < length bytes
  unfolding receive_data push_chunk
  receive_unsplit_prompt fuel sz s w bytes w' (free, fd, chan) none_left hf some_input run =
      let (got, w₂, ran, some_bytes) =
        read_loop_prompt fuel sz (start_buffer (relock s)) w none_left chan hf some_input in
      let here : receive_data os fuel sz true s w
          ≡ done
              (input_code (s.remaining_data ++ got), with_input s (s.remaining_data ++ got), w₂) =
        rw (free, fd, ran)
          (ap done
            (finish_unsplit sz (relock (push_chunk (start_buffer (relock s)) got)) w₂ refl)) in
      let same : bytes ≡ s.remaining_data ++ got =
        ap (λ r. r.1.data_buf)
          (done-injective (input_code bytes, with_input s bytes, w')
            (input_code (s.remaining_data ++ got), with_input s (s.remaining_data ++ got), w₂)
            (sym run ∙ here)) in
      omega (arith, ap length same, length-append s.remaining_data got)
