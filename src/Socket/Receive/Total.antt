-- ===== src/Socket/Receive/Total.antt =====
-- `receiveData` returns, and neither loses nor makes up a byte of the stream.
use synap_tcp.Base.{
  ℕ, zero, suc, ◌+◌, ◌<◌, ◌≡◌, refl, ap, ◌∙◌, ◌⊎◌, inl, inr, Bool, true, false, some, List, [],
  ◌++◌, append_assoc, append-nil, is_non_positive, done, arith, ◌==◌, if◌then◌else◌, Bool-cases,
  length, length-append,
}
use synap_tcp.Socket.{Socket}
use synap_tcp.Socket.Os.{Os, IsStream}
use synap_tcp.Socket.Receive.Wait.{relock, await_more_total}
use synap_tcp.Socket.Receive.{
  read_chunk, push_chunk, wants_more, finished, read_loop, start_buffer, finish_receive,
  receive_data,
}

-- SSL is off, or has a connection.
abbrev pub HasChannel : Socket → Type 0
HasChannel s = (s.use_ssl ≡ false) ⊎ ((c : ℕ) × (s.ssl_conn ≡ some c))

abbrev pub with_input : Socket → List ℕ → Socket
with_input s bytes = record s { mtx = false; data_buf = bytes; remaining_data = [] }

-- The return code of a reception that has got `bytes`.
abbrev pub input_code : List ℕ → ℕ
input_code bytes = if length bytes == 0 then 2 else 0

-- An open socket that no method holds.
abbrev pub IsReady : Socket → Type 0
IsReady s = (s.mtx ≡ false) × (is_non_positive s.sock_fd ≡ false) × HasChannel s

-- What a reception leaves of the socket: it is ready again, and nothing but what it holds has changed.
abbrev pub Received : Socket → Socket → Type 0
Received s s' =
    IsReady s'
    × (s' ≡ record s { mtx = false; data_buf = s'.data_buf; remaining_data = s'.remaining_data })

module _ {W : Type 0} (os : Os W) (st : IsStream os) where
  open st use {incoming}

  read_chunk_total :
      (s : Socket) (w : W)
      → HasChannel s
      → (bytes : List ℕ) × (w' : W) × (read_chunk os s w ≡ some (bytes, w'))
        × (bytes ++ incoming w' ≡ incoming w)
  unfolding read_chunk
  read_chunk_total s w (inl off) = (
    (os.read s.sock_fd 128 w).0,
    (os.read s.sock_fd 128 w).1,
    rw off refl,
    st.read_front s.sock_fd 128 w,
  )
  read_chunk_total s w (inr (c, e)) = elim (Bool-cases s.use_ssl) [
    | inl on ↦ (
      (os.ssl_read c 128 w).0,
      (os.ssl_read c 128 w).1,
      rw on (rw e refl),
      st.ssl_read_front c 128 w,
    )
    | inr off ↦ (
      (os.read s.sock_fd 128 w).0,
      (os.read s.sock_fd 128 w).1,
      rw off refl,
      st.read_front s.sock_fd 128 w,
    )
  ]

  -- The loop appends a front part of the stream to the buffer.
  pub read_loop_total :
      (fuel sz : ℕ) (s : Socket) (w : W)
      → s.mtx ≡ true
      → HasChannel s
      → s.keep_alive_ms + length (incoming w) < fuel
      → (bytes : List ℕ) × (w' : W) × (read_loop os fuel sz s w
          ≡ done (finished, relock (push_chunk s bytes), w'))
        × (bytes ++ incoming w' ≡ incoming w)
  unfolding read_loop push_chunk wants_more
  read_loop_total zero sz s w held chan hf = absurd (omega arith)
  read_loop_total (suc fuel) sz s w held chan hf =
      let (go_on, w₁, ran, kept) = await_more_total os st (suc fuel) s w held (omega arith) in
      rw ran (elim (Bool-cases go_on) [
        | inr stop ↦ ([], w₁, rw stop (simp append-nil), kept)
        | inl go ↦
            let (bytes, w₂, got, front) = read_chunk_total (relock s) w₁ chan in
            rw (go, got)
              (elim (Bool-cases (wants_more sz bytes (push_chunk s bytes))) [
                | inr enough ↦ (bytes, w₂, rw enough refl, front ∙ kept)
                | inl more ↦
                    let (rest, w₃, run, tail) =
                      read_loop_total fuel sz (push_chunk (relock s) bytes) w₂ refl chan (
                        ground
                          (arith, length-append bytes (incoming w₂), ap length (front ∙ kept))) in
                    (
                      bytes ++ rest,
                      w₃,
                      rw more (
                          run
                          ∙ ap (λ d. done (finished, record s { mtx = true; data_buf = d }, w₃))
                              (append_assoc s.data_buf bytes rest)),
                      append_assoc bytes rest (incoming w₃) ∙ ap (◌++◌ bytes) tail ∙ front ∙ kept,
                    )
              ])
      ])

  -- What the loop leaves: the old remaining data and a front part of the stream.
  pub receive_data_total :
      (fuel sz : ℕ) (dont_split : Bool) (s : Socket) (w : W)
      → IsReady s
      → s.keep_alive_ms + length (incoming w) < fuel
      → (bytes : List ℕ) × (w' : W) × (receive_data os fuel sz dont_split s w
          ≡ done (
              finish_receive sz dont_split finished
                (relock (push_chunk (start_buffer s) bytes))
                w'))
        × (bytes ++ incoming w' ≡ incoming w)
  unfolding receive_data push_chunk
  receive_data_total fuel sz dont_split s w (free, fd, chan) hf =
      let (bytes, w', run, front) =
        read_loop_total fuel sz (start_buffer (relock s)) w refl chan hf in
      (bytes, w', rw (free, fd, run) refl, front)

pub finish_unsplit :
    {W : Type 0} (sz : ℕ) (s : Socket) (w : W)
    → s.remaining_data ≡ []
    → finish_receive sz true finished s w ≡ (input_code s.data_buf, with_input s s.data_buf, w)
unfolding finish_receive
finish_unsplit sz s w none_left = ground arith

module _ {W : Type 0} (os : Os W) (st : IsStream os) where
  open st use {incoming}

  pub receive_unsplit_total :
      (fuel sz : ℕ) (s : Socket) (w : W)
      → IsReady s
      → s.keep_alive_ms + length (incoming w) < fuel
      → (bytes : List ℕ) × (w' : W) × (receive_data os fuel sz true s w
          ≡ done (input_code bytes, with_input s bytes, w'))
        × (bytes ++ incoming w' ≡ s.remaining_data ++ incoming w)
  unfolding push_chunk
  receive_unsplit_total fuel sz s w ready hf =
      let (bytes, w', run, front) = receive_data_total os st fuel sz true s w ready hf in
      (
        s.remaining_data ++ bytes,
        w',
        run ∙ ap done (finish_unsplit sz (relock (push_chunk (start_buffer s) bytes)) w' refl),
        append_assoc s.remaining_data bytes (incoming w') ∙ ap (◌++◌ s.remaining_data) front,
      )
