-- ===== src/Socket/Receive/Wait.antt =====
-- The waits of `receiveData` end, and read nothing.
use synap_tcp.Base.{
  ℕ, zero, suc, ◌+◌, ◌*◌, ◌≤◌, ◌<◌, ◌≡◌, refl, ◌∙◌, inl, inr, Bool, true, false, pos, ltb_ℤ, done,
  arith, ◌==◌, Bool-cases, length,
}
use synap_tcp.Socket.{Socket, TimeVal, unlock_mtx}
use synap_tcp.Socket.Settings.{diff_ms}
use synap_tcp.Socket.Settings.Clock.{micros, diff_ms_below}
use synap_tcp.Socket.Os.{Os, IsStream}
use synap_tcp.Socket.Receive.{is_positive, is_input_bytes_available, wait_input, await_more}

abbrev pub relock : Socket → Socket
relock s = record s { mtx = true }

module _ {W : Type 0} (os : Os W) (st : IsStream os) where
  open st use {incoming, clock}

  pub is_input_bytes_available_lem :
      (s : Socket) (w : W)
      → s.mtx ≡ false
      → is_input_bytes_available os s w
        ≡ done (is_positive (os.fionread s.sock_fd w).0, unlock_mtx s, (os.fionread s.sock_fd w).1)
  unfolding is_input_bytes_available
  is_input_bytes_available_lem s w free = rw free refl

  -- The wait ends within `keepAliveMs` rounds, since each sleeps a millisecond.
  pub wait_input_total :
      (fuel : ℕ) (start : TimeVal) (m : ℕ) (s : Socket) (w : W)
      → s.mtx ≡ false
      → start.tv_usec < 1000000
      → micros start + 1000 * m ≤ clock w
      → m ≤ s.keep_alive_ms
      → s.keep_alive_ms < m + fuel
      → (w' : W) × (wait_input os fuel start s w ≡ done (unlock_mtx s, w'))
        × (incoming w' ≡ incoming w)
  unfolding wait_input
  wait_input_total zero start m s w free hs hc hm hf = absurd (omega arith)
  wait_input_total (suc fuel) start m s w free hs hc hm hf =
      rw (is_input_bytes_available_lem s w free) (elim (Bool-cases ready) [
        | inl e ↦ (w₁, rw e refl, st.fionread_incoming s.sock_fd w)
        | inr e ↦ rw e (elim (Bool-cases (ltb_ℤ (diff_ms now start) (pos s.keep_alive_ms))) [
          | inl go ↦
              let (w', run, same) =
                wait_input_total fuel start (suc m) (unlock_mtx s) w₃ refl hs later
                  (diff_ms_below now start m s.keep_alive_ms hs (st.time_usec w₂)
                    (omega (arith, later, st.time_value w₂)) go)
                  (omega arith) in
              (w', rw go run, same ∙ kept)
          | inr stop ↦ (w₃, rw stop refl, kept)
        ])
      ])
    where
      ready : Bool
      ready = is_positive (os.fionread s.sock_fd w).0

      w₁ : W
      w₁ = (os.fionread s.sock_fd w).1

      w₂ : W
      w₂ = os.usleep 1000 w₁

      now : TimeVal
      now = (os.gettimeofday w₂).0

      w₃ : W
      w₃ = (os.gettimeofday w₂).1

      kept : incoming w₃ ≡ incoming w
      kept = st.time_incoming w₂ ∙ st.usleep_incoming 1000 w₁ ∙ st.fionread_incoming s.sock_fd w

      later : micros start + 1000 * suc m ≤ clock w₃
      later =
          omega (arith, st.fionread_clock s.sock_fd w, st.usleep_clock 1000 w₁, st.time_clock w₂)

  -- With `mtx` held before and after, the wait changes nothing of the object.
  pub await_more_total :
      (fuel : ℕ) (s : Socket) (w : W)
      → s.mtx ≡ true
      → s.keep_alive_ms < fuel
      → (go_on : Bool) × (w' : W) × (await_more os fuel s w ≡ done (go_on, relock s, w'))
        × (incoming w' ≡ incoming w)
  unfolding await_more
  await_more_total fuel s w held hf = elim (Bool-cases (length s.data_buf == 0)) [
    | inl none_yet ↦ (true, w, rw none_yet (ground arith), refl)
    | inr some_yet ↦ rw some_yet (elim (Bool-cases (s.keep_alive_ms == 0)) [
      | inl none_kept ↦ (false, w, rw none_kept (ground arith), refl)
      | inr some_kept ↦
          let w₁ : W = (os.gettimeofday w).1 in
          let start : TimeVal = (os.gettimeofday w).0 in
          let (w₂, run, kept) =
            wait_input_total fuel start 0 (unlock_mtx s) w₁ refl (st.time_usec w)
              (omega (arith, st.time_value w)) (omega arith) (omega arith) in
          let w₃ : W = (os.fionread s.sock_fd w₂).1 in
          (
            is_positive (os.fionread s.sock_fd w₂).0,
            w₃,
            rw (some_kept, run, is_input_bytes_available_lem (unlock_mtx s) w₂ refl) refl,
            st.fionread_incoming s.sock_fd w₂ ∙ kept ∙ st.time_incoming w,
          )
    ])
  ]
