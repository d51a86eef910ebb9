-- ===== src/Socket/Close/Twice.antt =====
-- What `closeSocket` of class Socket (src/socket.cpp) calls and leaves, and that a second call of it does nothing.
use synap_tcp.Base.{
  ◌≡◌, refl, ap, ◌∙◌, ◌⊎◌, inl, inr, subst, ℕ, true, false, Option, none, some, ℤ, pos,
  is_non_positive, Bool-cases, done, arith,
}
use synap_tcp.Socket.{Socket, IsFree, unlock_both}
use synap_tcp.Socket.Os.{Os}
use synap_tcp.Socket.Close.{minus_one, close_fd, close_ssl, close_socket}

abbrev lock_held : Socket → Socket
lock_held s = record s { mtx = true; wmtx = true }

module _ {W : Type 0} (os : Os W) where
  -- What the two methods do between taking the mutexes and giving them back.
  abbrev drop_connection : Socket → W → Socket × W
  drop_connection h w =
      let (h', w') = close_ssl os h.ssl_conn h w in
      close_fd os (record h' { ssl_conn_routine_ok_status = pos 0 }) w'

  close_socket_steps :
      (s : Socket) (w : W)
      → IsFree s
      → let (h, w₁) = drop_connection (lock_held s) w in
        let (h', w₂) = close_fd os (lock_held h) w₁ in
        close_socket os s w ≡ done (unlock_both h', w₂)
  unfolding close_socket
  close_socket_steps s w free = rw (free.mtx_free, free.wmtx_free) refl

  -- The object after a close: no SSL connection in use, and the descriptor kept only if a close of
  -- it has failed.
  pub record IsClosed (s s' : Socket) : Type 0 where
    pub free : IsFree s'
    pub no_ssl : s'.use_ssl ≡ true → s'.ssl_conn ≡ none
    pub status : s'.ssl_conn_routine_ok_status ≡ pos 0
    pub fd : (s'.sock_fd ≡ s.sock_fd) ⊎ (s'.sock_fd ≡ minus_one)

  close_socket-IsClosed :
      (s s' : Socket) (w w' : W)
      → IsFree s
      → close_socket os s w ≡ done (s', w')
      → IsClosed s s' × (is_non_positive s'.sock_fd ≡ true → close_socket os s' w' ≡ done (s', w'))
  unfolding close_socket close_fd
  close_socket-IsClosed s s' w w' free run = ground arith

  -- A positive descriptor is closed, and closed a second time where the first close fails. It is
  -- -1 afterwards where one of them succeeds, and no other call is made from there on.
  abbrev pub Closes : ℤ → ℤ → W → Type 0
  Closes fd fd' w' =
      (is_non_positive fd ≡ true → fd' ≡ fd)
      × (is_non_positive fd ≡ false
          → (v : W) × ((((os.close fd v).0 ≡ true) × (fd' ≡ minus_one) × (w' ≡ (os.close fd v).1))
              ⊎ (((os.close fd v).0 ≡ false)
                  × ((((os.close fd (os.close fd v).1).0 ≡ true) × (fd' ≡ minus_one))
                      ⊎ (((os.close fd (os.close fd v).1).0 ≡ false) × (fd' ≡ fd)))
                  × (w' ≡ (os.close fd (os.close fd v).1).1))))

  -- What `close_fd` does, by the answers.
  close_fd-shut : (h : Socket) (v : W) → is_non_positive h.sock_fd ≡ true → close_fd os h v ≡ (h, v)
  unfolding close_fd
  close_fd-shut h v shut = rw shut refl

  close_fd-closed :
      (h : Socket) (v : W)
      → is_non_positive h.sock_fd ≡ false
      → (os.close h.sock_fd v).0 ≡ true
      → close_fd os h v ≡ (record h { sock_fd = minus_one }, (os.close h.sock_fd v).1)
  unfolding close_fd
  close_fd-closed h v open_fd closed = rw (open_fd, closed) refl

  close_fd-kept :
      (h : Socket) (v : W)
      → is_non_positive h.sock_fd ≡ false
      → (os.close h.sock_fd v).0 ≡ false
      → close_fd os h v ≡ (h, (os.close h.sock_fd v).1)
  unfolding close_fd
  close_fd-kept h v open_fd failed = rw (open_fd, failed) refl

  -- The second call, after the mutexes have been given back and taken again.
  abbrev close_fd_again : Socket × W → Socket × W
  close_fd_again r = close_fd os (lock_held (unlock_both r.0)) r.1

  close_fd-Closes :
      (h : Socket) (v : W)
      → let r = close_fd_again (close_fd os h v) in Closes h.sock_fd r.0.sock_fd r.1
  close_fd-Closes h v = (
    (λ shut.
        ap (λ r. (close_fd_again r).0.sock_fd) (close_fd-shut h v shut)
        ∙ ap (λ r. r.0.sock_fd) (close_fd-shut (lock_held (unlock_both h)) v shut)),
    λ open_fd. (
      v,
      (elim (Bool-cases (os.close h.sock_fd v).0) [
        | inl first ↦
            let run =
              ap close_fd_again (close_fd-closed h v open_fd first)
              ∙ close_fd-shut (lock_held (unlock_both (record h { sock_fd = minus_one })))
                  (os.close h.sock_fd v).1 refl in
            inl (first, ap (λ r. r.0.sock_fd) run, ap (λ r. r.1) run)
        | inr failed ↦
            let w1 : W = (os.close h.sock_fd v).1 in
            let start = ap close_fd_again (close_fd-kept h v open_fd failed) in
            elim (Bool-cases (os.close h.sock_fd w1).0) [
              | inl second ↦
                  let run = start ∙ close_fd-closed (lock_held (unlock_both h)) w1 open_fd second in
                  inr (failed, inl (second, ap (λ r. r.0.sock_fd) run), ap (λ r. r.1) run)
              | inr still ↦
                  let run = start ∙ close_fd-kept (lock_held (unlock_both h)) w1 open_fd still in
                  inr (failed, inr (still, ap (λ r. r.0.sock_fd) run), ap (λ r. r.1) run)
            ]
      ]),
    ),
  )

  close_ssl-fd : (c : Option ℕ) (h : Socket) (w : W) → (close_ssl os c h w).0.sock_fd ≡ h.sock_fd
  unfolding close_ssl
  close_ssl-fd none h w = refl
  close_ssl-fd (some c) h w = ground arith

  -- `closeSocket` on a free object returns. After the SSL part a positive descriptor is closed, once
  -- more where that fails, and these are the last calls; it is then -1, or kept where both closes
  -- failed, and one that is not positive is left as it is. The mutexes are free, an SSL connection
  -- in use is dropped and its status reset. If the descriptor is not positive then, closing the
  -- object again does nothing at all, to it or to the system.
  pub close_socket_lem :
      (s : Socket) (w : W)
      → IsFree s
      → (s' : Socket) × (w' : W) × (close_socket os s w ≡ done (s', w'))
        × IsClosed s s'
        × (is_non_positive s'.sock_fd ≡ true → close_socket os s' w' ≡ done (s', w'))
        × Closes s.sock_fd s'.sock_fd w'
  close_socket_lem s w free =
      let (h, w₁) = drop_connection (lock_held s) w in
      let (h', w₂) = close_fd os (lock_held h) w₁ in
      let run = close_socket_steps s w free in
      let (closed, again) = close_socket-IsClosed s (unlock_both h') w w₂ free run in
      let (c, w₀) = close_ssl os s.ssl_conn (lock_held s) w in
      let calls =
        subst (λ fd. Closes fd h'.sock_fd w₂) (close_ssl-fd s.ssl_conn (lock_held s) w)
          (close_fd-Closes (record c { ssl_conn_routine_ok_status = pos 0 }) w₀) in
      (unlock_both h', w₂, run, closed, again, calls)

  -- Without an SSL connection, a close that succeeds is the only call that is made.
  pub close_socket-plain :
      (s : Socket) (w : W)
      → IsFree s
      → s.ssl_conn ≡ none
      → is_non_positive s.sock_fd ≡ false
      → (os.close s.sock_fd w).0 ≡ true
      → close_socket os s w
        ≡ done (
          record s {
            sock_fd = minus_one;
            ssl_conn_routine_ok_status = pos 0;
            ssl_conn = none;
            mtx = false;
            wmtx = false;
          },
          (os.close s.sock_fd w).1,
        )
  unfolding close_socket close_fd close_ssl
  close_socket-plain s w free no_ssl listens closes =
      rw (free.mtx_free, free.wmtx_free, no_ssl, listens, closes) refl
