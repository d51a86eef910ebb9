-- ===== src/Server/Listen.antt =====
-- What `init` and the setters of class TCPServer leave behind.
use synap_tcp.Base.{
  ℕ, ◌^◌, ◌≤◌, ◌<◌, ◌≡◌, ◌≢◌, refl, ◌⊎◌, inl, inr, true, false, take, length, ℤ, pos, negsuc,
  is_non_positive, done, arith, out_of_bounds, Bool-cases,
}
use synap_tcp.Socket.{Socket, IsFree}
use synap_tcp.Socket.Os.{Os}
use synap_tcp.Socket.Close.{minus_one}
use synap_tcp.Net.{Net}
use synap_tcp.Client.{is_zero}
use synap_tcp.Server.{
  Server, with_address, bind_and_listen, server_init, set_maximum_client, get_maximum_client,
}

-- The server after `init` with code `ret`, against the one before.
pub record Listening (s s' : Server) (ret : ℕ) : Type 0 where
  pub free : IsFree s'.sock
  pub open_fd : is_non_positive s'.sock.sock_fd ≡ false → ret ≡ 0
  pub success : ret ≡ 0 → is_non_positive s'.sock.sock_fd ≡ false
  pub bound_to : ret ≢ 1 → s'.sock.addr.sin_addr ≡ take 4 s.sock.address
  pub refused : (ret ≡ 3) ⊎ (ret ≡ 4) → s'.sock.sock_fd ≡ minus_one
  pub codes : (ret ≡ 0) ⊎ (ret ≡ 1) ⊎ (ret ≡ 3) ⊎ (ret ≡ 4)
  pub kept : s'.max_client ≡ s.max_client

-- With code 3 or 4 the last call is the close of the descriptor.
module _ {W : Type 0} (os : Os W) where
  abbrev pub IsShutOnRefusal : ℤ → ℕ → W → Type 0
  IsShutOnRefusal fd ret w' = (ret ≡ 3) ⊎ (ret ≡ 4) → (v : W) × (w' ≡ (os.close fd v).1)

module _ {W : Type 0} (os : Os W) (net : Net W) where
  bind_and_listen-Listening :
      (s : Server) (h : Socket) (w : W)
      → is_non_positive h.sock_fd ≡ false
      → h.addr.sin_addr ≡ take 4 s.sock.address
      → let r = bind_and_listen os net s h w in Listening s r.1 r.0
  unfolding bind_and_listen
  bind_and_listen-Listening s h w fd at_address = record {
    free = ground arith;
    open_fd = λ e. ground arith;
    success = λ e. ground arith;
    bound_to = λ e. ground arith;
    refused = λ e. ground arith;
    codes = ground arith;
    kept = ground arith;
  }

  bind_and_listen-IsShutOnRefusal :
      (s : Server) (h : Socket) (w : W)
      → let r = bind_and_listen os net s h w in IsShutOnRefusal os h.sock_fd r.0 r.2
  unfolding bind_and_listen
  bind_and_listen-IsShutOnRefusal s h w code =
      let (bound, w1) = net.bind h.sock_fd h.addr (net.set_reuse_address h.sock_fd w) in
      let (listens, w2) = net.listen h.sock_fd s.max_client w1 in
      elim (Bool-cases (is_zero bound)) [
        | inr unbound ↦ (w1, rw unbound refl)
        | inl ok ↦ elim (Bool-cases (is_zero listens)) [
          | inr silent ↦ (w2, rw (ok, silent) refl)
          | inl both ↦ absurd (omega (arith, rw (ok, both) at code))
        ]
      ]

  no_descriptor :
      (s : Server) (fd : ℤ)
      → is_non_positive fd ≡ true
      → Listening s
          (record s { sock = record (s.sock) { mtx = false; wmtx = false; sock_fd = fd } })
          1
  no_descriptor s fd shut = record {
    free = record { mtx_free = refl; wmtx_free = refl };
    open_fd = λ e. cc;
    success = λ e. ground arith;
    bound_to = λ e. ground arith;
    refused = λ e. ground arith;
    codes = inr (inl refl);
    kept = refl;
  }

  -- On a free server, an address of fewer than four bytes makes `init` read past its end once there is a
  -- descriptor. Otherwise `init` returns with both mutexes free and a code 0, 1, 3 or 4: the descriptor is open
  -- exactly with code 0, it is -1 with 3 and 4, where the last call closes the one that was opened, and unless the code is 1 the address is the
  -- configured one. The limit is kept.
  pub server_init_lem :
      (s : Server) (w : W)
      → IsFree s.sock
      → (length s.sock.address < 4
          → is_non_positive (net.socket w).0 ≡ false
          → server_init os net s w ≡ out_of_bounds)
        × (4 ≤ length s.sock.address
            → (ret : ℕ) × (s' : Server) × (w' : W) × (server_init os net s w ≡ done (ret, s', w'))
              × Listening s s' ret
              × IsShutOnRefusal os (net.socket w).0 ret w')
  unfolding server_init
  server_init_lem s w free = (
    (λ short fd. ground arith),
    λ fits. (elim (Bool-cases (is_non_positive (net.socket w).0)) [
      | inl shut ↦ (
        1,
        record s {
          sock = record (s.sock) { mtx = false; wmtx = false; sock_fd = (net.socket w).0 };
        },
        (net.socket w).1,
        rw (free.mtx_free, free.wmtx_free, shut) refl,
        no_descriptor s (net.socket w).0 shut,
        λ code. absurd (ground arith),
      )
      | inr open_fd ↦
          let h : Socket =
            with_address os net (net.socket w).0 (record (s.sock) { mtx = true; wmtx = true }) in
          let r = bind_and_listen os net s h (net.socket w).1 in
          (
            r.0,
            r.1,
            r.2,
            rw (free.mtx_free, free.wmtx_free, open_fd) (ground arith),
            bind_and_listen-Listening s h (net.socket w).1 open_fd refl,
            bind_and_listen-IsShutOnRefusal s h (net.socket w).1,
          )
    ]),
  )

-- On a free server the limit is accepted exactly from 1 to 65535, and then `getMaximumClient`
-- gives it back; otherwise nothing changes.
pub get_maximum_client-set_maximum_client :
    (n : ℕ) (s : Server)
    → IsFree s.sock
    → ((0 < n)
        → (n < 2 ^ 16)
        → (s' : Server) × (set_maximum_client (pos n) s ≡ done (true, s'))
          × (get_maximum_client s' ≡ n)
          × IsFree s'.sock)
      × (set_maximum_client (pos 0) s ≡ done (false, s))
      × ((2 ^ 16 ≤ n) → set_maximum_client (pos n) s ≡ done (false, s))
      × ((m : ℕ) → set_maximum_client (negsuc m) s ≡ done (false, s))
unfolding set_maximum_client get_maximum_client
get_maximum_client-set_maximum_client n s free = (
  (λ lo hi. (
    record s { sock = record (s.sock) { mtx = false; wmtx = false }; max_client = n },
    ground arith,
    refl,
    record { mtx_free = refl; wmtx_free = refl },
  )),
  refl,
  (λ hi. ground arith),
  λ m. ground arith,
)
