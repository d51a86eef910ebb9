-- ===== src/Server/Accept.antt =====
-- `addClient` and `acceptNewClient` of class TCPServer (src/tcp-server.cpp). The calls accept and inet_ntop
-- and the byte order functions are parameters.
pub mod Joined
use synap_tcp.Base.{
  ℕ, ◌≡◌, Bool, true, false, not, ◌||◌, Option, none, some, List, ℤ, pos, is_non_positive, Outcome,
  done, ◌>>=◌, ltb, if◌then◌else◌,
}
use synap_tcp.Socket.{Socket, TimeVal, SockAddr, lock_both, unlock_both}
use synap_tcp.Socket.Settings.{duplicate, set_port, set_socket_fd, set_ssl_pointer}
use synap_tcp.Socket.Address.{set_address_text}
use synap_tcp.Socket.Config.{socket_new}
use synap_tcp.Socket.Os.{Os}
use synap_tcp.Socket.Close.{close_socket}
use synap_tcp.Net.{Net}
use synap_tcp.Client.{has_warper, create_ssl, accept_ssl}
use synap_tcp.Server.{Server}
use synap_tcp.Server.Clients.{Clients, link_client}

-- `accept` gives the descriptor, and the address and its length that it has written. `inet_ntop` gives
-- the text of an address. `raw` is the memory of a new client.
pub record Accepting (W : Type 0) : Type 0 where
  pub accept : ℤ → W → ℤ × SockAddr × ℕ × W
  pub inet_ntop : List ℕ → List ℕ
  pub htons : ℕ → ℕ
  pub ntohs : ℕ → ℕ
  pub raw : Socket

abbrev pub Making : Type 0 → Type 0
Making W = Outcome (Option Socket × Server × W)

abbrev pub with_server_sock : Server → Socket → Server
with_server_sock s h = record s { sock = h }

module _ {W : Type 0} (os : Os W) (net : Net W) (acc : Accepting W) where
  -- delete client; return false. A client without a format is deleted as its base class Socket.
  unfoldable pub refuse_client : Socket → Server → W → Making W
  refuse_client client s w = do (_, w') ← close_socket os client w; done (none, s, w')

  -- if (this->useSSL)
  unfoldable pub secure_client : ℤ → Socket → Server → W → Making W
  unfolding refuse_client
  secure_client fd client s w =
      let (ssl, w1) = create_ssl os net fd w in
      let handshake : Making W = elim ssl [
        | none ↦ refuse_client client s w1
        | some conn ↦
            let (ok, w2) = accept_ssl os net conn w1 in
            let accepted : Making W = do
              (_, client') ← set_ssl_pointer (some conn) client
              done (some client', s, w2)
            in if ok then accepted else refuse_client client s (os.ssl_free conn w2)
      ] in
      if has_warper s.ssl_warper then handshake else refuse_client client s w

  -- From the second taking of the mutexes on.
  unfoldable pub connect_client : ℤ → Socket → Server → W → Making W
  unfolding secure_client
  connect_client fd client s w = do
    h ← lock_both s.sock
    (_, client1) ← set_socket_fd fd client
    (_, client2) ← set_ssl_pointer none client1
    let s' = with_server_sock s h
    if h.use_ssl then secure_client fd client2 s' w else done (some client2, s', w)

  -- The client of `addClient`, which is called with both mutexes held; `none` for a client that is refused.
  unfoldable pub make_client : ℤ → Server → W → Making W
  unfolding connect_client refuse_client
  make_client fd s w = do
    made ← socket_new acc.htons acc.raw
    (copied, h, client) ← duplicate (unlock_both s.sock) made
    let s1 = with_server_sock s h
    let not_copied : Making W = do h' ← lock_both h; refuse_client client (with_server_sock s h') w
    let named : Making W = do
      (valid, client1) ← set_address_text (acc.inet_ntop h.addr.sin_addr) client
      let with_address : Making W = do
        (set, client2) ← set_port acc.htons (pos (acc.ntohs h.addr.sin_port)) client1
        if set then connect_client fd client2 s1 w else refuse_client client2 s1 w
      if valid then with_address else refuse_client client1 s1 w
    if copied then named else not_copied

  -- `fresh` and `client` are the addresses of the new node and of the new client. The constructor of the
  -- node takes the time of its last activity.
  unfoldable pub add_client :
      ℕ
      → ℕ
      → ℕ
      → ℤ
      → Server
      → Clients
      → W
      → Outcome (Bool × Option (Socket × TimeVal) × Server × Clients × W)
  unfolding make_client
  add_client fuel fresh client fd s c w = do
    (made, s1, w1) ← make_client fd s w
    elim made [
      | none ↦ done (false, none, s1, c, w1)
      | some k ↦ do
        let (now, w2) = os.gettimeofday w1
        c' ← link_client fuel fresh client c
        done (true, some (k, now), s1, c', w2)
    ]

  abbrev pub set_client_timeout : ℤ → TimeVal → W → W
  set_client_timeout fd t w =
      if ltb 0 t.tv_sec || ltb 0 t.tv_usec then net.set_receive_timeout fd t w else w

  -- What follows accept, with both mutexes held.
  unfoldable pub admit_client :
      ℕ
      → ℕ
      → ℕ
      → Server
      → Socket
      → Clients
      → ℤ × SockAddr × ℕ × W
      → Outcome (Bool × Option (Socket × TimeVal) × Server × Clients × W)
  unfolding add_client
  admit_client fuel fresh client s h c (fd, from, size, w) =
      let h1 = record h { addr = from; len = size } in
      let add : Outcome (Bool × Option (Socket × TimeVal) × Server × Clients × W) = do
        (_, made, s2, c', w2) ←
            add_client fuel fresh client fd (with_server_sock s h1) c
              (set_client_timeout fd h1.tv_timeout w)
        done (true, made, with_server_sock s2 (unlock_both s2.sock), c', w2)
      in if is_non_positive fd
        then done (false, none, with_server_sock s (unlock_both h1), c, w)
        else add

  unfoldable pub accept_new_client :
      ℕ
      → ℕ
      → ℕ
      → Server
      → Clients
      → W
      → Outcome (Bool × Option (Socket × TimeVal) × Server × Clients × W)
  unfolding admit_client
  accept_new_client fuel fresh client s c w = do
    h ← lock_both s.sock
    admit_client fuel fresh client s h c (acc.accept h.sock_fd w)
