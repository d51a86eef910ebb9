-- ===== src/Server/Accept/Joined.antt =====
-- What `acceptNewClient` of class TCPServer (src/tcp-server.cpp) leaves behind.
use synap_tcp.Base.{
  ℕ, ◌%◌, ◌^◌, ◌<◌, ◌≡◌, refl, ap, ◌∙◌, true, false, ◌||◌, none, some, List, [], ◌∷◌, ◌++◌, ℤ, pos,
  ltb_ℤ, is_non_positive, done, arith, length, ◌==◌,
}
use synap_tcp.Socket.{Socket, TimeVal, SockAddr, IsFree}
use synap_tcp.Socket.Settings.{duplicate, set_port, set_socket_fd, set_ssl_pointer}
use synap_tcp.Socket.Settings.Laws.{duplicate_lem}
use synap_tcp.Socket.Address.{is_valid_ip_text, set_address_text, parse_text}
use synap_tcp.Socket.Config.{default_socket, socket_new-default}
use synap_tcp.Socket.Os.{Os}
use synap_tcp.Socket.Close.{close_socket}
use synap_tcp.Socket.Close.Twice.{close_socket-plain}
use synap_tcp.Net.{Net}
use synap_tcp.Server.{Server}
use synap_tcp.Server.Clients.{Clients}
use synap_tcp.Server.Clients.Ring.{IsRing, Absent}
use synap_tcp.Server.Clients.Link.{link_client_lem}
use synap_tcp.Server.Accept.{
  Accepting, with_server_sock, refuse_client, connect_client, make_client, add_client,
  set_client_timeout, admit_client, accept_new_client,
}

module _ {W : Type 0} (os : Os W) (net : Net W) (acc : Accepting W) where
  -- A connection is there: its descriptor, the address of the peer, and the state after accept and the
  -- timeout of the descriptor.
  pub record IsRequest (s : Server) (w : W) (fd : ℤ) (from : SockAddr) (w' : W) : Type 0 where
    pub size : ℕ
    pub after : W
    pub accepted : acc.accept s.sock.sock_fd w ≡ (fd, from, size, after)
    pub open_fd : is_non_positive fd ≡ false
    pub prepared : w' ≡ set_client_timeout os net acc fd s.sock.tv_timeout after

  abbrev pub copied : Server → SockAddr → ℕ → Socket
  copied s from size = record (s.sock) { addr = from; len = size; mtx = false; wmtx = false }

  abbrev named : Server → SockAddr → ℕ → Socket
  named s from size = record (copied s from size) {
    address = parse_text (acc.inet_ntop from.sin_addr) 0;
    addr = record from { sin_port = acc.htons (acc.ntohs from.sin_port) % 2 ^ 16 };
  }

  copied-IsFree : (s : Server) (from : SockAddr) (size : ℕ) → IsFree (copied s from size)
  copied-IsFree s from size = record { mtx_free = refl; wmtx_free = refl }

  default_socket-IsFree : IsFree (default_socket acc.htons)
  default_socket-IsFree = record { mtx_free = refl; wmtx_free = refl }

  abbrev held : Server → SockAddr → ℕ → Server
  held s from size =
      with_server_sock s (record (s.sock) { addr = from; len = size; mtx = true; wmtx = true })

  abbrev given_back : Server → SockAddr → ℕ → Server
  given_back s from size = with_server_sock s (copied s from size)

  duplicated :
      (s : Server) (from : SockAddr) (size : ℕ)
      → duplicate (copied s from size) (default_socket acc.htons)
        ≡ done (true, copied s from size, copied s from size)
  duplicated s from size =
      duplicate_lem (copied s from size) (default_socket acc.htons) (copied-IsFree s from size)
        default_socket-IsFree

  make_client_plain :
      (fd : ℤ) (s : Server) (from : SockAddr) (size : ℕ) (w : W)
      → is_valid_ip_text (acc.inet_ntop from.sin_addr) ≡ true
      → 0 < acc.ntohs from.sin_port
      → acc.ntohs from.sin_port < 2 ^ 16
      → is_non_positive fd ≡ false
      → ltb_ℤ fd (pos 65535) ≡ true
      → s.sock.use_ssl ≡ false
      → make_client os net acc fd (held s from size) w
        ≡ done (
          some (record (named s from size) { sock_fd = fd; ssl_conn = none }),
          held s from size,
          w,
        )
  unfolding make_client connect_client set_address_text set_port set_socket_fd set_ssl_pointer
  make_client_plain fd s from size w valid low high opened small plain =
      let port_ok : (is_non_positive (pos (acc.ntohs from.sin_port))
            || ltb_ℤ (pos 65535) (pos (acc.ntohs from.sin_port)))
          ≡ false =
        ground arith in
      rw
        (
          socket_new-default acc.htons acc.raw,
          duplicated s from size,
          valid,
          port_ok,
          opened,
          small,
          plain,
        )
        refl

  make_client_refused :
      (fd : ℤ) (s : Server) (from : SockAddr) (size : ℕ) (w : W)
      → is_valid_ip_text (acc.inet_ntop from.sin_addr) ≡ false
      → make_client os net acc fd (held s from size) w
        ≡ refuse_client os net acc (copied s from size) (given_back s from size) w
  unfolding make_client set_address_text
  make_client_refused fd s from size w wrong =
      rw (socket_new-default acc.htons acc.raw, duplicated s from size, wrong) refl

  accepted_lem :
      (fuel fresh ptr : ℕ) (s : Server) (c : Clients) (w : W) (fd : ℤ) (from : SockAddr) (w₁ : W)
      → IsFree s.sock
      → (request : IsRequest s w fd from w₁)
      → accept_new_client os net acc fuel fresh ptr s c w
        ≡ admit_client os net acc fuel fresh ptr s
            (record (s.sock) { mtx = true; wmtx = true })
            c
            (fd, from, request.size, request.after)
  unfolding accept_new_client
  accepted_lem fuel fresh ptr s c w fd from w₁ free request =
      rw (free.mtx_free, free.wmtx_free)
        (ap
          (admit_client os net acc fuel fresh ptr s (record (s.sock) { mtx = true; wmtx = true }) c)
          request.accepted)

  -- The new client, made for the server `s` and a peer at `from`.
  pub record IsJoined (s : Server) (from : SockAddr) (fd : ℤ) (client : Socket) : Type 0 where
    pub free : IsFree client
    pub its_fd : client.sock_fd ≡ fd
    pub its_address : client.address ≡ parse_text (acc.inet_ntop from.sin_addr) 0
    pub its_port : client.addr.sin_port ≡ acc.htons (acc.ntohs from.sin_port) % 2 ^ 16
    pub no_ssl : (client.use_ssl ≡ false) × (client.ssl_conn ≡ none)
    pub settings :
        (client.tv_timeout ≡ s.sock.tv_timeout) × (client.keep_alive_ms ≡ s.sock.keep_alive_ms)

  -- The server `s'` afterwards: only the address of the peer is new, and its length.
  abbrev pub Served : Server → SockAddr → Server → Type 0
  Served s from s' =
      (size : ℕ) × (s'
        ≡ with_server_sock s
            (record (s.sock) { addr = from; len = size; mtx = false; wmtx = false }))

  -- `acceptNewClient` on a free server without SSL, when a connection is there with a descriptor below
  -- 65535, a peer whose address text is accepted and whose port is from 1 to 65535, and with a new
  -- node, fuel for each node and a well-formed ring: it returns true, the ring has the client at
  -- its end, and the client has the descriptor, the address and the port of the peer and the
  -- settings of the server, which is free and otherwise as it was.
  pub accept_new_client_lem :
      (fuel fresh ptr : ℕ) (s : Server) (c : Clients) (nodes : List (ℕ × ℕ)) (w : W) (fd : ℤ)
      (from : SockAddr) (w₁ : W)
      → IsFree s.sock
      → IsRequest s w fd from w₁
      → is_valid_ip_text (acc.inet_ntop from.sin_addr) ≡ true
      → 0 < acc.ntohs from.sin_port
      → acc.ntohs from.sin_port < 2 ^ 16
      → ltb_ℤ fd (pos 65535) ≡ true
      → s.sock.use_ssl ≡ false
      → IsRing c nodes
      → Absent fresh nodes
      → (fresh == 0) ≡ false
      → length nodes < fuel
      → (client : Socket) × (now : TimeVal) × (s' : Server) × (c' : Clients) × (w' : W)
        × (accept_new_client os net acc fuel fresh ptr s c w
            ≡ done (true, some (client, now), s', c', w'))
        × IsJoined s from fd client
        × Served s from s'
        × IsRing c' (nodes ++ (fresh, ptr) ∷ [])
        × (c'.active ≡ c.active)
  unfolding admit_client add_client
  accept_new_client_lem fuel fresh ptr s c nodes w fd from w₁ free request valid low high small
        plain ring absent ne hf =
      let (c', linked, ring', active) = link_client_lem fuel fresh ptr c nodes ring absent ne hf in
      let made =
        make_client_plain fd s from request.size
          (set_client_timeout os net acc fd s.sock.tv_timeout request.after) valid low high
          request.open_fd small plain in
      (
        record (named s from request.size) { sock_fd = fd; ssl_conn = none },
        (os.gettimeofday (set_client_timeout os net acc fd s.sock.tv_timeout request.after)).0,
        given_back s from request.size,
        c',
        (os.gettimeofday (set_client_timeout os net acc fd s.sock.tv_timeout request.after)).1,
        accepted_lem fuel fresh ptr s c w fd from w₁ free request
            ∙ rw (request.open_fd, made, linked) refl,
        record {
          free = record { mtx_free = refl; wmtx_free = refl };
          its_fd = refl;
          its_address = refl;
          its_port = refl;
          no_ssl = (plain, refl);
          settings = (refl, refl);
        },
        (request.size, refl),
        ring',
        active,
      )

  close_copied :
      (s : Server) (from : SockAddr) (size : ℕ) (w : W)
      → s.sock.ssl_conn ≡ none
      → is_non_positive s.sock.sock_fd ≡ false
      → ((v : W) → (os.close s.sock.sock_fd v).0 ≡ true)
      → (q : Socket) × (close_socket os (copied s from size) w
          ≡ done (q, (os.close s.sock.sock_fd w).1))
  close_copied s from size w no_ssl listens closes = (
    _,
    close_socket-plain os (copied s from size) w (copied-IsFree s from size) no_ssl listens
        (closes w),
  )

  -- `acceptNewClient` on a free server that listens and has no SSL connection of its own, when a
  -- connection is there from a peer whose address text is refused, as is one that ends in 255: it
  -- returns true without a client, and the descriptor that it has closed is that on which the
  -- server listens, whose number stays in the server.
  pub accept_new_client-refused :
      (fuel fresh ptr : ℕ) (s : Server) (c : Clients) (w : W) (fd : ℤ) (from : SockAddr) (w₁ : W)
      → IsFree s.sock
      → IsRequest s w fd from w₁
      → is_valid_ip_text (acc.inet_ntop from.sin_addr) ≡ false
      → s.sock.ssl_conn ≡ none
      → is_non_positive s.sock.sock_fd ≡ false
      → ((v : W) → (os.close s.sock.sock_fd v).0 ≡ true)
      → (s' : Server) × (accept_new_client os net acc fuel fresh ptr s c w
          ≡ done (true, none, s', c, (os.close s.sock.sock_fd w₁).1))
        × Served s from s'
        × (s'.sock.sock_fd ≡ s.sock.sock_fd)
  unfolding admit_client add_client refuse_client
  accept_new_client-refused fuel fresh ptr s c w fd from w₁ free request wrong no_ssl listens
        closes =
      let (q, closed) =
        close_copied s from request.size
          (set_client_timeout os net acc fd s.sock.tv_timeout request.after) no_ssl listens
          closes in
      let refused =
        make_client_refused fd s from request.size
          (set_client_timeout os net acc fd s.sock.tv_timeout request.after) wrong in
      (
        given_back s from request.size,
        accepted_lem fuel fresh ptr s c w fd from w₁ free request
            ∙ rw (request.prepared, request.open_fd, refused, closed) refl,
        (request.size, refl),
        refl,
      )
