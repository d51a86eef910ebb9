-- ===== src/Tests/Accepting.antt =====
-- The server of the other tests, with a connection from a given address.
use synap_tcp.Base.{ℕ, ◌≡◌, refl, true, false, none, some, [], ◌∷◌, pos, done, arith}
use synap_tcp.Socket.{Socket, TimeVal, SockAddr, IsFree}
use synap_tcp.Socket.Address.{is_valid_ip_text, scan_text, print_byte, print_bytes}
use synap_tcp.Socket.Config.{default_socket}
use synap_tcp.Server.{Server}
use synap_tcp.Server.Clients.{Clients}
use synap_tcp.Server.Clients.Ring.{IsRing}
use synap_tcp.Server.Accept.{Accepting, accept_new_client}
use synap_tcp.Server.Accept.Joined.{
  IsRequest, IsJoined, Served, accept_new_client_lem, accept_new_client-refused,
}
use synap_tcp.Tests.Tape.{Tape, tape}
use synap_tcp.Tests.Connecting.{net, start}
use synap_tcp.Tests.Serving.{server, two_clients, two_clients-IsRing}

abbrev peer : ℕ → SockAddr
peer last = record { sin_family = 2; sin_port = 99; sin_addr = 10 ∷ 0 ∷ 0 ∷ last ∷ [] }

abbrev pub accepting : ℕ → Accepting Tape
accepting last = record {
  accept = λ fd w. (pos 8, peer last, 16, w);
  inet_ntop = print_bytes;
  htons = λ n. n;
  ntohs = λ n. n;
  raw = default_socket (λ n. n);
}

abbrev pub listening : Server
listening = record server { sock = record (server.sock) { sock_fd = pos 4 } }

listening-IsFree : IsFree (listening.sock)
listening-IsFree = record { mtx_free = refl; wmtx_free = refl }

request :
    (last : ℕ)
    → IsRequest tape
        (net (pos 0) (pos 1))
        (accepting last)
        listening
        start
        (pos 8)
        (peer last)
        start
request last = record { size = 16; after = start; accepted = refl; open_fd = refl; prepared = refl }

accepted_text : is_valid_ip_text (print_bytes (10 ∷ 0 ∷ 0 ∷ 1 ∷ [])) ≡ true
unfolding is_valid_ip_text scan_text print_byte print_bytes
accepted_text = refl

refused_text : is_valid_ip_text (print_bytes (10 ∷ 0 ∷ 0 ∷ 255 ∷ [])) ≡ false
unfolding is_valid_ip_text scan_text print_byte print_bytes
refused_text = refl

accept_new_client_lem_example :
    (client : Socket) × (now : TimeVal) × (s' : Server) × (c' : Clients) × (w' : Tape)
    × (accept_new_client tape (net (pos 0) (pos 1)) (accepting 1) 5 3 13 listening two_clients start
        ≡ done (true, some (client, now), s', c', w'))
    × IsJoined tape (net (pos 0) (pos 1)) (accepting 1) listening (peer 1) (pos 8) client
    × Served tape (net (pos 0) (pos 1)) (accepting 1) listening (peer 1) s'
    × IsRing c' ((1, 11) ∷ (2, 12) ∷ (3, 13) ∷ [])
    × (c'.active ≡ 0)
accept_new_client_lem_example =
    accept_new_client_lem tape (net (pos 0) (pos 1)) (accepting 1) 5 3 13 listening two_clients
      ((1, 11) ∷ (2, 12) ∷ []) start (pos 8) (peer 1) start listening-IsFree (request 1)
      accepted_text (omega arith) (omega arith) refl refl two_clients-IsRing (refl, (refl, tt)) refl
      (omega arith)

accept_new_client-refused_example :
    (s' : Server) × (accept_new_client tape
        (net (pos 0) (pos 1))
        (accepting 255)
        5
        3
        13
        listening
        two_clients
        start
      ≡ done (true, none, s', two_clients, start))
    × Served tape (net (pos 0) (pos 1)) (accepting 255) listening (peer 255) s'
    × (s'.sock.sock_fd ≡ pos 4)
accept_new_client-refused_example =
    accept_new_client-refused tape (net (pos 0) (pos 1)) (accepting 255) 5 3 13 listening
      two_clients start (pos 8) (peer 255) start listening-IsFree (request 255) refused_text refl
      refl (λ v. refl)
