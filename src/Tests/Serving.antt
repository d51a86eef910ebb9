-- ===== src/Tests/Serving.antt =====
-- The server on the system of the client's tests.
use synap_tcp.Base.{
  ℕ, [], ◌∷◌, ◌≤◌, ◌<◌, ◌≡◌, refl, true, false, none, pos, is_non_positive, done, out_of_bounds,
  arith,
}
use synap_tcp.Socket.{IsFree}
use synap_tcp.Socket.Config.{default_socket}
use synap_tcp.Server.{Server, server_init}
use synap_tcp.Server.Listen.{Listening, IsShutOnRefusal, server_init_lem}
use synap_tcp.Server.Clients.{Clients, store, link_client, remove_client}
use synap_tcp.Server.Clients.Ring.{IsRing, Absent, at_client}
use synap_tcp.Server.Clients.Remove.{remove_client_lem, remove_client-missing}
use synap_tcp.Server.Clients.Link.{link_client_lem, remove_client-first}
use synap_tcp.Tests.Tape.{Tape, tape}
use synap_tcp.Tests.Connecting.{net, start}

abbrev pub server : Server
server = record {
  sock = default_socket (λ n. n);
  reception_handler_as_thread = false;
  max_client = 10;
  con_req_callback_function = none;
  con_req_callback_param = none;
  reception_callback_function = none;
  reception_callback_param = none;
  ssl_warper = none;
}

server-IsFree : IsFree (server.sock)
server-IsFree = record { mtx_free = refl; wmtx_free = refl }

server_init_lem_example :
    (4 < 4
      → is_non_positive (pos 4) ≡ false
      → server_init tape (net (pos 0) (pos 1)) server start ≡ out_of_bounds)
    × (4 ≤ 4
        → (ret : ℕ) × (s' : Server) × (w' : Tape) × (server_init tape
              (net (pos 0) (pos 1))
              server
              start
            ≡ done (ret, s', w'))
          × Listening server s' ret
          × IsShutOnRefusal tape (pos 4) ret w')
server_init_lem_example = server_init_lem tape (net (pos 0) (pos 1)) server start server-IsFree

-- Two nodes, at 1 and 2, for the clients 11 and 12.
abbrev pub two_clients : Clients
two_clients = record {
  node = store 1 (at_client 11 2) (store 2 (at_client 12 1) (λ a. none));
  head = 1;
  active = 0;
}

pub two_clients-IsRing : IsRing two_clients ((1, 11) ∷ (2, 12) ∷ [])
two_clients-IsRing = record {
  ring = (refl, 2, refl, (refl, 1, refl, refl));
  distinct = ((refl, tt), (tt, tt));
  nonnull = (refl, (refl, tt));
}

link_client_lem_example :
    (c' : Clients) × (link_client 5 3 13 two_clients ≡ done c')
    × IsRing c' ((1, 11) ∷ (2, 12) ∷ (3, 13) ∷ [])
    × (c'.active ≡ 0)
link_client_lem_example =
    link_client_lem 5 3 13 two_clients ((1, 11) ∷ (2, 12) ∷ []) two_clients-IsRing
      (refl, (refl, tt)) refl (omega arith)

remove_client-first_example :
    (c' : Clients) × (remove_client 5 11 two_clients ≡ done (true, c'))
    × (c'.head ≡ 2)
    × ((fuel' fresh client' : ℕ)
        → Absent fresh ((1, 11) ∷ (2, 12) ∷ [])
        → 1 < fuel'
        → link_client fuel' fresh client' c' ≡ out_of_bounds)
remove_client-first_example =
    remove_client-first 5 two_clients 1 11 2 12 [] two_clients-IsRing refl (omega arith)

remove_client_lem_example :
    (c' : Clients) × (remove_client 5 12 two_clients ≡ done (true, c'))
    × IsRing c' ((1, 11) ∷ [])
    × (c'.active ≡ 0)
    × (c'.node 2 ≡ none)
remove_client_lem_example =
    remove_client_lem 5 two_clients 1 11 2 12 [] [] two_clients-IsRing (refl, tt) refl (omega arith)

remove_client-missing_example : remove_client 5 13 two_clients ≡ done (false, two_clients)
remove_client-missing_example =
    remove_client-missing 5 13 two_clients ((1, 11) ∷ (2, 12) ∷ []) two_clients-IsRing
      (refl, (refl, tt)) refl (omega arith)
