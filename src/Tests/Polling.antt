-- ===== src/Tests/Polling.antt =====
-- A server with two clients of which the second has input.
use synap_tcp.Base.{
  none, ℕ, ◌≡◌, refl, inl, inr, Bool, false, List, ◌∷◌, [], ℤ, pos, negsuc, done, out_of_bounds,
  arith, ◌==◌,
}
use synap_tcp.Socket.Config.{default_socket}
use synap_tcp.Net.{Net}
use synap_tcp.Ssl.{Openssl}
use synap_tcp.Server.Drop.{server_delete}
use synap_tcp.Server.Drop.Freed.{server_delete-freed}
use synap_tcp.Server.Hub.{Hub, Handlers}
use synap_tcp.Server.Events.{event_check}
use synap_tcp.Server.Events.Scan.{timed, Serves}
use synap_tcp.Server.Events.Watch.{
  AllWithin, all_highest, all_watched, waited, first_of, held_hub, event_check-SomeReady,
}
use synap_tcp.Tests.Tape.{Tape, tape}
use synap_tcp.Tests.Connecting.{net, start}
use synap_tcp.Tests.Serving.{two_clients, two_clients-IsRing}
use synap_tcp.Tests.Accepting.{accepting, listening}

abbrev is_twelve : ℤ → Bool
is_twelve (pos n) = n == 12
is_twelve (negsuc n) = false

abbrev calls : Handlers Tape
calls = record {
  select = λ n fds t w. (pos 1, is_twelve, w);
  on_request = λ fn param h. done h;
  allocate = λ h. (3, 13);
  on_reception = λ fn client param h. done h;
  make_pipe = λ w. (none, w);
  join_thread = λ t w. w;
  start_thread = λ node h. done h;
}

-- The descriptor of a client is its address.
abbrev hub : Hub Tape
hub = record {
  server = listening;
  clients = two_clients;
  peers = record {
    socket_of = λ c. record (default_socket (λ n. n)) { sock_fd = pos c };
    pipe_out = λ x. pos 0;
    pipe_in = λ x. pos 0;
    thread = λ x. 0;
    last_activity = λ x. record { tv_sec = 0; tv_usec = 0 };
  };
  world = start;
}

abbrev plain_net : Net Tape
plain_net = net (pos 0) (pos 1)

abbrev nodes : List (ℕ × ℕ)
nodes = (1, 11) ∷ (2, 12) ∷ []

abbrev server_hub : Hub Tape
server_hub = held_hub tape plain_net (accepting 1) calls hub start

event_check-SomeReady_example :
    AllWithin tape plain_net
      (accepting 1)
      calls
      (all_highest tape plain_net
        (accepting 1)
        calls
        (first_of tape plain_net (accepting 1) calls hub)
        (all_watched tape plain_net (accepting 1) calls nodes hub))
      (waited tape plain_net (accepting 1) calls nodes hub)
    × Serves tape plain_net
        (accepting 1)
        calls
        nodes
        is_twelve
        (tape.gettimeofday start).0
        5
        (timed tape plain_net (accepting 1) calls server_hub)
        (event_check tape plain_net (accepting 1) calls 5 1500 hub)
event_check-SomeReady_example =
    event_check-SomeReady tape plain_net (accepting 1) calls 5 1500 1 11 ((2, 12) ∷ []) hub (pos 1)
      is_twelve start (record { mtx_free = refl; wmtx_free = refl }) refl two_clients-IsRing
      (λ x. refl) (omega arith) (omega arith, (omega arith, (omega arith, tt))) refl refl refl
      (inr (inl refl))

-- OpenSSL is not called.
abbrev untouched : Openssl Tape
untouched = record {
  load_error_strings = λ w. w;
  add_algorithms = λ w. w;
  evp_cleanup = λ w. w;
  server_method = λ w. 1;
  client_method = λ w. 2;
  new_ctx = λ m w. (none, w);
  free_ctx = λ c w. w;
  new_bio = λ text w. (6, w);
  free_bio = λ b w. w;
  read_cert = λ b w. (none, w);
  use_cert = λ c x w. (pos 1, w);
  free_cert = λ x w. w;
  read_key = λ b w. (none, w);
  use_key = λ c x w. (pos 1, w);
  free_key = λ x w. w;
}

server_delete-freed_example : server_delete tape calls untouched 2 hub ≡ out_of_bounds
server_delete-freed_example =
    server_delete-freed tape calls untouched 2 1 11 2 12 [] hub two_clients-IsRing
      (record { mtx_free = refl; wmtx_free = refl }) (omega arith)
