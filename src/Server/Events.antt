-- ===== src/Server/Events.antt =====
-- `eventCheck` of class TCPServer (src/tcp-server.cpp). The call select, the functions that the program has
-- set and the start of a thread for one of them are parameters.
pub mod Scan
pub mod Watch
use synap_tcp.Base.{
  ℕ, zero, suc, ◌+◌, ◌*◌, ◌/◌, ◌%◌, ◌^◌, ◌≡◌, Bool, true, false, not, ◌&&◌, ◌||◌, Option, none,
  some, List, [], ◌∷◌, ◌++◌, ℤ, pos, negsuc, ltb_ℤ, is_non_positive, is_negative, residue, Outcome,
  done, out_of_fuel, out_of_bounds, ltb, ◌>>=◌, ◌==◌, if◌then◌else◌,
}
use synap_tcp.Socket.{Socket, TimeVal, lock_both, unlock_both}
use synap_tcp.Socket.Settings.{is_socket_timeout}
use synap_tcp.Socket.Os.{Os}
use synap_tcp.Socket.Receive.{is_input_bytes_available}
use synap_tcp.Socket.Close.{close_socket}
use synap_tcp.Server.{Server}
use synap_tcp.Server.Clients.{Clients, deref, remove_client}
use synap_tcp.Net.{Net}
use synap_tcp.Server.Accept.{Accepting, accept_new_client, with_server_sock}
use synap_tcp.Server.Drop.{drop_client}
use synap_tcp.Server.Hub.{
  Peers, Hub, Handlers, ServerEvent, event_none, event_connect_request, event_bytes_available,
  event_client_disconnected, Found, has_input, expired, quiet, set_at, with_server, split_timeout,
  join_peer, with_ends,
}

module _ {W : Type 0} (os : Os W) (net : Net W) (acc : Accepting W) (calls : Handlers W) where
  -- The descriptor to watch for a node: that of its pipe while a thread runs, else that of its client.
  abbrev pub watched : ℕ → ℕ → Hub W → ℤ
  watched node client hub =
      if is_non_positive (hub.peers.pipe_out node)
      then (hub.peers.socket_of client).sock_fd
      else hub.peers.pipe_out node

  -- `max` is an unsigned short.
  abbrev pub highest : ℕ → ℤ → ℕ
  highest max fd = if ltb_ℤ (pos max) fd then residue fd (2 ^ 16) else max

  -- FD_SET(fd, &set): a set has a bit for each of the descriptors below FD_SETSIZE, which is 1024, and
  -- the macro does not test that there is one.
  abbrev pub is_settable : ℤ → Bool
  is_settable (pos n) = ltb n 1024
  is_settable (negsuc n) = false

  abbrev pub fd_set : ℤ → List ℤ → Outcome (List ℤ)
  fd_set fd fds = if is_settable fd then done (fds ++ fd ∷ []) else out_of_bounds

  unfoldable pub watch_loop : ℕ → ℕ → ℕ → List ℤ → Hub W → Outcome (ℕ × List ℤ)
  watch_loop zero node max fds hub = out_of_fuel
  watch_loop (suc fuel) node max fds hub = do
    n ← deref hub.clients.node node
    let fd = watched node n.client hub
    set ← fd_set fd fds
    let again = watch_loop fuel n.next (highest max fd) set hub
    if n.next == hub.clients.head then done (highest max fd, set) else again

  -- A thread has ended: its pipe is closed.
  unfoldable pub close_pipe : (ℤ → Bool) → ℕ → Hub W → Hub W
  close_pipe is_set node hub =
      let (_, w1) = os.close (hub.peers.pipe_out node) hub.world in
      let (_, w2) = os.close (hub.peers.pipe_in node) w1 in
      if not (is_non_positive (hub.peers.pipe_out node)) && is_set (hub.peers.pipe_out node)
      then record hub {
        peers = record (hub.peers) {
          pipe_out = set_at node (pos 0) hub.peers.pipe_out;
          pipe_in = set_at node (pos 0) hub.peers.pipe_in;
        };
        world = w2;
      }
      else hub

  -- do ... while (cList != this->clientList), up to the first event.
  unfoldable pub scan_loop : ℕ → (ℤ → Bool) → TimeVal → ℕ → ℕ → Hub W → Outcome (Found × Hub W)
  unfolding close_pipe
  scan_loop zero is_set now node tmp hub = out_of_fuel
  scan_loop (suc fuel) is_set now node tmp hub = do
    n ← deref hub.clients.node node
    let h = close_pipe is_set node hub
    let s = h.peers.socket_of n.client
    let active = h.clients.active == n.client
    let tmp' = if active then node else tmp
    let again = scan_loop fuel is_set now n.next tmp' h
    if not active && is_set s.sock_fd
        then done (has_input node, h)
        else if is_non_positive (h.peers.pipe_out node)
            && is_socket_timeout now (h.peers.last_activity node) s
        then done (expired node, h)
        else if n.next == h.clients.head
        then done (quiet tmp', h)
        else again

  -- A thread for the function of a reception, with a pipe for it to say that it has ended.
  abbrev pub run_thread : ℕ → Hub W → Outcome (Hub W)
  run_thread node hub =
      let (ends, w) = calls.make_pipe hub.world in
      calls.start_thread node (record hub { peers = with_ends node ends hub.peers; world = w })

  -- The function for a reception, if it is set. Without a thread it gets the parameter of the other one.
  unfoldable pub run_reception : ℕ → ℕ → Hub W → Outcome (Hub W)
  run_reception node client hub = elim hub.server.reception_callback_function [
    | none ↦ done hub
    | some fn ↦
        (if hub.server.reception_handler_as_thread
          then run_thread node hub
          else calls.on_reception fn client hub.server.con_req_callback_param hub)
  ]

  -- clientEvent, with both mutexes held.
  unfoldable pub client_event : ℕ → ℕ → Hub W → Outcome (ServerEvent × Hub W)
  unfolding run_reception
  client_event fuel node hub = do
    n ← deref hub.clients.node node
    let (now, w1) = os.gettimeofday hub.world
    (available, s, w2) ← is_input_bytes_available os (hub.peers.socket_of n.client) w1
    let h1 =
        with_server
          (record hub {
            clients = record (hub.clients) { active = n.client };
            peers = record (hub.peers) {
              socket_of = set_at n.client s hub.peers.socket_of;
              last_activity = set_at node now hub.peers.last_activity;
            };
            world = w2;
          })
          (unlock_both hub.server.sock)
    let received : Outcome (ServerEvent × Hub W) = do
      h2 ← run_reception node n.client h1
      done (event_bytes_available, h2)
    let gone : Outcome (ServerEvent × Hub W) = do
      held ← lock_both h1.server.sock
      h2 ← drop_client os calls fuel node n.client (with_server h1 held)
      done (event_client_disconnected, with_server h2 (unlock_both h2.server.sock))
    if available then received else gone

  -- A client that has been idle for too long: the next one becomes the active client.
  unfoldable pub expire_client : ℕ → ℕ → Hub W → Outcome (ServerEvent × Hub W)
  expire_client fuel node hub = do
    n ← deref hub.clients.node node
    h1 ← drop_client os calls fuel node n.client hub
    let freed = with_server h1 (unlock_both h1.server.sock)
    let pass_on : Outcome (ServerEvent × Hub W) = do
      t ← deref freed.clients.node n.next
      done (
        event_client_disconnected,
        record freed { clients = record (freed.clients) { active = t.client } },
      )
    if n.next == node then done (event_client_disconnected, freed) else pass_on

  -- After the loop: the active client has been left for last.
  unfoldable pub after_scan : ℕ → (ℤ → Bool) → Found → Hub W → Outcome (ServerEvent × Hub W)
  unfolding client_event expire_client
  after_scan fuel is_set (has_input node) hub = client_event fuel node hub
  after_scan fuel is_set (expired node) hub = expire_client fuel node hub
  after_scan fuel is_set (quiet tmp) hub =
      let idle : Outcome (ServerEvent × Hub W) =
        done (event_none, with_server hub (unlock_both hub.server.sock)) in
      let last : Outcome (ServerEvent × Hub W) = do
        n ← deref hub.clients.node tmp
        if is_set (hub.peers.socket_of n.client).sock_fd then client_event fuel tmp hub else idle
      in if tmp == 0 then idle else last

  -- `acceptNewClient` on all that the server holds.
  unfoldable pub accept_into : ℕ → Hub W → Outcome (Hub W)
  unfolding accept_new_client
  accept_into fuel hub = do
    let (node, client) = calls.allocate hub
    (_, made, s, c, w) ←
        accept_new_client os net acc fuel node client hub.server hub.clients hub.world
    done (record {
      server = s;
      clients = c;
      peers = join_peer node client made hub.peers;
      world = w;
    })

  -- A request on the descriptor of the server.
  unfoldable pub request_event : ℕ → Hub W → Outcome (ServerEvent × Hub W)
  unfolding accept_into
  request_event fuel hub = do
    let freed = with_server hub (unlock_both hub.server.sock)
    h ← elim hub.server.con_req_callback_function [
      | none ↦ accept_into fuel freed
      | some fn ↦ calls.on_request fn hub.server.con_req_callback_param freed
    ]
    done (event_connect_request, h)

  -- After select, with both mutexes held again.
  unfoldable pub selected : ℕ → ℤ → (ℤ → Bool) → Hub W → Outcome (ServerEvent × Hub W)
  unfolding scan_loop after_scan request_event
  selected fuel ret is_set hub =
      let idle : Outcome (ServerEvent × Hub W) =
        done (event_none, with_server hub (unlock_both hub.server.sock)) in
      let scan : Outcome (ServerEvent × Hub W) = do
        let (now, w) = os.gettimeofday hub.world
        (found, h) ← scan_loop fuel is_set now hub.clients.head 0 (record hub { world = w })
        after_scan fuel is_set found h
      in if is_negative ret
        then idle
        else if is_set hub.server.sock.sock_fd
        then request_event fuel hub
        else if hub.clients.head == 0
        then idle
        else scan

  -- With both mutexes held: the descriptors, select without the mutexes, and what follows from it.
  unfoldable pub poll : ℕ → ℕ → Socket → Hub W → Outcome (ServerEvent × Hub W)
  poll fuel timeout_ms h hub = do
    let first = residue h.sock_fd (2 ^ 16)
    set ← fd_set h.sock_fd []
    (max, fds) ←
        if hub.clients.head == 0
        then done (first, set)
        else watch_loop fuel hub.clients.head first set hub
    let (ret, is_set, w) = calls.select (max + 1) fds (split_timeout timeout_ms) hub.world
    held ← lock_both (unlock_both h)
    selected fuel ret is_set (record (with_server hub held) { world = w })

  unfoldable pub event_check : ℕ → ℕ → Hub W → Outcome (ServerEvent × Hub W)
  event_check fuel timeout_ms hub = do
    h ← lock_both hub.server.sock
    if is_non_positive h.sock_fd
        then done (event_none, with_server hub (unlock_both h))
        else poll fuel timeout_ms h hub
