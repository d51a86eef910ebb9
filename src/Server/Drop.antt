-- ===== src/Server/Drop.antt =====
-- The destructors of a node (ClientCollection) and of TCPServer (src/tcp-server.cpp), and `removeClient` with
-- that of a node.
pub mod Freed
use synap_tcp.Base.{
  ℕ, zero, suc, Bool, none, ℤ, is_non_positive, Outcome, done, out_of_fuel, ◌>>=◌, ◌==◌,
  if◌then◌else◌,
}
use synap_tcp.Socket.Os.{Os}
use synap_tcp.Socket.Close.{close_socket}
use synap_tcp.Server.Clients.{deref, store, remove_client}
use synap_tcp.Ssl.{Openssl, delete_warper}
use synap_tcp.Server.Hub.{Hub, Handlers, with_server}

module _ {W : Type 0} (os : Os W) (calls : Handlers W) where
  -- One end of the pipe of a node is closed, if there is one.
  abbrev pub close_end : ℤ → W → W
  close_end fd w = let (_, w') = os.close fd w in if is_non_positive fd then w else w'

  -- The destructor of a node, with that of the socket of its client.
  unfoldable pub delete_node : ℕ → ℕ → Hub W → Outcome (Hub W)
  delete_node node client hub = do
    (_, w1) ← close_socket os (hub.peers.socket_of client) hub.world
    let w2 = close_end (hub.peers.pipe_in node) (close_end (hub.peers.pipe_out node) w1)
    let joined = calls.join_thread (hub.peers.thread node) w2
    done (record hub { world = if hub.peers.thread node == 0 then w2 else joined })

  -- removeClient, with the destructor of the node.
  unfoldable pub drop_client : ℕ → ℕ → ℕ → Hub W → Outcome (Hub W)
  unfolding delete_node
  drop_client fuel node client hub = do
    (_, c) ← remove_client fuel client hub.clients
    delete_node node client (record hub { clients = c })

  -- The loop of the destructor of the server, from the node `tmp`. It reads the next node through the list.
  unfoldable pub delete_loop : ℕ → ℕ → Hub W → Outcome (Hub W)
  unfolding delete_node
  delete_loop zero tmp hub = out_of_fuel
  delete_loop (suc fuel) tmp hub = do
    h ← deref hub.clients.node hub.clients.head
    t ← deref hub.clients.node tmp
    deleted ← delete_node tmp t.client hub
    let freed = record deleted {
      clients = record (deleted.clients) { node = store tmp none deleted.clients.node };
    }
    let again = delete_loop fuel h.next freed
    if h.next == hub.clients.head then done freed else again

  -- The destructor of the server, with those of its wrapper and of its socket.
  unfoldable pub server_delete : Openssl W → ℕ → Hub W → Outcome (Hub W)
  unfolding delete_loop
  server_delete ssl fuel hub = do
    freed ← if hub.clients.head == 0 then done hub else delete_loop fuel hub.clients.head hub
    let w1 = delete_warper ssl freed.server.ssl_warper freed.world
    (s, w) ← close_socket os freed.server.sock w1
    done (record (with_server freed s) { world = w })
