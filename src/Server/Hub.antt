-- ===== src/Server/Hub.antt =====
-- What `eventCheck` of class TCPServer (src/tcp-server.cpp) works on, and what it calls.
use synap_tcp.Base.{
  ℕ, ◌*◌, ◌/◌, ◌%◌, Bool, Option, none, some, List, ℤ, pos, Outcome, ◌==◌, if◌then◌else◌,
}
use synap_tcp.Socket.{Socket, TimeVal}
use synap_tcp.Server.{Server}
use synap_tcp.Server.Clients.{Clients}
use synap_tcp.Server.Accept.{with_server_sock}

-- What the nodes and the clients hold beside the ring: the socket of a client, by its address; the two
-- ends of the pipe of a node, its thread, 0 for none, and the time of its last activity, by the
-- address of the node.
pub record Peers : Type 0 where
  pub socket_of : ℕ → Socket
  pub pipe_out : ℕ → ℤ
  pub pipe_in : ℕ → ℤ
  pub thread : ℕ → ℕ
  pub last_activity : ℕ → TimeVal

pub record Hub (W : Type 0) : Type 0 where
  pub server : Server
  pub clients : Clients
  pub peers : Peers
  pub world : W

-- `select` gives its result and the descriptors that it leaves in the set. `on_request` calls the
-- function for a request of connection, `on_reception` that for a reception, with the client and the
-- parameter. `make_pipe` is pipe, `none` if it failed. `join_thread` is pthread_join, `start_thread` is pthread_create and the wait for
-- the signal of the thread, of which Server/Thread.antt has the statements. `allocate` gives the addresses of a new node and a new client.
pub record Handlers (W : Type 0) : Type 0 where
  pub select : ℕ → List ℤ → TimeVal → W → ℤ × (ℤ → Bool) × W
  pub on_request : ℕ → Option ℕ → Hub W → Outcome (Hub W)
  pub allocate : Hub W → ℕ × ℕ
  pub on_reception : ℕ → ℕ → Option ℕ → Hub W → Outcome (Hub W)
  pub make_pipe : W → Option (ℤ × ℤ) × W
  pub join_thread : ℕ → W → W
  pub start_thread : ℕ → Hub W → Outcome (Hub W)

pub data ServerEvent : Type 0 where
  event_none : ServerEvent
  event_connect_request : ServerEvent
  event_bytes_available : ServerEvent
  event_client_disconnected : ServerEvent

-- What the loop over the clients ends with: a node whose client has input, one whose client has been idle
-- for too long, or neither, with the node of the active client, 0 for none.
pub data Found : Type 0 where
  has_input : ℕ → Found
  expired : ℕ → Found
  quiet : ℕ → Found

abbrev pub set_at {ℓ} : {A : Type ℓ} → ℕ → A → (ℕ → A) → ℕ → A
set_at a x f b = if b == a then x else f b

abbrev pub with_server : {W : Type 0} → Hub W → Socket → Hub W
with_server hub s = record hub { server = with_server_sock hub.server s }

-- The timeout for select, of an unsigned short.
abbrev pub split_timeout : ℕ → TimeVal
split_timeout ms = record { tv_sec = ms / 1000; tv_usec = ms % 1000 * 1000 }

-- The pipe and the last activity of a new node.
abbrev pub join_peer : ℕ → ℕ → Option (Socket × TimeVal) → Peers → Peers
join_peer node client none p = p
join_peer node client (some (s, now)) p = record {
  socket_of = set_at client s p.socket_of;
  pipe_out = set_at node (pos 0) p.pipe_out;
  pipe_in = set_at node (pos 0) p.pipe_in;
  thread = set_at node 0 p.thread;
  last_activity = set_at node now p.last_activity;
}

-- The two ends of the pipe of a node, 0 if there is none.
abbrev pub with_ends : ℕ → Option (ℤ × ℤ) → Peers → Peers
with_ends node none p = record p {
  pipe_out = set_at node (pos 0) p.pipe_out;
  pipe_in = set_at node (pos 0) p.pipe_in;
}
with_ends node (some (out, into)) p = record p {
  pipe_out = set_at node out p.pipe_out;
  pipe_in = set_at node into p.pipe_in;
}
