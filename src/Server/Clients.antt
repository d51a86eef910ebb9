-- ===== src/Server/Clients.antt =====
-- The list of clients of class TCPServer (src/tcp-server.cpp): a ring of ClientCollection nodes, over a
-- store of the nodes that are alive.
pub mod Ring
pub mod Link
pub mod Remove
pub mod Destroy
use synap_tcp.Base.{
  ℕ, zero, suc, ◌≡◌, Bool, true, false, not, ◌&&◌, ◌||◌, Option, none, some, Outcome, done,
  out_of_bounds, out_of_fuel, ◌>>=◌, ◌==◌, if◌then◌else◌,
}

-- `client` is the pointer to the SynapSock, `next` to the next node; 0 is nullptr.
pub record Node : Type 0 where
  pub client : ℕ
  pub next : ℕ

-- `node` gives the nodes that are alive, `head` is clientList, `active` is the client that is being
-- processed; 0 is nullptr.
pub record Clients : Type 0 where
  pub node : ℕ → Option Node
  pub head : ℕ
  pub active : ℕ

-- What the constructors of the server set.
unfoldable pub clients_new : Clients → Clients
clients_new raw = record raw { head = 0; active = 0 }

abbrev pub get_active_client : Clients → ℕ
get_active_client c = c.active

abbrev pub store : ℕ → Option Node → (ℕ → Option Node) → ℕ → Option Node
store a n heap b = if b == a then n else heap b

-- A read through a pointer to no living node is out of bounds.
abbrev pub deref_option : Option Node → Outcome Node
deref_option none = out_of_bounds
deref_option (some n) = done n

abbrev pub deref : (ℕ → Option Node) → ℕ → Outcome Node
deref heap a = deref_option (heap a)

-- while (tmp->next != this->clientList) tmp = tmp->next;
unfoldable pub find_last : ℕ → (ℕ → Option Node) → ℕ → ℕ → Outcome ℕ
find_last zero heap head tmp = out_of_fuel
find_last (suc fuel) heap head tmp = do
  n ← deref heap tmp
  let again = find_last fuel heap head n.next
  if n.next == head then done tmp else again

-- The end of `addClient`, with the address that `new` gave for the node.
unfoldable pub link_client : ℕ → ℕ → ℕ → Clients → Outcome Clients
link_client fuel fresh client c =
    let heap = store fresh (some (record { client = client; next = 0 })) c.node in
    let append : Outcome Clients = do
      last ← find_last fuel heap c.head c.head
      n ← deref heap last
      done (record c {
        node =
            store fresh (some (record { client = client; next = c.head }))
              (store last (some (record n { next = fresh })) heap);
      })
    in if c.head == 0
      then done (record c {
        node = store fresh (some (record { client = client; next = fresh })) c.node;
        head = fresh;
      })
      else append

-- if (this->client == socket) this->client = nullptr;
abbrev pub forget : ℕ → Clients → Clients
forget socket c = record c { active = if c.active == socket then 0 else c.active }

-- The loop for a node that is not the first.
unfoldable pub remove_loop : ℕ → ℕ → ℕ → Clients → Outcome (Bool × Clients)
remove_loop zero socket prev c = out_of_fuel
remove_loop (suc fuel) socket prev c = do
  p ← deref c.node prev
  t ← deref c.node p.next
  let again = remove_loop fuel socket p.next c
  if t.client == socket
      then done (
        true,
        forget socket (record c {
          node = store p.next none (store prev (some (record p { next = t.next })) c.node);
        }),
      )
      else if p.next == c.head
      then done (false, c)
      else again

unfoldable pub remove_client : ℕ → ℕ → Clients → Outcome (Bool × Clients)
remove_client fuel socket c =
    let some_nodes : Outcome (Bool × Clients) = do
      n ← deref c.node c.head
      let only = forget socket (record c { node = store c.head none c.node; head = 0 })
      let first = do
        _ ← find_last fuel c.node c.head c.head
        done (true, forget socket (record c { node = store c.head none c.node; head = n.next }))
      let other = remove_loop fuel socket c.head c
      if n.client == socket && c.head == n.next
          then done (true, only)
          else if n.client == socket
          then first
          else other
    in if c.head == 0 || socket == 0 then done (true, c) else some_nodes

-- The loop of the destructor, from the node `tmp`.
unfoldable pub destroy_loop : ℕ → ℕ → Clients → Outcome Clients
destroy_loop zero tmp c = out_of_fuel
destroy_loop (suc fuel) tmp c = do
  h ← deref c.node c.head
  _ ← deref c.node tmp
  let freed = record c { node = store tmp none c.node }
  let again = destroy_loop fuel h.next freed
  if h.next == c.head then done freed else again

unfoldable pub destroy_clients : ℕ → Clients → Outcome Clients
unfolding destroy_loop
destroy_clients fuel c =
    let nodes = destroy_loop fuel c.head c in if c.head == 0 then done c else nodes
