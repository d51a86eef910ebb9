-- ===== src/Server/Drop/Freed.antt =====
-- The destructor of class TCPServer (src/tcp-server.cpp) on a ring of clients.
use synap_tcp.Base.{
  ℕ, zero, suc, ◌<◌, ◌≡◌, refl, ap, ◌∙◌, false, none, List, ◌∷◌, done, out_of_bounds, arith, ◌==◌,
  if◌then◌else◌,
}
use synap_tcp.Socket.{IsFree}
use synap_tcp.Socket.Os.{Os}
use synap_tcp.Socket.Close.Twice.{close_socket_lem}
use synap_tcp.Server.Clients.Ring.{IsRing, at_client, store_same}
use synap_tcp.Ssl.{Openssl}
use synap_tcp.Server.Hub.{Hub, Handlers}
use synap_tcp.Server.Drop.{close_end, delete_node, delete_loop, server_delete}

module _ {W : Type 0} (os : Os W) (calls : Handlers W) where
  delete_node_total :
      (node client : ℕ) (hub : Hub W)
      → IsFree (hub.peers.socket_of client)
      → (w : W) × (delete_node os calls node client hub ≡ done (record hub { world = w }))
  unfolding delete_node
  delete_node_total node client hub free =
      let (s, w, run, closed, again, calls_made) =
        close_socket_lem os (hub.peers.socket_of client) hub.world free in
      let closed_w : W =
        close_end os calls (hub.peers.pipe_in node)
          (close_end os calls (hub.peers.pipe_out node) w) in
      (
        (if hub.peers.thread node == 0
            then closed_w
            else calls.join_thread (hub.peers.thread node) closed_w),
        rw run refl,
      )

  -- The destructor of a server with two clients or more, of which the first is used by nobody, with fuel for
  -- two rounds, reads the first node after it has freed it.
  pub server_delete-freed :
      (ssl : Openssl W) (fuel x cx y cy : ℕ) (rest : List (ℕ × ℕ)) (hub : Hub W)
      → IsRing hub.clients ((x, cx) ∷ (y, cy) ∷ rest)
      → IsFree (hub.peers.socket_of cx)
      → 1 < fuel
      → server_delete os calls ssl fuel hub ≡ out_of_bounds
  unfolding server_delete delete_loop
  server_delete-freed ssl zero x cx y cy rest hub r free hf = absurd (omega arith)
  server_delete-freed ssl (suc zero) x cx y cy rest hub r free hf = absurd (omega arith)
  server_delete-freed ssl (suc (suc fuel)) x cx y cy rest hub r free hf =
      let (e, next, at, tail) = r.ring in
      let nonnull : (hub.clients.head == 0) ≡ false = ap (λ z. z == 0) e ∙ r.nonnull.0 in
      let here : hub.clients.node hub.clients.head ≡ at_client cx next =
        ap hub.clients.node e ∙ at in
      let on : (next == hub.clients.head) ≡ false =
        ap (λ z. z == hub.clients.head) tail.0 ∙ ap (λ z. y == z) e ∙ r.distinct.0.0 in
      let (w, deleted) = delete_node_total hub.clients.head cx hub free in
      let gone = store_same hub.clients.head none hub.clients.node in
      rw (nonnull, here, deleted, on, gone) refl
