-- ===== src/Server/Clients/Destroy.antt =====
-- The destructor of class TCPServer (src/tcp-server.cpp) on its list of clients.
use synap_tcp.Base.{
  ℕ, zero, suc, ◌<◌, ◌≡◌, refl, ap, ◌∙◌, true, false, none, List, [], ◌∷◌, done, out_of_bounds,
  arith, ltb, ◌==◌, if◌then◌else◌, length,
}
use synap_tcp.Server.Clients.{Clients, store, destroy_loop, destroy_clients}
use synap_tcp.Server.Clients.Ring.{IsRing, at_client}

-- The first node freed, if there is one.
abbrev pub emptied : Clients → Clients
emptied c = record c { node = if c.head == 0 then c.node else store c.head none c.node }

-- The destructor on a ring, with fuel for two rounds: it frees the only client, or nothing if there is
-- none; with two clients or more it reads the first node after it has freed it.
pub destroy_clients_lem :
    (fuel : ℕ) (c : Clients) (nodes : List (ℕ × ℕ))
    → IsRing c nodes
    → 1 < fuel
    → destroy_clients fuel c ≡ (if ltb (length nodes) 2 then done (emptied c) else out_of_bounds)
unfolding destroy_clients destroy_loop
destroy_clients_lem zero c nodes r hf = absurd (omega arith)
destroy_clients_lem (suc zero) c nodes r hf = absurd (omega arith)
destroy_clients_lem (suc (suc fuel)) c [] r hf = ground (arith, r.ring)
destroy_clients_lem (suc (suc fuel)) c ((x, cx) ∷ []) r hf =
    let (e, next, at, last) = r.ring in
    let nonnull : (c.head == 0) ≡ false = ap (λ z. z == 0) e ∙ r.nonnull.0 in
    let here : c.node c.head ≡ at_client cx next = ap c.node e ∙ at in
    let around : (next == c.head) ≡ true = ground (arith, last) in rw (nonnull, here, around) refl
destroy_clients_lem (suc (suc fuel)) c ((x, cx) ∷ (y, cy) ∷ rest) r hf =
    let (e, next, at, tail) = r.ring in
    let nonnull : (c.head == 0) ≡ false = ap (λ z. z == 0) e ∙ r.nonnull.0 in
    let here : c.node c.head ≡ at_client cx next = ap c.node e ∙ at in
    let on : (next == c.head) ≡ false =
      ap (λ z. z == c.head) tail.0 ∙ ap (λ z. y == z) e ∙ r.distinct.0.0 in
    let itself : (c.head == c.head) ≡ true = ground arith in
    let many : ltb (length ((x, cx) ∷ (y, cy) ∷ rest)) 2 ≡ false = ground arith in
    rw (nonnull, here, on, itself, many) refl
