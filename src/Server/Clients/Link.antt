-- ===== src/Server/Clients/Link.antt =====
-- What `addClient` and `removeClient` of class TCPServer make of the ring of clients.
use synap_tcp.Base.{
  ℕ, suc, ◌<◌, ◌≡◌, refl, sym, ap, ◌∙◌, subst, true, false, Option, none, List, [], ◌∷◌, ◌++◌,
  append_assoc, done, out_of_bounds, arith, ◌==◌, length,
}
use synap_tcp.Server.Clients.{Node, Clients, store, link_client, remove_client, forget}
use synap_tcp.Server.Clients.Ring.{
  IsRing, Segment, Absent, Distinct, at_client, store_same, store_other, Segment-store,
  Segment-append, Absent-append, Absent-front, Absent-back, Distinct-middle, Distinct-append,
  find_last_lem, find_last_faults,
}

-- The store after the links of a new node at `fresh`, behind the node at `last`.
abbrev linked : (ℕ → Option Node) → ℕ → ℕ → ℕ → ℕ → ℕ → ℕ → Option Node
linked heap head fresh client last c =
    store fresh (at_client client head) (store last (at_client c fresh) heap)

linked-Segment :
    (heap : ℕ → Option Node) (head fresh client last c : ℕ) (front : List (ℕ × ℕ))
    → Segment heap head front last
    → Absent fresh front
    → Absent last front
    → (last == fresh) ≡ false
    → Segment
        (linked heap head fresh client last c)
        head
        (front ++ (last, c) ∷ (fresh, client) ∷ [])
        head
linked-Segment heap head fresh client last c front seg hf hl ne =
    let behind : ℕ → Option Node = store last (at_client c fresh) heap in
    Segment-append (linked heap head fresh client last c) head last head front
      ((last, c) ∷ (fresh, client) ∷ [])
      (Segment-store fresh (at_client client head) behind head last front hf
        (Segment-store last (at_client c fresh) heap head last front hl seg))
      (
        refl,
        fresh,
        store_other fresh last (at_client client head) behind ne
            ∙ store_same last (at_client c fresh) heap,
        (refl, head, store_same fresh (at_client client head) behind, refl),
      )

linked-IsRing :
    (c : Clients) (heap : ℕ → Option Node) (e : ℕ × ℕ) (rest front : List (ℕ × ℕ))
    (fresh client last lc : ℕ)
    → e ∷ rest ≡ front ++ (last, lc) ∷ []
    → Segment heap c.head front last
    → Distinct (e ∷ rest)
    → Absent 0 (e ∷ rest)
    → Absent fresh (e ∷ rest)
    → (fresh == 0) ≡ false
    → IsRing
        (record c { node = linked heap c.head fresh client last lc })
        (e ∷ rest ++ (fresh, client) ∷ [])
linked-IsRing c heap e rest front fresh client last lc eq seg d nonnull absent ne =
    let split : Absent fresh (front ++ (last, lc) ∷ []) = subst (Absent fresh) eq absent in
    let apart : Absent last front = Distinct-middle front last lc [] (subst Distinct eq d) in
    record {
      ring =
          subst (λ l. Segment (linked heap c.head fresh client last lc) c.head l c.head)
            (sym (
              ap (λ l. l ++ (fresh, client) ∷ []) eq
              ∙ append_assoc front ((last, lc) ∷ []) ((fresh, client) ∷ [])))
            (linked-Segment heap c.head fresh client last lc front seg
              (Absent-front fresh front ((last, lc) ∷ []) split) apart
              (Absent-back fresh front ((last, lc) ∷ []) split).0);
      distinct = Distinct-append (e ∷ rest) fresh client d absent;
      nonnull = Absent-append 0 (e ∷ rest) ((fresh, client) ∷ []) nonnull (ne, tt);
    }

-- `addClient` on a ring, with a new node at an address that no node of the ring has and with fuel for
-- each node, ends: the ring has the new client at its end, after the others in their order, and the
-- client that is being processed is the same.
pub link_client_lem :
    (fuel fresh client : ℕ) (c : Clients) (nodes : List (ℕ × ℕ))
    → IsRing c nodes
    → Absent fresh nodes
    → (fresh == 0) ≡ false
    → length nodes < fuel
    → (c' : Clients) × (link_client fuel fresh client c ≡ done c')
      × IsRing c' (nodes ++ (fresh, client) ∷ [])
      × (c'.active ≡ c.active)
unfolding link_client
link_client_lem fuel fresh client c [] r absent ne hf = (
  record c { node = store fresh (at_client client fresh) c.node; head = fresh },
  rw r.ring refl,
  record {
    ring = (refl, fresh, store_same fresh (at_client client fresh) c.node, refl);
    distinct = (tt, tt);
    nonnull = (ne, tt);
  },
  refl,
)
link_client_lem fuel fresh client c ((x, cx) ∷ rest) r absent ne hf =
    let heap : ℕ → Option Node = store fresh (at_client client 0) c.node in
    let seg =
      Segment-store fresh (at_client client 0) c.node c.head c.head ((x, cx) ∷ rest) absent
        r.ring in
    let (front, last, lc, run, eq, before, here) =
      find_last_lem fuel heap c.head c.head x cx rest seg
        (subst (λ z. Absent z rest) (sym r.ring.0) r.distinct.0) (omega arith) in
    let nonempty : (c.head == 0) ≡ false = ap (λ z. z == 0) r.ring.0 ∙ r.nonnull.0 in
    (
      record c { node = linked heap c.head fresh client last lc },
      rw (nonempty, run, here) refl,
      linked-IsRing c heap (x, cx) rest front fresh client last lc eq before r.distinct r.nonnull
          absent ne,
      refl,
    )

link_client-faults :
    (fuel fresh client : ℕ) (c : Clients) (x y cy : ℕ) (rest : List (ℕ × ℕ))
    → Segment c.node c.head ((y, cy) ∷ rest) x
    → c.node x ≡ none
    → (x == c.head) ≡ false
    → Absent c.head rest
    → (c.head == 0) ≡ false
    → Absent fresh ((x, 0) ∷ (y, cy) ∷ rest)
    → suc (length rest) < fuel
    → link_client fuel fresh client c ≡ out_of_bounds
unfolding link_client
link_client-faults fuel fresh client c x y cy rest seg freed other absent nonempty (hx, hf) hfuel =
    let run =
      find_last_faults fuel (store fresh (at_client client 0) c.node) c.head c.head x
        ((y, cy) ∷ rest)
        (Segment-store fresh (at_client client 0) c.node c.head x ((y, cy) ∷ rest) hf seg)
        (store_other fresh x (at_client client 0) c.node hx ∙ freed) other absent hfuel in
    rw (nonempty, run) refl

-- `removeClient` for the first of several clients, with fuel for each node, returns true with the
-- second node as the first, and every `addClient` after it with enough fuel reads freed memory,
-- unless the new node has the address of one of the old ones.
pub remove_client-first :
    (fuel : ℕ) (c : Clients) (x client y cy : ℕ) (rest : List (ℕ × ℕ))
    → IsRing c ((x, client) ∷ (y, cy) ∷ rest)
    → (client == 0) ≡ false
    → suc (length rest) < fuel
    → (c' : Clients) × (remove_client fuel client c ≡ done (true, c'))
      × (c'.head ≡ y)
      × ((fuel' fresh client' : ℕ)
          → Absent fresh ((x, client) ∷ (y, cy) ∷ rest)
          → suc (length rest) < fuel'
          → link_client fuel' fresh client' c' ≡ out_of_bounds)
unfolding remove_client
remove_client-first fuel c x client y cy rest r nz hf =
    let (e, next, at, s) = r.ring in
    let e2 : next ≡ y = s.0 in
    let apart : (y == x) ≡ false = r.distinct.0.0 in
    let c' : Clients = forget client (record c { node = store c.head none c.node; head = next }) in
    let nonempty : (c.head == 0) ≡ false = ap (λ z. z == 0) e ∙ r.nonnull.0 in
    let two : (c.head == next) ≡ false = ground arith in
    let same : (client == client) ≡ true = ground arith in
    let absent_head : Absent c.head ((y, cy) ∷ rest) =
      subst (λ z. Absent z ((y, cy) ∷ rest)) (sym e) r.distinct.0 in
    let run =
      (find_last_lem fuel c.node c.head c.head x client ((y, cy) ∷ rest) r.ring absent_head hf).3 in
    (
      c',
      rw (nonempty, nz, ap c.node e ∙ at, same, two, run) refl,
      e2,
      λ fuel' fresh client' absent hf'.
          link_client-faults fuel' fresh client' c' x y cy rest
            (Segment-store c.head none c.node next x ((y, cy) ∷ rest) absent_head
              (subst (Segment c.node next ((y, cy) ∷ rest)) e s))
            (ap (store c.head none c.node) (sym e) ∙ store_same c.head none c.node) (ground arith)
            (subst (λ z. Absent z rest) (sym e2) r.distinct.1.0)
            (ap (λ z. z == 0) e2 ∙ r.nonnull.1.0) absent hf',
    )
