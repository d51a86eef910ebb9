-- ===== src/Server/Clients/Remove.antt =====
-- `removeClient` of class TCPServer for a client that is not the first of the ring.
use synap_tcp.Base.{
  ℕ, zero, suc, ◌<◌, ◌≡◌, refl, sym, ap, ◌∙◌, subst, true, false, Option, none, List, [], ◌∷◌, ◌++◌,
  append_assoc, done, arith, ◌==◌, if◌then◌else◌, length,
}
use synap_tcp.Server.Clients.{Node, Clients, store, remove_loop, remove_client, forget}
use synap_tcp.Server.Clients.Ring.{
  IsRing, Segment, Absent, Distinct, at_client, store_same, store_other, Segment-store,
  Segment-append, Absent-append, Absent-front, Absent-back, Distinct-middle, Distinct-back,
  Distinct-drop,
}

-- None of the nodes is of the client.
abbrev pub Others : ℕ → List (ℕ × ℕ) → Type 0
Others socket [] = Unit
Others socket ((x, client) ∷ rest) = ((client == socket) ≡ false) × Others socket rest

abbrev unlinked : Clients → ℕ → ℕ → ℕ → ℕ → ℕ → Clients
unlinked c socket z q cq next =
    forget socket (record c { node = store z none (store q (at_client cq next) c.node) })

remove_loop_lem :
    (fuel socket p x cx z : ℕ) (c : Clients) (mid back : List (ℕ × ℕ))
    → Segment c.node p ((x, cx) ∷ mid ++ (z, socket) ∷ back) c.head
    → Absent c.head mid
    → Others socket mid
    → length mid < fuel
    → (front : List (ℕ × ℕ)) × (q cq next : ℕ) × (remove_loop fuel socket p c
        ≡ done (true, unlinked c socket z q cq next))
      × ((x, cx) ∷ mid ≡ front ++ (q, cq) ∷ [])
      × Segment c.node p front q
      × Segment c.node next back c.head
unfolding remove_loop
remove_loop_lem zero socket p x cx z c mid back s h o hf = absurd (omega arith)
remove_loop_lem (suc fuel) socket p x cx z c [] back (e, next, at, s) h o hf =
    let (e2, after, at2, rest) = s in
    let same : (socket == socket) ≡ true = ground arith in
    (
      [],
      p,
      cx,
      after,
      rw (ap c.node e ∙ at, ap c.node e2 ∙ at2, same)
          (ap (λ k. done (true, unlinked c socket k p cx after)) e2),
      ap (λ k. (k, cx) ∷ []) (sym e),
      refl,
      rest,
    )
remove_loop_lem (suc fuel) socket p x cx z c ((y, cy) ∷ mid) back (e, next, at, s) (h, hs) (o, os)
      hf =
    let (e2, after, at2, rest) = s in
    let (front, q, cq, last_next, run, eq, before, behind) =
      remove_loop_lem fuel socket next y cy z c mid back s hs os (omega arith) in
    (
      (x, cx) ∷ front,
      q,
      cq,
      last_next,
      rw (ap c.node e ∙ at, ap c.node e2 ∙ at2, o, ap (λ k. k == c.head) e2 ∙ h) run,
      ap (◌∷◌ (x, cx)) eq,
      (e, next, at, before),
      behind,
    )

unlinked-Segment :
    (heap : ℕ → Option Node) (head socket z q cq next : ℕ) (front back : List (ℕ × ℕ))
    → Segment heap head front q
    → Segment heap next back head
    → Distinct (front ++ (q, cq) ∷ (z, socket) ∷ back)
    → Absent z front
    → Segment (store z none (store q (at_client cq next) heap)) head (front ++ (q, cq) ∷ back) head
unlinked-Segment heap head socket z q cq next front back before behind d hz =
    let (others, (hb, more)) = Distinct-back front ((q, cq) ∷ (z, socket) ∷ back) d in
    let skip : ℕ → Option Node = store q (at_client cq next) heap in
    Segment-append (store z none skip) head q head front ((q, cq) ∷ back)
      (Segment-store z none skip head q front hz (
        Segment-store q (at_client cq next) heap head q front
          (Distinct-middle front q cq ((z, socket) ∷ back) d) before))
      (
        refl,
        next,
        store_other z q none skip (ground (arith, others.0))
            ∙ store_same q (at_client cq next) heap,
        Segment-store z none skip next head back hb
            (Segment-store q (at_client cq next) heap next head back others.1 behind),
      )

-- `removeClient` on a ring, for the first node of the client, when that is not the first of the ring,
-- and with fuel for each node before it: returns true, and the ring is the old one without that node.
pub remove_client_lem :
    (fuel : ℕ) (c : Clients) (x cx z socket : ℕ) (mid back : List (ℕ × ℕ))
    → IsRing c ((x, cx) ∷ mid ++ (z, socket) ∷ back)
    → Others socket ((x, cx) ∷ mid)
    → (socket == 0) ≡ false
    → length mid < fuel
    → (c' : Clients) × (remove_client fuel socket c ≡ done (true, c'))
      × IsRing c' ((x, cx) ∷ mid ++ back)
      × (c'.active ≡ (if c.active == socket then 0 else c.active))
      × (c'.node z ≡ none)
unfolding remove_client
remove_client_lem fuel c x cx z socket mid back r (o, os) nz hf =
    let nodes : List (ℕ × ℕ) = (x, cx) ∷ mid in
    let (e, next, at, s) = r.ring in
    let nonempty : (c.head == 0) ≡ false = ap (λ k. k == 0) e ∙ r.nonnull.0 in
    let apart : Absent c.head mid =
      subst (λ k. Absent k mid) (sym e) (Absent-front x mid ((z, socket) ∷ back) r.distinct.0) in
    let (front, q, cq, after, run, eq, before, behind) =
      remove_loop_lem fuel socket c.head x cx z c mid back r.ring apart os hf in
    let split : nodes ++ (z, socket) ∷ back ≡ front ++ (q, cq) ∷ (z, socket) ∷ back =
      ap (λ l. l ++ (z, socket) ∷ back) eq
      ∙ append_assoc front ((q, cq) ∷ []) ((z, socket) ∷ back) in
    let hz : Absent z (front ++ (q, cq) ∷ []) =
      subst (Absent z) eq (Distinct-middle nodes z socket back r.distinct) in
    (
      unlinked c socket z q cq after,
      rw (nonempty, nz, ap c.node e ∙ at, o) run,
      record {
        ring =
            subst
              (λ l. Segment (store z none (store q (at_client cq after) c.node)) c.head l c.head)
              (sym (ap (λ l. l ++ back) eq ∙ append_assoc front ((q, cq) ∷ []) back))
              (unlinked-Segment c.node c.head socket z q cq after front back before behind
                (subst Distinct split r.distinct) (Absent-front z front ((q, cq) ∷ []) hz));
        distinct = Distinct-drop nodes z socket back r.distinct;
        nonnull =
            Absent-append 0 nodes back (Absent-front 0 nodes ((z, socket) ∷ back) r.nonnull)
              (Absent-back 0 nodes ((z, socket) ∷ back) r.nonnull).1;
      },
      refl,
      store_same z none (store q (at_client cq after) c.node),
    )

remove_loop_missing :
    (fuel socket p x cx first after_first : ℕ) (c : Clients) (rest : List (ℕ × ℕ))
    → Segment c.node p ((x, cx) ∷ rest) c.head
    → c.node c.head ≡ at_client first after_first
    → (first == socket) ≡ false
    → Absent c.head rest
    → Others socket rest
    → length rest < fuel
    → remove_loop fuel socket p c ≡ done (false, c)
unfolding remove_loop
remove_loop_missing zero socket p x cx first after_first c rest s at_head ne h o hf =
    absurd (omega arith)
remove_loop_missing (suc fuel) socket p x cx first after_first c [] (e, next, at, end) at_head ne h
      o hf =
    rw (ap c.node e ∙ at, ap c.node end ∙ at_head, ne) (ground (arith, end))
remove_loop_missing (suc fuel) socket p x cx first after_first c ((y, cy) ∷ rest) (e, next, at, s)
      at_head ne (h, hs) (o, os) hf =
    let (e2, after, at2, more) = s in
    rw (ap c.node e ∙ at, ap c.node e2 ∙ at2, o, ap (λ k. k == c.head) e2 ∙ h)
      (remove_loop_missing fuel socket next y cy first after_first c rest s at_head ne hs os
        (omega arith))

-- `removeClient` for a client that no node of the ring has, with fuel for each node: changes nothing,
-- and returns true only if the ring is empty.
pub remove_client-missing :
    (fuel socket : ℕ) (c : Clients) (nodes : List (ℕ × ℕ))
    → IsRing c nodes
    → Others socket nodes
    → (socket == 0) ≡ false
    → length nodes < fuel
    → remove_client fuel socket c ≡ done (length nodes == 0, c)
unfolding remove_client
remove_client-missing fuel socket c [] r o nz hf = rw r.ring refl
remove_client-missing fuel socket c ((x, cx) ∷ rest) r (o, os) nz hf =
    let (e, next, at, s) = r.ring in
    let nonempty : (c.head == 0) ≡ false = ap (λ k. k == 0) e ∙ r.nonnull.0 in
    let apart : Absent c.head rest = subst (λ k. Absent k rest) (sym e) r.distinct.0 in
    let counted : (suc (length rest) == 0) ≡ false = ground arith in
    rw (nonempty, nz, ap c.node e ∙ at, o, counted)
      (remove_loop_missing fuel socket c.head x cx cx next c rest r.ring (ap c.node e ∙ at) o apart
        os (omega arith))
