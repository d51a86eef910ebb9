-- ===== src/Server/Clients/Ring.antt =====
-- A ring of client nodes in a store, for the list of class TCPServer (src/tcp-server.cpp).
use synap_tcp.Base.{
  ℕ, zero, suc, ◌<◌, ◌≡◌, refl, sym, ap, ◌∙◌, subst, false, Option, none, some, List, [], ◌∷◌, ◌++◌,
  done, out_of_bounds, arith, ◌==◌, length,
}
use synap_tcp.Server.Clients.{Node, Clients, store, find_last}

abbrev pub at_client : ℕ → ℕ → Option Node
at_client client next = some (record { client = client; next = next })

-- The nodes from `a` up to the pointer `b`, each with its address and its client.
abbrev pub Segment : (ℕ → Option Node) → ℕ → List (ℕ × ℕ) → ℕ → Type 0
Segment heap a [] b = a ≡ b
Segment heap a ((x, client) ∷ rest) b =
    (a ≡ x) × (next : ℕ) × (heap x ≡ at_client client next) × Segment heap next rest b

abbrev pub Absent : ℕ → List (ℕ × ℕ) → Type 0
Absent z [] = Unit
Absent z ((x, client) ∷ rest) = ((x == z) ≡ false) × Absent z rest

abbrev pub Distinct : List (ℕ × ℕ) → Type 0
Distinct [] = Unit
Distinct ((x, client) ∷ rest) = Absent x rest × Distinct rest

-- The list of clients is `nodes`, in order, none of them at nullptr.
abbrev pub RingOf : (ℕ → Option Node) → ℕ → List (ℕ × ℕ) → Type 0
RingOf heap head [] = head ≡ 0
RingOf heap head (e ∷ rest) = Segment heap head (e ∷ rest) head

pub record IsRing (c : Clients) (nodes : List (ℕ × ℕ)) : Type 0 where
  pub ring : RingOf c.node c.head nodes
  pub distinct : Distinct nodes
  pub nonnull : Absent 0 nodes

pub store_same : (z : ℕ) (n : Option Node) (heap : ℕ → Option Node) → store z n heap z ≡ n
store_same z n heap = ground arith

pub store_other :
    (z x : ℕ) (n : Option Node) (heap : ℕ → Option Node)
    → (x == z) ≡ false
    → store z n heap x ≡ heap x
store_other z x n heap h = ground arith

pub Segment-store :
    (z : ℕ) (n : Option Node) (heap : ℕ → Option Node) (a b : ℕ) (nodes : List (ℕ × ℕ))
    → Absent z nodes
    → Segment heap a nodes b
    → Segment (store z n heap) a nodes b
Segment-store z n heap a b [] h s = s
Segment-store z n heap a b ((x, client) ∷ rest) (h, hs) (e, next, at, s) =
    (e, next, store_other z x n heap h ∙ at, Segment-store z n heap next b rest hs s)

pub Segment-append :
    (heap : ℕ → Option Node) (a m b : ℕ) (xs ys : List (ℕ × ℕ))
    → Segment heap a xs m
    → Segment heap m ys b
    → Segment heap a (xs ++ ys) b
Segment-append heap a m b [] ys e t = subst (λ x. Segment heap x ys b) (sym e) t
Segment-append heap a m b ((x, client) ∷ rest) ys (e, next, at, s) t =
    (e, next, at, Segment-append heap next m b rest ys s t)

pub Absent-append : (z : ℕ) (xs ys : List (ℕ × ℕ)) → Absent z xs → Absent z ys → Absent z (xs ++ ys)
Absent-append z [] ys h k = k
Absent-append z ((x, client) ∷ rest) ys (h, hs) k = (h, Absent-append z rest ys hs k)

pub Absent-front : (z : ℕ) (xs ys : List (ℕ × ℕ)) → Absent z (xs ++ ys) → Absent z xs
Absent-front z [] ys h = tt
Absent-front z ((x, client) ∷ rest) ys (h, hs) = (h, Absent-front z rest ys hs)

pub Absent-back : (z : ℕ) (xs ys : List (ℕ × ℕ)) → Absent z (xs ++ ys) → Absent z ys
Absent-back z [] ys h = h
Absent-back z ((x, client) ∷ rest) ys (h, hs) = Absent-back z rest ys hs

swap_eq : (x y : ℕ) → (x == y) ≡ false → (y == x) ≡ false
swap_eq x y h = ground arith

pub Distinct-middle :
    (xs : List (ℕ × ℕ)) (z client : ℕ) (ys : List (ℕ × ℕ))
    → Distinct (xs ++ (z, client) ∷ ys)
    → Absent z xs
Distinct-middle [] z client ys d = tt
Distinct-middle ((x, c) ∷ rest) z client ys (h, d) =
    (swap_eq z x (Absent-back x rest ((z, client) ∷ ys) h).0, Distinct-middle rest z client ys d)

pub Distinct-back : (xs ys : List (ℕ × ℕ)) → Distinct (xs ++ ys) → Distinct ys
Distinct-back [] ys d = d
Distinct-back ((x, c) ∷ rest) ys (h, d) = Distinct-back rest ys d

pub Distinct-drop :
    (xs : List (ℕ × ℕ)) (z client : ℕ) (ys : List (ℕ × ℕ))
    → Distinct (xs ++ (z, client) ∷ ys)
    → Distinct (xs ++ ys)
Distinct-drop [] z client ys d = d.1
Distinct-drop ((x, c) ∷ rest) z client ys (h, d) = (
  Absent-append x rest ys (Absent-front x rest ((z, client) ∷ ys) h)
      (Absent-back x rest ((z, client) ∷ ys) h).1,
  Distinct-drop rest z client ys d,
)

pub Distinct-append :
    (xs : List (ℕ × ℕ)) (z client : ℕ)
    → Distinct xs
    → Absent z xs
    → Distinct (xs ++ (z, client) ∷ [])
Distinct-append [] z client d h = (tt, tt)
Distinct-append ((x, c) ∷ rest) z client (a, d) (h, hs) = (
  Absent-append x rest ((z, client) ∷ []) a (swap_eq x z h, tt),
  Distinct-append rest z client d hs,
)

-- A segment to `b` starts at none of the addresses that neither it nor `b` has.
pub start_other :
    (heap : ℕ → Option Node) (head a b : ℕ) (nodes : List (ℕ × ℕ))
    → Absent head nodes
    → (b == head) ≡ false
    → Segment heap a nodes b
    → (a == head) ≡ false
start_other heap head a b [] h hb e = ap (λ x. x == head) e ∙ hb
start_other heap head a b ((x, client) ∷ rest) (h, hs) hb (e, next, at, s) =
    ap (λ y. y == head) e ∙ h

pub find_last_lem :
    (fuel : ℕ) (heap : ℕ → Option Node) (head a x client : ℕ) (rest : List (ℕ × ℕ))
    → Segment heap a ((x, client) ∷ rest) head
    → Absent head rest
    → length rest < fuel
    → (front : List (ℕ × ℕ)) × (last c : ℕ) × (find_last fuel heap head a ≡ done last)
      × ((x, client) ∷ rest ≡ front ++ (last, c) ∷ [])
      × Segment heap a front last
      × (heap last ≡ at_client c head)
unfolding find_last
find_last_lem zero heap head a x client rest s h hf = absurd (omega arith)
find_last_lem (suc fuel) heap head a x client [] (e, next, at, end) h hf =
    ([], x, client, rw (ap heap e ∙ at) (ground arith), refl, e, at ∙ ap (at_client client) end)
find_last_lem (suc fuel) heap head a x client ((y, c) ∷ rest) (e, next, at, s) (h, hs) hf =
    let (front, last, lc, run, eq, seg, here) =
      find_last_lem fuel heap head next y c rest s hs (omega arith) in
    (
      (x, client) ∷ front,
      last,
      lc,
      rw (ap heap e ∙ at, ap (λ z. z == head) s.0 ∙ h) run,
      ap (◌∷◌ (x, client)) eq,
      (e, next, at, seg),
      here,
    )

abbrev pub AbsentLater : ℕ → List (ℕ × ℕ) → Type 0
AbsentLater z [] = Unit
AbsentLater z (e ∷ rest) = Absent z rest

AbsentLater-Absent : (z : ℕ) (nodes : List (ℕ × ℕ)) → Absent z nodes → AbsentLater z nodes
AbsentLater-Absent z [] h = tt
AbsentLater-Absent z ((x, client) ∷ rest) h = h.1

-- A segment that ends in a freed node makes the walk read freed memory.
pub find_last_faults :
    (fuel : ℕ) (heap : ℕ → Option Node) (head a b : ℕ) (nodes : List (ℕ × ℕ))
    → Segment heap a nodes b
    → heap b ≡ none
    → (b == head) ≡ false
    → AbsentLater head nodes
    → length nodes < fuel
    → find_last fuel heap head a ≡ out_of_bounds
unfolding find_last
find_last_faults zero heap head a b nodes s freed hb h hf = absurd (omega arith)
find_last_faults (suc fuel) heap head a b [] e freed hb h hf = rw (ap heap e ∙ freed) refl
find_last_faults (suc fuel) heap head a b ((x, client) ∷ rest) (e, next, at, s) freed hb h hf =
    let other = start_other heap head next b rest h hb s in
    let run =
      find_last_faults fuel heap head next b rest s freed hb (AbsentLater-Absent head rest h)
        (omega arith) in
    rw (ap heap e ∙ at, other) run
