-- ===== src/Server/Events/Scan.antt =====
-- The loop of `eventCheck` of class TCPServer (src/tcp-server.cpp) over the ring of clients.
use synap_tcp.Base.{
  ℕ, zero, suc, ◌<◌, ◌≡◌, refl, sym, ap, ◌∙◌, subst, ◌⊎◌, inl, inr, Bool, true, false, not, ◌&&◌,
  some, List, [], ◌∷◌, ℤ, is_non_positive, is_negative, Outcome, done, arith, ◌==◌, if◌then◌else◌,
  Bool-cases, length,
}
use synap_tcp.Socket.{TimeVal}
use synap_tcp.Socket.Settings.{is_socket_timeout}
use synap_tcp.Socket.Os.{Os}
use synap_tcp.Net.{Net}
use synap_tcp.Server.Clients.{Node}
use synap_tcp.Server.Clients.Ring.{IsRing, Segment, Absent, at_client}
use synap_tcp.Server.Accept.{Accepting}
use synap_tcp.Server.Hub.{Hub, Handlers, Found, ServerEvent, has_input, expired, quiet}
use synap_tcp.Server.Events.{
  close_pipe, scan_loop, after_scan, client_event, expire_client, selected,
}

module _ {W : Type 0} (os : Os W) (net : Net W) (acc : Accepting W) (calls : Handlers W) where
  abbrev pub is_idle : TimeVal → ℕ → ℕ → Hub W → Bool
  is_idle now x client hub =
      is_socket_timeout now (hub.peers.last_activity x) (hub.peers.socket_of client)

  abbrev pub is_ready : (ℤ → Bool) → ℕ → Hub W → Bool
  is_ready is_set client hub = is_set (hub.peers.socket_of client).sock_fd

  -- The first event among the clients of a list.
  abbrev pub first_found : (ℤ → Bool) → TimeVal → List (ℕ × ℕ) → ℕ → Hub W → Found
  first_found is_set now [] tmp hub = quiet tmp
  first_found is_set now ((x, client) ∷ rest) tmp hub =
      let active = hub.clients.active == client in
      let later = first_found is_set now rest (if active then x else tmp) hub in
      if not active && is_ready is_set client hub
      then has_input x
      else if is_idle now x client hub
      then expired x
      else later

  -- No thread runs.
  abbrev pub NoPipes : Hub W → Type 0
  NoPipes hub = (x : ℕ) → is_non_positive (hub.peers.pipe_out x) ≡ true

  choose :
      (first second : Bool) (x : ℕ) (rest : Found) (hub : Hub W)
      → if◌then◌else◌ {A = Outcome (Found × Hub W)} first (done (has_input x, hub)) (
          if◌then◌else◌ {A = Outcome (Found × Hub W)} second
            (done (expired x, hub))
            (done (rest, hub)))
        ≡ done ((if first then has_input x else if second then expired x else rest), hub)
  choose true second x rest hub = refl
  choose false true x rest hub = refl
  choose false false x rest hub = refl

  scan_loop_lem :
      (fuel : ℕ) (is_set : ℤ → Bool) (now : TimeVal) (x client next : ℕ) (rest : List (ℕ × ℕ))
      (tmp : ℕ) (hub : Hub W)
      → hub.clients.node x ≡ at_client client next
      → Segment hub.clients.node next rest hub.clients.head
      → Absent hub.clients.head rest
      → NoPipes hub
      → length rest < fuel
      → scan_loop os net acc calls fuel is_set now x tmp hub
        ≡ done (first_found is_set now ((x, client) ∷ rest) tmp hub, hub)
  unfolding scan_loop close_pipe
  scan_loop_lem zero is_set now x client next rest tmp hub here seg apart pipes hf =
      absurd (omega arith)
  scan_loop_lem (suc fuel) is_set now x client next [] tmp hub here last apart pipes hf =
      let around : (next == hub.clients.head) ≡ true = ground (arith, last) in
      let found = quiet (if hub.clients.active == client then x else tmp) in
      rw (here, pipes x, around)
        (rw (pipes x) (
          choose (not (hub.clients.active == client) && is_ready is_set client hub)
            (is_idle now x client hub) x found hub))
  scan_loop_lem (suc fuel) is_set now x client next ((y, cy) ∷ rest) tmp hub here
        (e, next', at, tail) (ne, apart) pipes hf =
      let on : (next == hub.clients.head) ≡ false = ap (λ z. z == hub.clients.head) e ∙ ne in
      let tmp' = if hub.clients.active == client then x else tmp in
      let later =
        ap (λ z. scan_loop os net acc calls fuel is_set now z tmp' hub) e
        ∙ scan_loop_lem fuel is_set now y cy next' rest tmp' hub at tail apart pipes
            (omega arith) in
      rw (here, pipes x, on)
        (rw (pipes x, later)
          (choose (not (hub.clients.active == client) && is_ready is_set client hub)
            (is_idle now x client hub) x (first_found is_set now ((y, cy) ∷ rest) tmp' hub) hub))

  -- A client of the list has input.
  abbrev pub SomeReady : (ℤ → Bool) → List (ℕ × ℕ) → Hub W → Type 0
  SomeReady is_set [] hub = ⊥
  SomeReady is_set ((x, client) ∷ rest) hub =
      (is_ready is_set client hub ≡ true) ⊎ SomeReady is_set rest hub

  -- A node of the list, with its client.
  abbrev pub Listed : ℕ → ℕ → List (ℕ × ℕ) → Type 0
  Listed y cy [] = ⊥
  Listed y cy ((x, client) ∷ rest) = ((x ≡ y) × (client ≡ cy)) ⊎ Listed y cy rest

  -- `tmp` is the node of the active client, which has input.
  abbrev Waits : List (ℕ × ℕ) → (ℤ → Bool) → ℕ → Hub W → Type 0
  Waits nodes is_set tmp hub =
      ((tmp == 0) ≡ false)
      × (n : Node) × (hub.clients.node tmp ≡ some n)
      × (is_ready is_set n.client hub ≡ true)
      × Listed tmp n.client nodes

  -- The end of the loop that leads to an event.
  data Served (nodes : List (ℕ × ℕ)) (is_set : ℤ → Bool) (now : TimeVal) (hub : Hub W)
      : Found → Type 0 where
    by_input :
        (x client : ℕ)
        → Listed x client nodes
        → is_ready is_set client hub ≡ true
        → Served nodes is_set now hub (has_input x)
    by_timeout :
        (x client : ℕ)
        → Listed x client nodes
        → is_idle now x client hub ≡ true
        → Served nodes is_set now hub (expired x)
    at_last : (x : ℕ) → Waits nodes is_set x hub → Served nodes is_set now hub (quiet x)

  moved :
      (nodes : List (ℕ × ℕ)) (x client next : ℕ) (rest : List (ℕ × ℕ)) (tmp : ℕ) (hub : Hub W)
      (is_set : ℤ → Bool)
      → (x == 0) ≡ false
      → hub.clients.node x ≡ at_client client next
      → Listed x client nodes
      → is_ready is_set hub.clients.active hub ≡ is_ready is_set client hub
      → SomeReady is_set ((x, client) ∷ rest) hub
        ⊎ (Waits nodes is_set tmp hub × (is_ready is_set hub.clients.active hub ≡ true))
      → SomeReady is_set rest hub
        ⊎ (Waits nodes is_set x hub × (is_ready is_set hub.clients.active hub ≡ true))
  moved nodes x client next rest tmp hub is_set ne at listed same (inl (inl here)) =
      inr ((ne, record { client = client; next = next }, at, here, listed), same ∙ here)
  moved nodes x client next rest tmp hub is_set ne at listed same (inl (inr later)) = inl later
  moved nodes x client next rest tmp hub is_set ne at listed same (inr (waits, input)) =
      inr ((ne, record { client = client; next = next }, at, sym same ∙ input, listed), input)

  passed :
      {P : Type 0} (client : ℕ) (rest : List (ℕ × ℕ)) (hub : Hub W) (is_set : ℤ → Bool) (x : ℕ)
      → is_ready is_set client hub ≡ false
      → SomeReady is_set ((x, client) ∷ rest) hub ⊎ P
      → SomeReady is_set rest hub ⊎ P
  passed client rest hub is_set x no_input (inl (inl here)) = absurd cc
  passed client rest hub is_set x no_input (inl (inr later)) = inl later
  passed client rest hub is_set x no_input (inr p) = inr p

  first_found-Served :
      (nodes : List (ℕ × ℕ)) (is_set : ℤ → Bool) (now : TimeVal) (here : List (ℕ × ℕ)) (a b tmp : ℕ)
      (hub : Hub W)
      → ((y cy : ℕ) → Listed y cy here → Listed y cy nodes)
      → Segment hub.clients.node a here b
      → Absent 0 here
      → SomeReady is_set here hub
        ⊎ (Waits nodes is_set tmp hub × (is_ready is_set hub.clients.active hub ≡ true))
      → Served nodes is_set now hub (first_found is_set now here tmp hub)
  first_found-Served nodes is_set now [] a b tmp hub part seg nonnull (inl none_ready) =
      absurd none_ready
  first_found-Served nodes is_set now [] a b tmp hub part seg nonnull (inr (waits, active)) =
      at_last tmp waits
  first_found-Served nodes is_set now ((x, client) ∷ rest) a b tmp hub part (e, next, at, seg)
        (ne, nonnull) ready =
      let listed = part x client (inl (refl, refl)) in
      let part' : (y cy : ℕ) → Listed y cy rest → Listed y cy nodes =
        λ y cy later. part y cy (inr later) in
      elim (Bool-cases (hub.clients.active == client)) [
        | inl active ↦
            let it : hub.clients.active ≡ client = ground arith in
            let same : is_ready is_set hub.clients.active hub ≡ is_ready is_set client hub =
              ap (λ c. is_ready is_set c hub) it in
            rw active (elim (Bool-cases (is_idle now x client hub)) [
              | inl idle ↦ rw idle (by_timeout x client listed idle)
              | inr busy ↦ rw busy (
                  first_found-Served nodes is_set now rest next b x hub part' seg nonnull
                    (moved nodes x client next rest tmp hub is_set ne at listed same ready))
            ])
        | inr other ↦ elim (Bool-cases (is_ready is_set client hub)) [
          | inl input ↦ rw (other, input) (by_input x client listed input)
          | inr no_input ↦
              rw (other, no_input)
                (elim (Bool-cases (is_idle now x client hub)) [
                  | inl idle ↦ rw idle (by_timeout x client listed idle)
                  | inr busy ↦ rw busy (
                      first_found-Served nodes is_set now rest next b tmp hub part' seg nonnull
                        (passed client rest hub is_set x no_input ready))
                ])
        ]
      ]

  -- The outcome `o` is that of handling the input of a client of the list that has some, or of
  -- removing a client of the list that has been idle for too long.
  abbrev pub Serves :
      List (ℕ × ℕ) → (ℤ → Bool) → TimeVal → ℕ → Hub W → Outcome (ServerEvent × Hub W) → Type 0
  Serves nodes is_set now fuel hub o =
      (y cy : ℕ) × Listed y cy nodes
      × (((o ≡ client_event os net acc calls fuel y hub) × (is_ready is_set cy hub ≡ true))
          ⊎ ((o ≡ expire_client os net acc calls fuel y hub) × (is_idle now y cy hub ≡ true)))

  after_scan-Served :
      (nodes : List (ℕ × ℕ)) (fuel : ℕ) (is_set : ℤ → Bool) (now : TimeVal) (hub : Hub W)
      (found : Found)
      → Served nodes is_set now hub found
      → Serves nodes is_set now fuel hub (after_scan os net acc calls fuel is_set found hub)
  unfolding after_scan
  after_scan-Served nodes fuel is_set now hub found (by_input y cy listed input) =
      (y, cy, listed, inl (refl, input))
  after_scan-Served nodes fuel is_set now hub found (by_timeout y cy listed idle) =
      (y, cy, listed, inr (refl, idle))
  after_scan-Served nodes fuel is_set now hub found (at_last y (ne, n, at, input, listed)) =
      (y, n.client, listed, inl (rw (ne, at, input) refl, input))

  -- The hub after the clock has been read.
  abbrev pub timed : Hub W → Hub W
  timed hub = record hub { world = (os.gettimeofday hub.world).1 }

  -- It is a matter of the peers alone.
  pub SomeReady-peers :
      (is_set : ℤ → Bool) (nodes : List (ℕ × ℕ)) (hub hub' : Hub W)
      → hub.peers ≡ hub'.peers
      → SomeReady is_set nodes hub
      → SomeReady is_set nodes hub'
  SomeReady-peers is_set [] hub hub' same none_ready = none_ready
  SomeReady-peers is_set ((x, client) ∷ rest) hub hub' same (inl here) =
      inl (ap (λ p. is_set (p.socket_of client).sock_fd) (sym same) ∙ here)
  SomeReady-peers is_set ((x, client) ∷ rest) hub hub' same (inr later) =
      inr (SomeReady-peers is_set rest hub hub' same later)

  -- After a select that succeeds and finds no request, on a ring of clients without threads and with fuel
  -- for each node, if a client has input then `eventCheck` goes on to handle the input of a client that
  -- has some, or to remove one that has been idle for too long.
  pub selected-SomeReady :
      (fuel : ℕ) (ret : ℤ) (is_set : ℤ → Bool) (x client : ℕ) (rest : List (ℕ × ℕ)) (hub : Hub W)
      → is_negative ret ≡ false
      → is_set hub.server.sock.sock_fd ≡ false
      → IsRing hub.clients ((x, client) ∷ rest)
      → NoPipes hub
      → length rest < fuel
      → SomeReady is_set ((x, client) ∷ rest) hub
      → Serves
          ((x, client) ∷ rest)
          is_set
          (os.gettimeofday hub.world).0
          fuel
          (timed hub)
          (selected os net acc calls fuel ret is_set hub)
  unfolding selected
  selected-SomeReady fuel ret is_set x client rest hub good no_request ring pipes hf some_ready =
      let (e, next, at, seg) = ring.ring in
      let now : TimeVal = (os.gettimeofday hub.world).0 in
      let nodes : List (ℕ × ℕ) = (x, client) ∷ rest in
      let nonempty : (hub.clients.head == 0) ≡ false = ap (λ z. z == 0) e ∙ ring.nonnull.0 in
      let scan : scan_loop os net acc calls fuel is_set now hub.clients.head 0 (timed hub)
          ≡ done (first_found is_set now nodes 0 (timed hub), timed hub) =
        ap (λ z. scan_loop os net acc calls fuel is_set now z 0 (timed hub)) e
        ∙ scan_loop_lem fuel is_set now x client next rest 0 (timed hub) at seg
            (subst (λ z. Absent z rest) (sym e) ring.distinct.0) pipes hf in
      let end =
        after_scan-Served nodes fuel is_set now (timed hub)
          (first_found is_set now nodes 0 (timed hub))
          (first_found-Served nodes is_set now nodes hub.clients.head hub.clients.head 0 (timed hub)
            (λ y cy listed. listed) ring.ring ring.nonnull
            (inl (SomeReady-peers is_set nodes hub (timed hub) refl some_ready))) in
      rw (good, no_request, nonempty, scan) end
