-- ===== src/Server/Events/Watch.antt =====
-- What `eventCheck` of class TCPServer (src/tcp-server.cpp) asks select to wait for.
use synap_tcp.Base.{
  ℕ, zero, suc, ◌+◌, ◌^◌, ◌≤◌, ◌<◌, ◌≡◌, refl, sym, ap, ◌∙◌, subst, inl, inr, Bool, true, false,
  List, [], ◌∷◌, ◌++◌, append_assoc, ℤ, pos, negsuc, residue, is_non_positive, is_negative, done,
  arith, ◌==◌, length,
}
use synap_tcp.Socket.{Socket, IsFree}
use synap_tcp.Socket.Os.{Os}
use synap_tcp.Net.{Net}
use synap_tcp.Server.Clients.Ring.{IsRing, Segment, Absent, at_client}
use synap_tcp.Server.Accept.{Accepting}
use synap_tcp.Server.Hub.{Hub, Handlers, with_server, split_timeout}
use synap_tcp.Server.Events.{watched, highest, is_settable, watch_loop, poll, selected, event_check}
use synap_tcp.Server.Events.Scan.{
  SomeReady, SomeReady-peers, NoPipes, Serves, timed, selected-SomeReady,
}

module _ {W : Type 0} (os : Os W) (net : Net W) (acc : Accepting W) (calls : Handlers W) where
  -- The descriptors of a list of clients, and the highest of them and `max`.
  abbrev pub all_watched : List (ℕ × ℕ) → Hub W → List ℤ
  all_watched [] hub = []
  all_watched ((x, client) ∷ rest) hub =
      watched os net acc calls x client hub ∷ all_watched rest hub

  abbrev pub all_highest : ℕ → List ℤ → ℕ
  all_highest max [] = max
  all_highest max (fd ∷ rest) = all_highest (highest os net acc calls max fd) rest

  -- A descriptor that FD_SET has a bit for; it fits the unsigned short too.
  abbrev pub IsSettable : ℤ → Type 0
  IsSettable (pos n) = n < 1024
  IsSettable (negsuc n) = ⊥

  abbrev pub AllSettable : List ℤ → Type 0
  AllSettable [] = Unit
  AllSettable (fd ∷ rest) = IsSettable fd × AllSettable rest

  is_settable_lem : (fd : ℤ) → IsSettable fd → is_settable os net acc calls fd ≡ true
  is_settable_lem (pos n) small = ground arith
  is_settable_lem (negsuc n) small = absurd small

  watch_loop_lem :
      (fuel : ℕ) (x client next : ℕ) (rest : List (ℕ × ℕ)) (max : ℕ) (fds : List ℤ) (hub : Hub W)
      → hub.clients.node x ≡ at_client client next
      → Segment hub.clients.node next rest hub.clients.head
      → Absent hub.clients.head rest
      → length rest < fuel
      → AllSettable (all_watched ((x, client) ∷ rest) hub)
      → watch_loop os net acc calls fuel x max fds hub
        ≡ done (
          all_highest max (all_watched ((x, client) ∷ rest) hub),
          fds ++ all_watched ((x, client) ∷ rest) hub,
        )
  unfolding watch_loop
  watch_loop_lem zero x client next rest max fds hub here seg apart hf small = absurd (omega arith)
  watch_loop_lem (suc fuel) x client next [] max fds hub here last apart hf (small, others) =
      let around : (next == hub.clients.head) ≡ true = ground (arith, last) in
      rw (here, is_settable_lem (watched os net acc calls x client hub) small, around) refl
  watch_loop_lem (suc fuel) x client next ((y, cy) ∷ rest) max fds hub here (e, next', at, tail)
        (ne, apart) hf (small, others) =
      let on : (next == hub.clients.head) ≡ false = ap (λ z. z == hub.clients.head) e ∙ ne in
      let fd : ℤ = watched os net acc calls x client hub in
      let max' : ℕ = highest os net acc calls max fd in
      let later =
        ap (λ z. watch_loop os net acc calls fuel z max' (fds ++ fd ∷ []) hub) e
        ∙ watch_loop_lem fuel y cy next' rest max' (fds ++ fd ∷ []) hub at tail apart (omega arith)
            others in
      rw (here, is_settable_lem fd small, on, later)
        (ap (λ d. done (all_highest max' (all_watched ((y, cy) ∷ rest) hub), d))
          (append_assoc fds (fd ∷ []) (all_watched ((y, cy) ∷ rest) hub)))

  abbrev pub IsWithin : ℕ → ℤ → Type 0
  IsWithin max (pos n) = n ≤ max
  IsWithin max (negsuc n) = ⊥

  abbrev pub AllWithin : ℕ → List ℤ → Type 0
  AllWithin max [] = Unit
  AllWithin max (fd ∷ rest) = IsWithin max fd × AllWithin max rest

  highest_lem :
      (max : ℕ) (fd : ℤ)
      → IsSettable fd
      → (max ≤ highest os net acc calls max fd) × IsWithin (highest os net acc calls max fd) fd
  highest_lem max (pos n) small = (ground arith, ground arith)
  highest_lem max (negsuc n) small = absurd small

  IsWithin-le : (m n : ℕ) (fd : ℤ) → m ≤ n → IsWithin m fd → IsWithin n fd
  IsWithin-le m n (pos k) le within = omega arith
  IsWithin-le m n (negsuc k) le within = absurd within

  all_highest-AllWithin :
      (max : ℕ) (fds : List ℤ)
      → AllSettable fds
      → (max ≤ all_highest max fds) × AllWithin (all_highest max fds) fds
  all_highest-AllWithin max [] small = (omega arith, tt)
  all_highest-AllWithin max (fd ∷ rest) (small, others) =
      let (above, here) = highest_lem max fd small in
      let (more, rest_within) =
        all_highest-AllWithin (highest os net acc calls max fd) rest others in
      (
        omega arith,
        (
          IsWithin-le (highest os net acc calls max fd) (all_highest max (fd ∷ rest)) fd more here,
          rest_within,
        ),
      )

  -- The server with both mutexes held, in the state after select.
  abbrev pub held_hub : Hub W → W → Hub W
  held_hub hub w = record (with_server hub (record (hub.server.sock) { mtx = true; wmtx = true })) {
    world = w;
  }

  abbrev pub first_of : Hub W → ℕ
  first_of hub = residue hub.server.sock.sock_fd (2 ^ 16)

  -- The descriptors that select is to wait for, and the highest.
  abbrev pub waited : List (ℕ × ℕ) → Hub W → List ℤ
  waited nodes hub = hub.server.sock.sock_fd ∷ all_watched nodes hub

  first_of-IsWithin : (fd : ℤ) → IsSettable fd → IsWithin (residue fd (2 ^ 16)) fd
  first_of-IsWithin (pos n) small = omega arith
  first_of-IsWithin (negsuc n) small = absurd small

  poll_lem :
      (fuel timeout_ms : ℕ) (h : Socket) (hub : Hub W) (max : ℕ) (fds : List ℤ) (ret : ℤ)
      (is_set : ℤ → Bool) (w : W)
      → IsSettable h.sock_fd
      → (hub.clients.head == 0) ≡ false
      → watch_loop os net acc calls fuel hub.clients.head
          (residue h.sock_fd (2 ^ 16))
          (h.sock_fd ∷ [])
          hub
        ≡ done (max, fds)
      → calls.select (max + 1) fds (split_timeout timeout_ms) hub.world ≡ (ret, is_set, w)
      → poll os net acc calls fuel timeout_ms h hub
        ≡ selected os net acc calls fuel ret is_set
            (record (with_server hub (record h { mtx = true; wmtx = true })) { world = w })
  unfolding poll
  poll_lem fuel timeout_ms h hub max fds ret is_set w small nonempty watch answer =
      rw (is_settable_lem h.sock_fd small, nonempty, watch, answer) refl

  event_check_lem :
      (fuel timeout_ms : ℕ) (x client : ℕ) (rest : List (ℕ × ℕ)) (hub : Hub W) (ret : ℤ)
      (is_set : ℤ → Bool) (w : W)
      → IsFree hub.server.sock
      → is_non_positive hub.server.sock.sock_fd ≡ false
      → IsRing hub.clients ((x, client) ∷ rest)
      → length rest < fuel
      → AllSettable (waited ((x, client) ∷ rest) hub)
      → calls.select
          (all_highest (first_of hub) (all_watched ((x, client) ∷ rest) hub) + 1)
          (waited ((x, client) ∷ rest) hub)
          (split_timeout timeout_ms)
          hub.world
        ≡ (ret, is_set, w)
      → event_check os net acc calls fuel timeout_ms hub
        ≡ selected os net acc calls fuel ret is_set (held_hub hub w)
  unfolding event_check
  event_check_lem fuel timeout_ms x client rest hub ret is_set w free listens ring hf small answer =
      let (e, next, at, seg) = ring.ring in
      let nonempty : (hub.clients.head == 0) ≡ false = ap (λ z. z == 0) e ∙ ring.nonnull.0 in
      let fd : ℤ = hub.server.sock.sock_fd in
      let locked : Socket = record (hub.server.sock) { mtx = true; wmtx = true } in
      let watch : watch_loop os net acc calls fuel hub.clients.head (first_of hub) (fd ∷ []) hub
          ≡ done (
            all_highest (first_of hub) (all_watched ((x, client) ∷ rest) hub),
            waited ((x, client) ∷ rest) hub,
          ) =
        ap (λ z. watch_loop os net acc calls fuel z (first_of hub) (fd ∷ []) hub) e
        ∙ watch_loop_lem fuel x client next rest (first_of hub) (fd ∷ []) hub at seg
            (subst (λ z. Absent z rest) (sym e) ring.distinct.0) hf small.1 in
      let starts : event_check os net acc calls fuel timeout_ms hub
          ≡ poll os net acc calls fuel timeout_ms locked hub =
        simp (free.mtx_free, free.wmtx_free, listens) in
      starts ∙ poll_lem fuel timeout_ms locked hub _ _ ret is_set w small.0 nonempty watch answer

  -- `eventCheck` on a server that is free and listens, on a ring of clients without threads and with fuel for
  -- each node, where all descriptors are below 1024: it hands select the descriptor of the server
  -- and that of each client, in order, with a bound above them all. If select succeeds and finds no
  -- request, but a client with input, `eventCheck` goes on to handle the input of a client of the ring that has
  -- some, or to remove a client of the ring that has been idle for too long.
  pub event_check-SomeReady :
      (fuel timeout_ms : ℕ) (x client : ℕ) (rest : List (ℕ × ℕ)) (hub : Hub W) (ret : ℤ)
      (is_set : ℤ → Bool) (w : W)
      → IsFree hub.server.sock
      → is_non_positive hub.server.sock.sock_fd ≡ false
      → IsRing hub.clients ((x, client) ∷ rest)
      → NoPipes os net acc calls hub
      → length rest < fuel
      → AllSettable (waited ((x, client) ∷ rest) hub)
      → calls.select
          (all_highest (first_of hub) (all_watched ((x, client) ∷ rest) hub) + 1)
          (waited ((x, client) ∷ rest) hub)
          (split_timeout timeout_ms)
          hub.world
        ≡ (ret, is_set, w)
      → is_negative ret ≡ false
      → is_set hub.server.sock.sock_fd ≡ false
      → SomeReady os net acc calls is_set ((x, client) ∷ rest) hub
      → AllWithin
          (all_highest (first_of hub) (all_watched ((x, client) ∷ rest) hub))
          (waited ((x, client) ∷ rest) hub)
        × Serves os net acc calls
            ((x, client) ∷ rest)
            is_set
            (os.gettimeofday w).0
            fuel
            (timed os net acc calls (held_hub hub w))
            (event_check os net acc calls fuel timeout_ms hub)
  event_check-SomeReady fuel timeout_ms x client rest hub ret is_set w free listens ring pipes hf
        small answer good no_request some_ready =
      let run =
        event_check_lem fuel timeout_ms x client rest hub ret is_set w free listens ring hf small
          answer in
      let (above, within) =
        all_highest-AllWithin (first_of hub) (all_watched ((x, client) ∷ rest) hub) small.1 in
      let (y, cy, listed, end) =
        selected-SomeReady os net acc calls fuel ret is_set x client rest (held_hub hub w) good
          no_request ring pipes hf
          (SomeReady-peers os net acc calls is_set ((x, client) ∷ rest) hub (held_hub hub w) refl
            some_ready) in
      (
        (
          IsWithin-le (first_of hub) _ hub.server.sock.sock_fd above
              (first_of-IsWithin hub.server.sock.sock_fd small.0),
          within,
        ),
        (
          y,
          cy,
          listed,
          (elim end [
            | inl (handled, input) ↦ inl (run ∙ handled, input)
            | inr (removed, idle) ↦ inr (run ∙ removed, idle)
          ]),
        ),
      )
