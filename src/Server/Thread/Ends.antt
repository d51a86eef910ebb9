-- ===== src/Server/Thread/Ends.antt =====
-- How `eventCheck` and `receptionThreadHandler` (src/tcp-server.cpp) end together: however they take turns,
-- they come to an end after a few statements.
use synap_tcp.Base.{
  ◌+◌, ◌≤◌, ◌≡◌, refl, ◌∙◌, ◌⊎◌, inl, inr, Bool, true, false, ◌&&◌, none, some, List, Bool-cases,
  arith, length,
}
use synap_tcp.Server.Thread.Rank.{Control-rank, rank_bound}
use synap_tcp.Socket.Os.{Os}
use synap_tcp.Server.Thread.{
  MainAt, at_pipe, at_create, at_lock, at_wait, asleep, woken, at_unlock, returned, ThreadAt,
  unborn, at_start, at_first_lock, at_signal, at_first_unlock, at_callback, at_last_lock, at_detach,
  at_clear, at_time, at_write, at_last_unlock, ended, astray, Handshake, Threads, Turn, of_main,
  of_thread, locked, main_move, thread_move, move, Run, stop, turn,
}
use synap_tcp.Server.Thread.Control.{move-Moved}
use synap_tcp.Server.Thread.Sound.{Sound, Control-Sound}
use synap_tcp.Server.Thread.Places.{in_main, in_thread, main_rank, thread_rank}

-- It can do no more but wait for a wakeup.
abbrev is_still : MainAt → Bool
is_still at_pipe = false
is_still at_create = false
is_still at_lock = false
is_still at_wait = false
is_still asleep = true
is_still woken = false
is_still at_unlock = false
is_still returned = true

abbrev is_over : ThreadAt → Bool
is_over unborn = true
is_over at_start = false
is_over at_first_lock = false
is_over at_signal = false
is_over at_first_unlock = false
is_over at_callback = false
is_over at_last_lock = false
is_over at_detach = false
is_over at_clear = false
is_over at_time = false
is_over at_write = false
is_over at_last_unlock = false
is_over ended = true
is_over astray = true

module _ {W : Type 0} (os : Os W) (threads : Threads W) where
  -- The thread was not started; or it was, and both have come to their end; or it has, and `eventCheck` sleeps;
  -- or `eventCheck` has, before the thread read its arguments.
  pub data HandshakeEnd (s : Handshake W) : Type 0 where
    not_started : s.main ≡ returned → s.thread ≡ unborn → HandshakeEnd s
    served : s.main ≡ returned → s.thread ≡ ended → HandshakeEnd s
    left_asleep : s.main ≡ asleep → s.thread ≡ ended → HandshakeEnd s
    gone_astray : s.main ≡ returned → s.thread ≡ astray → HandshakeEnd s

  -- Neither can go on.
  abbrev pub Stuck : Handshake W → Type 0
  Stuck s = (move os threads of_main s ≡ none) × (move os threads of_thread s ≡ none)

  locked_stuck : (s s' : Handshake W) → locked os threads s s' ≡ none → s.mtx ≡ true
  locked_stuck s s' run = elim (Bool-cases s.mtx) [
    | inl held ↦ held
    | inr at_rest ↦
        let goes : locked os threads s s' ≡ some (record s' { mtx = true }) = rw at_rest refl in cc
  ]

  main_stuck :
      (m : MainAt) (s : Handshake W)
      → main_move os threads m s ≡ none
      → (in_main m ≡ false) × ((s.mtx ≡ true) ⊎ (is_still m ≡ true))
  unfolding main_move
  main_stuck at_pipe s run = cc
  main_stuck at_create s run = cc
  main_stuck at_lock s run = (refl, inl (locked_stuck s (record s { main = at_wait }) run))
  main_stuck at_wait s run = cc
  main_stuck asleep s run = (refl, inr refl)
  main_stuck woken s run = (refl, inl (locked_stuck s (record s { main = at_unlock }) run))
  main_stuck at_unlock s run = cc
  main_stuck returned s run = (refl, inr refl)

  thread_stuck :
      (t : ThreadAt) (s : Handshake W)
      → thread_move os threads t s ≡ none
      → (in_thread t ≡ false) × ((s.mtx ≡ true) ⊎ (is_over t ≡ true))
  unfolding thread_move
  thread_stuck unborn s run = (refl, inr refl)
  thread_stuck at_start s run = cc
  thread_stuck at_first_lock s run =
      (refl, inl (locked_stuck s (record s { thread = at_signal }) run))
  thread_stuck at_signal s run = cc
  thread_stuck at_first_unlock s run = cc
  thread_stuck at_callback s run = cc
  thread_stuck at_last_lock s run =
      (refl, inl (locked_stuck s (record s { thread = at_detach }) run))
  thread_stuck at_detach s run = cc
  thread_stuck at_clear s run = cc
  thread_stuck at_time s run = cc
  thread_stuck at_write s run = cc
  thread_stuck at_last_unlock s run = cc
  thread_stuck ended s run = (refl, inr refl)
  thread_stuck astray s run = (refl, inr refl)

  end_of :
      (m : MainAt) (t : ThreadAt) (s : Handshake W)
      → s.main ≡ m
      → s.thread ≡ t
      → Sound m t s.mtx
      → is_still m ≡ true
      → is_over t ≡ true
      → HandshakeEnd s
  end_of at_pipe t s at there inv still over = cc
  end_of at_create t s at there inv still over = cc
  end_of at_lock t s at there inv still over = cc
  end_of at_wait t s at there inv still over = cc
  end_of asleep unborn s at there inv still over = let b = inv.busy refl in cc
  end_of asleep at_start s at there inv still over = cc
  end_of asleep at_first_lock s at there inv still over = cc
  end_of asleep at_signal s at there inv still over = cc
  end_of asleep at_first_unlock s at there inv still over = cc
  end_of asleep at_callback s at there inv still over = cc
  end_of asleep at_last_lock s at there inv still over = cc
  end_of asleep at_detach s at there inv still over = cc
  end_of asleep at_clear s at there inv still over = cc
  end_of asleep at_time s at there inv still over = cc
  end_of asleep at_write s at there inv still over = cc
  end_of asleep at_last_unlock s at there inv still over = cc
  end_of asleep ended s at there inv still over = left_asleep at there
  end_of asleep astray s at there inv still over = let l = inv.lost refl in cc
  end_of woken t s at there inv still over = cc
  end_of at_unlock t s at there inv still over = cc
  end_of returned unborn s at there inv still over = not_started at there
  end_of returned at_start s at there inv still over = cc
  end_of returned at_first_lock s at there inv still over = cc
  end_of returned at_signal s at there inv still over = cc
  end_of returned at_first_unlock s at there inv still over = cc
  end_of returned at_callback s at there inv still over = cc
  end_of returned at_last_lock s at there inv still over = cc
  end_of returned at_detach s at there inv still over = cc
  end_of returned at_clear s at there inv still over = cc
  end_of returned at_time s at there inv still over = cc
  end_of returned at_write s at there inv still over = cc
  end_of returned at_last_unlock s at there inv still over = cc
  end_of returned ended s at there inv still over = served at there
  end_of returned astray s at there inv still over = gone_astray at there

  stuck_free :
      (s : Handshake W)
      → Sound s.main s.thread s.mtx
      → in_main s.main ≡ false
      → in_thread s.thread ≡ false
      → s.mtx ≡ false
  stuck_free s inv out out_too = inv.held ∙ rw (out, out_too) refl

  pub Stuck-end :
      (s : Handshake W) → Sound s.main s.thread s.mtx → Stuck s → (s.mtx ≡ false) × HandshakeEnd s
  unfolding move
  Stuck-end s inv (main_stays, thread_stays) =
      let (out, why) = main_stuck s.main s main_stays in
      let (out_too, why_too) = thread_stuck s.thread s thread_stays in
      let at_rest = stuck_free s inv out out_too in
      elim why [
        | inl held ↦ cc
        | inr still ↦ elim why_too [
          | inl held ↦ cc
          | inr over ↦ (at_rest, end_of s.main s.thread s refl refl inv still over)
        ]
      ]

  -- `eventCheck` is before the call of pipe, and there is no thread yet.
  abbrev pub IsStart : Handshake W → Type 0
  IsStart s = (s.main ≡ at_pipe) × (s.thread ≡ unborn) × (s.mtx ≡ false)

  pub IsStart-Sound : (s : Handshake W) → IsStart s → Sound s.main s.thread s.mtx
  IsStart-Sound s (at, there, at_rest) = record {
    held = at_rest ∙ rw (at, there) refl;
    apart = rw at refl;
    early = λ e. rw there refl;
    busy = λ e. cc;
    lost = λ e. cc;
  }

  pub Run-Sound :
      (s : Handshake W) (turns : List Turn) (s' : Handshake W)
      → Run os threads s turns s'
      → Sound s.main s.thread s.mtx
      → Sound s'.main s'.thread s'.mtx
        × (length turns + (main_rank s.main + thread_rank s.thread)
            ≤ main_rank s'.main + thread_rank s'.thread)
  Run-Sound _ _ _ (stop s) inv = (inv, omega arith)
  Run-Sound _ _ _ (turn who turns s next s' moved rest) inv =
      let step = move-Moved os threads who s next moved in
      let (inv', ahead) = Run-Sound next turns s' rest (Control-Sound step inv) in
      (inv', omega (arith, ahead, Control-rank step inv))

  -- However `eventCheck`, from the call of pipe on, and the thread that it starts take turns: they take at
  -- most 19 turns, they never both hold the mutex of the node, and where neither can go on the
  -- mutex is free and they have come to one of four ends.
  pub Run-HandshakeEnd :
      (s : Handshake W) (turns : List Turn) (s' : Handshake W)
      → IsStart s
      → Run os threads s turns s'
      → (length turns ≤ 19)
        × ((in_main s'.main && in_thread s'.thread) ≡ false)
        × (Stuck s' → (s'.mtx ≡ false) × HandshakeEnd s')
  Run-HandshakeEnd s turns s' start run =
      let (inv, ahead) = Run-Sound s turns s' run (IsStart-Sound s start) in
      (
        omega (arith, ahead, rank_bound s'.main s'.thread),
        inv.apart,
        λ stuck. Stuck-end s' inv stuck,
      )
