-- ===== src/Server/Thread.antt =====
-- The thread of a reception (src/tcp-server.cpp): the end of `eventCheck` of class TCPServer, which starts it
-- and waits for its signal, and `receptionThreadHandler`, which it runs. Both are the statements
-- that they take one at a time, each at the place in its code that it has come to.
pub mod Control
pub mod Places
pub mod Sound
pub mod Rank
pub mod Ends
pub mod Heard
pub mod Signal
use synap_tcp.Base.{
  ℕ, ◌≡◌, Bool, true, false, Option, none, some, List, [], ◌∷◌, ℤ, pos, negsuc, zero, suc,
  if◌then◌else◌,
}
use synap_tcp.Socket.{TimeVal}
use synap_tcp.Socket.Os.{Os}
use synap_tcp.Client.{is_zero}

-- Where `eventCheck` is. `asleep` is inside pthread_cond_wait, `woken` there with the mutex still to take.
pub data MainAt : Type 0 where
  at_pipe : MainAt
  at_create : MainAt
  at_lock : MainAt
  at_wait : MainAt
  asleep : MainAt
  woken : MainAt
  at_unlock : MainAt
  returned : MainAt

-- Where the thread is. `astray`: it has read its arguments after `eventCheck` left the block where they
-- stand.
pub data ThreadAt : Type 0 where
  unborn : ThreadAt
  at_start : ThreadAt
  at_first_lock : ThreadAt
  at_signal : ThreadAt
  at_first_unlock : ThreadAt
  at_callback : ThreadAt
  at_last_lock : ThreadAt
  at_detach : ThreadAt
  at_clear : ThreadAt
  at_time : ThreadAt
  at_write : ThreadAt
  at_last_unlock : ThreadAt
  ended : ThreadAt
  astray : ThreadAt

-- What the two share: the mutex of the node, its thread, its pipe and its last activity.
pub record Handshake (W : Type 0) : Type 0 where
  pub main : MainAt
  pub thread : ThreadAt
  pub mtx : Bool
  pub th : ℕ
  pub pipe_out : ℤ
  pub pipe_in : ℤ
  pub last_activity : TimeVal
  pub world : W

-- `make_pipe` is pipe, `none` if it failed; `create` is pthread_create, with the number of the thread;
-- `detach` is pthread_detach; `callback` calls the function for a reception with its parameter.
pub record Threads (W : Type 0) : Type 0 where
  pub make_pipe : W → Option (ℤ × ℤ) × W
  pub create : W → Option ℕ × W
  pub detach : ℕ → W → W
  pub callback : W → W

-- A wakeup that no signal causes is one that POSIX allows to pthread_cond_wait.
pub data Turn : Type 0 where
  of_main : Turn
  of_thread : Turn
  of_wakeup : Turn

-- pthread_cond_signal and a wakeup: whoever waits stops waiting.
abbrev pub wake : MainAt → MainAt
wake at_pipe = at_pipe
wake at_create = at_create
wake at_lock = at_lock
wake at_wait = at_wait
wake asleep = woken
wake woken = woken
wake at_unlock = at_unlock
wake returned = returned

abbrev pub is_returned : MainAt → Bool
is_returned at_pipe = false
is_returned at_create = false
is_returned at_lock = false
is_returned at_wait = false
is_returned asleep = false
is_returned woken = false
is_returned at_unlock = false
is_returned returned = true

module _ {W : Type 0} (os : Os W) (threads : Threads W) where
  abbrev with_pipe : Option (ℤ × ℤ) → W → Handshake W → Handshake W
  with_pipe none w s = record s { main = at_create; pipe_out = pos 0; pipe_in = pos 0; world = w }
  with_pipe (some (out, into)) w s = record s {
    main = at_create;
    pipe_out = out;
    pipe_in = into;
    world = w;
  }

  abbrev with_thread : Option ℕ → W → Handshake W → Handshake W
  with_thread none w s = record s { main = returned; world = w }
  with_thread (some t) w s = record s { main = at_lock; thread = at_start; th = t; world = w }

  -- pthread_mutex_lock: a thread does not go on while the mutex is held.
  abbrev locked : Handshake W → Handshake W → Option (Handshake W)
  locked s s' = if s.mtx then none else some (record s' { mtx = true })

  -- The next statement of `eventCheck`; `none` while it waits, and after the last.
  unfoldable pub main_move : MainAt → Handshake W → Option (Handshake W)
  main_move at_pipe s =
      some (with_pipe (threads.make_pipe s.world).0 (threads.make_pipe s.world).1 s)
  main_move at_create s = some (with_thread (threads.create s.world).0 (threads.create s.world).1 s)
  main_move at_lock s = locked s (record s { main = at_wait })
  main_move at_wait s = some (record s { main = asleep; mtx = false })
  main_move asleep s = none
  main_move woken s = locked s (record s { main = at_unlock })
  main_move at_unlock s = some (record s { main = returned; mtx = false })
  main_move returned s = none

  -- The next statement of `receptionThreadHandler`.
  unfoldable pub thread_move : ThreadAt → Handshake W → Option (Handshake W)
  thread_move unborn s = none
  thread_move at_start s =
      some (record s { thread = if is_returned s.main then astray else at_first_lock })
  thread_move at_first_lock s = locked s (record s { thread = at_signal })
  thread_move at_signal s = some (record s { main = wake s.main; thread = at_first_unlock })
  thread_move at_first_unlock s = some (record s { thread = at_callback; mtx = false })
  thread_move at_callback s =
      some (record s { thread = at_last_lock; world = threads.callback s.world })
  thread_move at_last_lock s = locked s (record s { thread = at_detach })
  thread_move at_detach s =
      some (record s { thread = at_clear; world = threads.detach s.th s.world })
  thread_move at_clear s = some (record s { thread = at_time; th = 0 })
  thread_move at_time s = some (record s {
    thread = at_write;
    last_activity = (os.gettimeofday s.world).0;
    world = (os.gettimeofday s.world).1;
  })
  thread_move at_write s = some (record s {
    thread = at_last_unlock;
    world = if is_zero s.pipe_in then s.world else (os.write s.pipe_in (0x30 ∷ []) s.world).1;
  })
  thread_move at_last_unlock s = some (record s { thread = ended; mtx = false })
  thread_move ended s = none
  thread_move astray s = none

  abbrev wakeup_move : MainAt → Handshake W → Option (Handshake W)
  wakeup_move asleep s = some (record s { main = woken })
  wakeup_move m s = none

  unfoldable pub move : Turn → Handshake W → Option (Handshake W)
  unfolding main_move thread_move
  move of_main s = main_move s.main s
  move of_thread s = thread_move s.thread s
  move of_wakeup s = wakeup_move s.main s

  -- The turns are taken one after another, by whoever can go on.
  pub data Run : Handshake W → List Turn → Handshake W → Type 0 where
    stop : (s : Handshake W) → Run s [] s
    turn :
        (t : Turn) (turns : List Turn) (s s' s'' : Handshake W)
        → move t s ≡ some s'
        → Run s' turns s''
        → Run s (t ∷ turns) s''
