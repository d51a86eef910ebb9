-- ===== src/Server/Thread/Heard.antt =====
-- Whether the signal of `receptionThreadHandler` (src/tcp-server.cpp) is heard in `eventCheck`, and that this
-- is kept by what they do.
use synap_tcp.Base.{◌≡◌, refl, Bool, true, false}
use synap_tcp.Server.Thread.{
  MainAt, at_pipe, at_create, at_lock, at_wait, asleep, woken, at_unlock, returned, ThreadAt,
  unborn, at_start, at_first_lock, at_signal, at_first_unlock, at_callback, at_last_lock, at_detach,
  at_clear, at_time, at_write, at_last_unlock, ended, astray, Turn, of_main, of_thread, of_wakeup,
}
use synap_tcp.Server.Thread.Control.{
  Control, makes_pipe, creates, fails, locks, waits, locks_again, unlocks, wakes_up, starts, strays,
  first_locks, signals, first_unlocks, calls_back, last_locks, detaches, clears, dates, writes,
  last_unlocks,
}

-- The thread has given its signal.
abbrev pub has_signalled : ThreadAt → Bool
has_signalled unborn = false
has_signalled at_start = false
has_signalled at_first_lock = false
has_signalled at_signal = false
has_signalled at_first_unlock = true
has_signalled at_callback = true
has_signalled at_last_lock = true
has_signalled at_detach = true
has_signalled at_clear = true
has_signalled at_time = true
has_signalled at_write = true
has_signalled at_last_unlock = true
has_signalled ended = true
has_signalled astray = false

abbrev is_to_signal : ThreadAt → Bool
is_to_signal unborn = false
is_to_signal at_start = true
is_to_signal at_first_lock = true
is_to_signal at_signal = true
is_to_signal at_first_unlock = false
is_to_signal at_callback = false
is_to_signal at_last_lock = false
is_to_signal at_detach = false
is_to_signal at_clear = false
is_to_signal at_time = false
is_to_signal at_write = false
is_to_signal at_last_unlock = false
is_to_signal ended = false
is_to_signal astray = false

-- It has no signal to wait for any more.
abbrev is_awake : MainAt → Bool
is_awake at_pipe = false
is_awake at_create = false
is_awake at_lock = false
is_awake at_wait = false
is_awake asleep = false
is_awake woken = true
is_awake at_unlock = true
is_awake returned = true

-- It has not been woken.
abbrev pub is_to_wait : MainAt → Bool
is_to_wait at_pipe = false
is_to_wait at_create = false
is_to_wait at_lock = true
is_to_wait at_wait = true
is_to_wait asleep = true
is_to_wait woken = false
is_to_wait at_unlock = false
is_to_wait returned = false

-- `eventCheck` waits and the thread has still to signal, or it has been woken by the signal.
pub data Heard (m : MainAt) (t : ThreadAt) : Type 0 where
  in_time : m ≡ asleep → is_to_signal t ≡ true → Heard m t
  woken_up : is_awake m ≡ true → has_signalled t ≡ true → Heard m t

abbrev pub Missed : MainAt → ThreadAt → Type 0
Missed m t = (is_to_wait m ≡ true) × (has_signalled t ≡ true)

abbrev pub NotWakeup : Turn → Type 0
NotWakeup of_main = Unit
NotWakeup of_thread = Unit
NotWakeup of_wakeup = true ≡ false

pub Control-Missed :
    {who : Turn} {m m' : MainAt} {t t' : ThreadAt} {b b' : Bool}
    → Control who m t b m' t' b'
    → NotWakeup who
    → Missed m t
    → Missed m' t'
Control-Missed (makes_pipe t b) turn_of (waiting, signalled) = cc
Control-Missed (creates t b) turn_of (waiting, signalled) = cc
Control-Missed (fails t b) turn_of (waiting, signalled) = cc
Control-Missed (locks t) turn_of (waiting, signalled) = (refl, signalled)
Control-Missed (waits t b) turn_of (waiting, signalled) = (refl, signalled)
Control-Missed (locks_again t) turn_of (waiting, signalled) = cc
Control-Missed (unlocks t b) turn_of (waiting, signalled) = cc
Control-Missed (wakes_up t b) turn_of (waiting, signalled) = cc
Control-Missed (starts m b h) turn_of (waiting, signalled) = cc
Control-Missed (strays b) turn_of (waiting, signalled) = cc
Control-Missed (first_locks m) turn_of (waiting, signalled) = cc
Control-Missed (signals m b) turn_of (waiting, signalled) = cc
Control-Missed (first_unlocks m b) turn_of (waiting, signalled) = (waiting, refl)
Control-Missed (calls_back m b) turn_of (waiting, signalled) = (waiting, refl)
Control-Missed (last_locks m) turn_of (waiting, signalled) = (waiting, refl)
Control-Missed (detaches m b) turn_of (waiting, signalled) = (waiting, refl)
Control-Missed (clears m b) turn_of (waiting, signalled) = (waiting, refl)
Control-Missed (dates m b) turn_of (waiting, signalled) = (waiting, refl)
Control-Missed (writes m b) turn_of (waiting, signalled) = (waiting, refl)
Control-Missed (last_unlocks m b) turn_of (waiting, signalled) = (waiting, refl)

pub Control-Heard :
    {who : Turn} {m m' : MainAt} {t t' : ThreadAt} {b b' : Bool}
    → Control who m t b m' t' b'
    → NotWakeup who
    → Heard m t
    → Heard m' t'
Control-Heard (makes_pipe t b) turn_of (in_time at to_signal) = cc
Control-Heard (makes_pipe t b) turn_of (woken_up awake signalled) = cc
Control-Heard (creates t b) turn_of (in_time at to_signal) = cc
Control-Heard (creates t b) turn_of (woken_up awake signalled) = cc
Control-Heard (fails t b) turn_of (in_time at to_signal) = cc
Control-Heard (fails t b) turn_of (woken_up awake signalled) = cc
Control-Heard (locks t) turn_of (in_time at to_signal) = cc
Control-Heard (locks t) turn_of (woken_up awake signalled) = cc
Control-Heard (waits t b) turn_of (in_time at to_signal) = cc
Control-Heard (waits t b) turn_of (woken_up awake signalled) = cc
Control-Heard (locks_again t) turn_of (in_time at to_signal) = cc
Control-Heard (locks_again t) turn_of (woken_up awake signalled) = woken_up refl signalled
Control-Heard (unlocks t b) turn_of (in_time at to_signal) = cc
Control-Heard (unlocks t b) turn_of (woken_up awake signalled) = woken_up refl signalled
Control-Heard (wakes_up t b) turn_of (in_time at to_signal) = cc
Control-Heard (wakes_up t b) turn_of (woken_up awake signalled) = cc
Control-Heard (starts m b h) turn_of (in_time at to_signal) = in_time at refl
Control-Heard (starts m b h) turn_of (woken_up awake signalled) = cc
Control-Heard (strays b) turn_of (in_time at to_signal) = cc
Control-Heard (strays b) turn_of (woken_up awake signalled) = cc
Control-Heard (first_locks m) turn_of (in_time at to_signal) = in_time at refl
Control-Heard (first_locks m) turn_of (woken_up awake signalled) = cc
Control-Heard (signals m b) turn_of (in_time at to_signal) = woken_up (rw at refl) refl
Control-Heard (signals m b) turn_of (woken_up awake signalled) = cc
Control-Heard (first_unlocks m b) turn_of (in_time at to_signal) = cc
Control-Heard (first_unlocks m b) turn_of (woken_up awake signalled) = woken_up awake refl
Control-Heard (calls_back m b) turn_of (in_time at to_signal) = cc
Control-Heard (calls_back m b) turn_of (woken_up awake signalled) = woken_up awake refl
Control-Heard (last_locks m) turn_of (in_time at to_signal) = cc
Control-Heard (last_locks m) turn_of (woken_up awake signalled) = woken_up awake refl
Control-Heard (detaches m b) turn_of (in_time at to_signal) = cc
Control-Heard (detaches m b) turn_of (woken_up awake signalled) = woken_up awake refl
Control-Heard (clears m b) turn_of (in_time at to_signal) = cc
Control-Heard (clears m b) turn_of (woken_up awake signalled) = woken_up awake refl
Control-Heard (dates m b) turn_of (in_time at to_signal) = cc
Control-Heard (dates m b) turn_of (woken_up awake signalled) = woken_up awake refl
Control-Heard (writes m b) turn_of (in_time at to_signal) = cc
Control-Heard (writes m b) turn_of (woken_up awake signalled) = woken_up awake refl
Control-Heard (last_unlocks m b) turn_of (in_time at to_signal) = cc
Control-Heard (last_unlocks m b) turn_of (woken_up awake signalled) = woken_up awake refl
