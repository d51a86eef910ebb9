-- ===== src/Server/Thread/Places.antt =====
-- The places in `eventCheck` and `receptionThreadHandler` (src/tcp-server.cpp) at which they hold the mutex, or
-- before and after which the thread lives.
use synap_tcp.Base.{ℕ, Bool, true, false}
use synap_tcp.Server.Thread.{
  MainAt, at_pipe, at_create, at_lock, at_wait, asleep, woken, at_unlock, returned, ThreadAt,
  unborn, at_start, at_first_lock, at_signal, at_first_unlock, at_callback, at_last_lock, at_detach,
  at_clear, at_time, at_write, at_last_unlock, ended, astray,
}

-- Between the lock of the mutex and its unlock.
abbrev pub in_main : MainAt → Bool
in_main at_pipe = false
in_main at_create = false
in_main at_lock = false
in_main at_wait = true
in_main asleep = false
in_main woken = false
in_main at_unlock = true
in_main returned = false

abbrev pub in_thread : ThreadAt → Bool
in_thread unborn = false
in_thread at_start = false
in_thread at_first_lock = false
in_thread at_signal = true
in_thread at_first_unlock = true
in_thread at_callback = false
in_thread at_last_lock = false
in_thread at_detach = true
in_thread at_clear = true
in_thread at_time = true
in_thread at_write = true
in_thread at_last_unlock = true
in_thread ended = false
in_thread astray = false

-- Before the thread is started.
abbrev pub is_early : MainAt → Bool
is_early at_pipe = true
is_early at_create = true
is_early at_lock = false
is_early at_wait = false
is_early asleep = false
is_early woken = false
is_early at_unlock = false
is_early returned = false

-- After the thread is started, up to the return.
abbrev pub is_busy : MainAt → Bool
is_busy at_pipe = false
is_busy at_create = false
is_busy at_lock = true
is_busy at_wait = true
is_busy asleep = true
is_busy woken = true
is_busy at_unlock = true
is_busy returned = false

abbrev pub is_unborn : ThreadAt → Bool
is_unborn unborn = true
is_unborn at_start = false
is_unborn at_first_lock = false
is_unborn at_signal = false
is_unborn at_first_unlock = false
is_unborn at_callback = false
is_unborn at_last_lock = false
is_unborn at_detach = false
is_unborn at_clear = false
is_unborn at_time = false
is_unborn at_write = false
is_unborn at_last_unlock = false
is_unborn ended = false
is_unborn astray = false

abbrev pub is_astray : ThreadAt → Bool
is_astray unborn = false
is_astray at_start = false
is_astray at_first_lock = false
is_astray at_signal = false
is_astray at_first_unlock = false
is_astray at_callback = false
is_astray at_last_lock = false
is_astray at_detach = false
is_astray at_clear = false
is_astray at_time = false
is_astray at_write = false
is_astray at_last_unlock = false
is_astray ended = false
is_astray astray = true

-- How many statements have been executed at most.
abbrev pub main_rank : MainAt → ℕ
main_rank at_pipe = 0
main_rank at_create = 1
main_rank at_lock = 2
main_rank at_wait = 3
main_rank asleep = 4
main_rank woken = 5
main_rank at_unlock = 6
main_rank returned = 7

abbrev pub thread_rank : ThreadAt → ℕ
thread_rank unborn = 0
thread_rank at_start = 1
thread_rank at_first_lock = 2
thread_rank at_signal = 3
thread_rank at_first_unlock = 4
thread_rank at_callback = 5
thread_rank at_last_lock = 6
thread_rank at_detach = 7
thread_rank at_clear = 8
thread_rank at_time = 9
thread_rank at_write = 10
thread_rank at_last_unlock = 11
thread_rank ended = 12
thread_rank astray = 12
