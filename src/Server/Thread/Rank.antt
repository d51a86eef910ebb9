-- ===== src/Server/Thread/Rank.antt =====
-- How many of their statements `eventCheck` and `receptionThreadHandler` (src/tcp-server.cpp) have executed.
use synap_tcp.Base.{◌+◌, ◌≤◌, ◌<◌, ◌≡◌, refl, Bool, true, arith}
use synap_tcp.Server.Thread.{
  MainAt, at_pipe, at_create, at_lock, at_wait, asleep, woken, at_unlock, returned, ThreadAt,
  unborn, at_start, at_first_lock, at_signal, at_first_unlock, at_callback, at_last_lock, at_detach,
  at_clear, at_time, at_write, at_last_unlock, ended, astray, Turn, wake,
}
use synap_tcp.Server.Thread.Control.{
  Control, makes_pipe, creates, fails, locks, waits, locks_again, unlocks, wakes_up, starts, strays,
  first_locks, signals, first_unlocks, calls_back, last_locks, detaches, clears, dates, writes,
  last_unlocks,
}
use synap_tcp.Server.Thread.Sound.{Sound}
use synap_tcp.Server.Thread.Places.{is_unborn, main_rank, thread_rank}

unborn_first : (t : ThreadAt) → is_unborn t ≡ true → thread_rank t ≡ 0
unborn_first unborn e = refl
unborn_first at_start e = cc
unborn_first at_first_lock e = cc
unborn_first at_signal e = cc
unborn_first at_first_unlock e = cc
unborn_first at_callback e = cc
unborn_first at_last_lock e = cc
unborn_first at_detach e = cc
unborn_first at_clear e = cc
unborn_first at_time e = cc
unborn_first at_write e = cc
unborn_first at_last_unlock e = cc
unborn_first ended e = cc
unborn_first astray e = cc

wake_ahead : (m : MainAt) → main_rank m ≤ main_rank (wake m)
wake_ahead at_pipe = omega arith
wake_ahead at_create = omega arith
wake_ahead at_lock = omega arith
wake_ahead at_wait = omega arith
wake_ahead asleep = omega arith
wake_ahead woken = omega arith
wake_ahead at_unlock = omega arith
wake_ahead returned = omega arith

-- Every move is a step ahead.
pub Control-rank :
    {who : Turn} {m m' : MainAt} {t t' : ThreadAt} {b b' : Bool}
    → Control who m t b m' t' b'
    → Sound m t b
    → main_rank m + thread_rank t < main_rank m' + thread_rank t'
Control-rank (makes_pipe t b) inv = omega arith
Control-rank (creates t b) inv = omega (arith, unborn_first t (inv.early refl))
Control-rank (fails t b) inv = omega arith
Control-rank (locks t) inv = omega arith
Control-rank (waits t b) inv = omega arith
Control-rank (locks_again t) inv = omega arith
Control-rank (unlocks t b) inv = omega arith
Control-rank (wakes_up t b) inv = omega arith
Control-rank (starts m b h) inv = omega arith
Control-rank (strays b) inv = omega arith
Control-rank (first_locks m) inv = omega arith
Control-rank (signals m b) inv = omega (arith, wake_ahead m)
Control-rank (first_unlocks m b) inv = omega arith
Control-rank (calls_back m b) inv = omega arith
Control-rank (last_locks m) inv = omega arith
Control-rank (detaches m b) inv = omega arith
Control-rank (clears m b) inv = omega arith
Control-rank (dates m b) inv = omega arith
Control-rank (writes m b) inv = omega arith
Control-rank (last_unlocks m b) inv = omega arith

main_bound : (m : MainAt) → main_rank m ≤ 7
main_bound at_pipe = omega arith
main_bound at_create = omega arith
main_bound at_lock = omega arith
main_bound at_wait = omega arith
main_bound asleep = omega arith
main_bound woken = omega arith
main_bound at_unlock = omega arith
main_bound returned = omega arith

thread_bound : (t : ThreadAt) → thread_rank t ≤ 12
thread_bound unborn = omega arith
thread_bound at_start = omega arith
thread_bound at_first_lock = omega arith
thread_bound at_signal = omega arith
thread_bound at_first_unlock = omega arith
thread_bound at_callback = omega arith
thread_bound at_last_lock = omega arith
thread_bound at_detach = omega arith
thread_bound at_clear = omega arith
thread_bound at_time = omega arith
thread_bound at_write = omega arith
thread_bound at_last_unlock = omega arith
thread_bound ended = omega arith
thread_bound astray = omega arith

pub rank_bound : (m : MainAt) (t : ThreadAt) → main_rank m + thread_rank t ≤ 19
rank_bound m t = omega (arith, main_bound m, thread_bound t)
