-- ===== src/Server/Thread/Sound.antt =====
-- What holds of `eventCheck` and `receptionThreadHandler` (src/tcp-server.cpp) whatever the order in which
-- they go on.
use synap_tcp.Base.{◌≡◌, refl, sym, ◌∙◌, Bool, true, false, ◌&&◌, ◌||◌}
use synap_tcp.Server.Thread.{
  MainAt, at_pipe, at_create, at_lock, at_wait, asleep, woken, at_unlock, returned, ThreadAt,
  unborn, at_start, at_first_lock, at_signal, at_first_unlock, at_callback, at_last_lock, at_detach,
  at_clear, at_time, at_write, at_last_unlock, ended, astray, Turn, wake, is_returned,
}
use synap_tcp.Server.Thread.Control.{
  Control, makes_pipe, creates, fails, locks, waits, locks_again, unlocks, wakes_up, starts, strays,
  first_locks, signals, first_unlocks, calls_back, last_locks, detaches, clears, dates, writes,
  last_unlocks,
}
use synap_tcp.Server.Thread.Places.{in_main, in_thread, is_early, is_busy, is_unborn, is_astray}

-- The mutex is held by the one between a lock and its unlock, of whom there is at most one; the thread
-- lives from its start on, and is lost only after `eventCheck` returned.
pub record Sound (m : MainAt) (t : ThreadAt) (b : Bool) : Type 0 where
  pub held : b ≡ (in_main m || in_thread t)
  pub apart : (in_main m && in_thread t) ≡ false
  pub early : is_early m ≡ true → is_unborn t ≡ true
  pub busy : is_busy m ≡ true → is_unborn t ≡ false
  pub lost : is_astray t ≡ true → is_returned m ≡ true

with_bool :
    (x : Bool)
    → ((x || true) ≡ true) × ((x || false) ≡ x) × ((x && true) ≡ x) × ((x && false) ≡ false)
with_bool true = (refl, refl, refl, refl)
with_bool false = (refl, refl, refl, refl)

unborn_out : (t : ThreadAt) → is_unborn t ≡ true → in_thread t ≡ false
unborn_out unborn e = refl
unborn_out at_start e = cc
unborn_out at_first_lock e = cc
unborn_out at_signal e = cc
unborn_out at_first_unlock e = cc
unborn_out at_callback e = cc
unborn_out at_last_lock e = cc
unborn_out at_detach e = cc
unborn_out at_clear e = cc
unborn_out at_time e = cc
unborn_out at_write e = cc
unborn_out at_last_unlock e = cc
unborn_out ended e = cc
unborn_out astray e = cc

in_main-wake : (m : MainAt) → in_main (wake m) ≡ in_main m
in_main-wake at_pipe = refl
in_main-wake at_create = refl
in_main-wake at_lock = refl
in_main-wake at_wait = refl
in_main-wake asleep = refl
in_main-wake woken = refl
in_main-wake at_unlock = refl
in_main-wake returned = refl

is_early-wake : (m : MainAt) → is_early (wake m) ≡ is_early m
is_early-wake at_pipe = refl
is_early-wake at_create = refl
is_early-wake at_lock = refl
is_early-wake at_wait = refl
is_early-wake asleep = refl
is_early-wake woken = refl
is_early-wake at_unlock = refl
is_early-wake returned = refl

-- A move of `eventCheck` that leaves the mutex alone, one that takes it and one that gives it back; then
-- those of the thread.
main_stays :
    {m m' : MainAt} {t : ThreadAt} {b : Bool}
    → in_main m' ≡ in_main m
    → (is_early m' ≡ true → is_unborn t ≡ true)
    → (is_busy m' ≡ true → is_unborn t ≡ false)
    → (is_astray t ≡ true → is_returned m' ≡ true)
    → Sound m t b
    → Sound m' t b
main_stays same early busy lost inv = record {
  held = cc;
  apart = cc;
  early = early;
  busy = busy;
  lost = lost;
}

main_locks :
    {m m' : MainAt} {t : ThreadAt}
    → in_main m' ≡ true
    → (is_early m' ≡ true → is_unborn t ≡ true)
    → (is_busy m' ≡ true → is_unborn t ≡ false)
    → (is_astray t ≡ true → is_returned m' ≡ true)
    → in_main m ≡ false
    → Sound m t false
    → Sound m' t true
main_locks now early busy lost before inv = record {
  held = cc;
  apart = cc;
  early = early;
  busy = busy;
  lost = lost;
}

main_unlocks :
    {m m' : MainAt} {t : ThreadAt} {b : Bool}
    → in_main m' ≡ false
    → (is_early m' ≡ true → is_unborn t ≡ true)
    → (is_busy m' ≡ true → is_unborn t ≡ false)
    → (is_astray t ≡ true → is_returned m' ≡ true)
    → in_main m ≡ true
    → Sound m t b
    → Sound m' t false
main_unlocks now early busy lost before inv = record {
  held = cc;
  apart = cc;
  early = early;
  busy = busy;
  lost = lost;
}

thread_stays :
    {m : MainAt} {t t' : ThreadAt} {b : Bool}
    → in_thread t' ≡ in_thread t
    → is_unborn t ≡ false
    → is_unborn t' ≡ false
    → is_astray t' ≡ false
    → Sound m t b
    → Sound m t' b
thread_stays same lived lives found inv = record {
  held = cc;
  apart = cc;
  early = λ e. let u = inv.early e in cc;
  busy = λ e. lives;
  lost = λ e. cc;
}

thread_locks :
    {m : MainAt} {t t' : ThreadAt}
    → in_thread t ≡ false
    → in_thread t' ≡ true
    → is_unborn t ≡ false
    → is_unborn t' ≡ false
    → is_astray t' ≡ false
    → Sound m t false
    → Sound m t' true
thread_locks {m} before now lived lives found inv = record {
  held = cc ((with_bool (in_main m)).0, (with_bool (in_main m)).1);
  apart = cc ((with_bool (in_main m)).1, (with_bool (in_main m)).2);
  early = λ e. let u = inv.early e in cc;
  busy = λ e. lives;
  lost = λ e. cc;
}

thread_unlocks :
    {m : MainAt} {t t' : ThreadAt} {b : Bool}
    → in_thread t ≡ true
    → in_thread t' ≡ false
    → is_unborn t ≡ false
    → is_unborn t' ≡ false
    → is_astray t' ≡ false
    → Sound m t b
    → Sound m t' false
thread_unlocks {m} before now lived lives found inv = record {
  held = cc ((with_bool (in_main m)).1, (with_bool (in_main m)).2);
  apart = cc ((with_bool (in_main m)).3);
  early = λ e. let u = inv.early e in cc;
  busy = λ e. lives;
  lost = λ e. cc;
}

-- Every move keeps it.
pub Control-Sound :
    {who : Turn} {m m' : MainAt} {t t' : ThreadAt} {b b' : Bool}
    → Control who m t b m' t' b'
    → Sound m t b
    → Sound m' t' b'
Control-Sound (makes_pipe t b) inv = main_stays refl inv.early inv.busy inv.lost inv
Control-Sound (creates t b) inv = record {
  held = cc (unborn_out t (inv.early refl));
  apart = refl;
  early = λ e. cc;
  busy = λ e. refl;
  lost = λ e. cc;
}
Control-Sound (fails t b) inv = main_stays refl (λ e. cc) (λ e. cc) (λ e. refl) inv
Control-Sound (locks t) inv = main_locks refl inv.early inv.busy inv.lost refl inv
Control-Sound (waits t b) inv = main_unlocks refl inv.early inv.busy inv.lost refl inv
Control-Sound (locks_again t) inv = main_locks refl inv.early inv.busy inv.lost refl inv
Control-Sound (unlocks t b) inv = main_unlocks refl (λ e. cc) (λ e. cc) (λ e. refl) refl inv
Control-Sound (wakes_up t b) inv = main_stays refl inv.early inv.busy inv.lost inv
Control-Sound (starts m b h) inv = thread_stays refl refl refl refl inv
Control-Sound (strays b) inv = record {
  held = cc;
  apart = refl;
  early = λ e. cc;
  busy = λ e. cc;
  lost = λ e. refl;
}
Control-Sound (first_locks m) inv = thread_locks refl refl refl refl refl inv
Control-Sound (signals m b) inv = thread_stays refl refl refl refl (
    main_stays (in_main-wake m) (λ e. inv.early (sym (is_early-wake m) ∙ e)) (λ e. refl) (λ e. cc)
      inv)
Control-Sound (first_unlocks m b) inv = thread_unlocks refl refl refl refl refl inv
Control-Sound (calls_back m b) inv = thread_stays refl refl refl refl inv
Control-Sound (last_locks m) inv = thread_locks refl refl refl refl refl inv
Control-Sound (detaches m b) inv = thread_stays refl refl refl refl inv
Control-Sound (clears m b) inv = thread_stays refl refl refl refl inv
Control-Sound (dates m b) inv = thread_stays refl refl refl refl inv
Control-Sound (writes m b) inv = thread_stays refl refl refl refl inv
Control-Sound (last_unlocks m b) inv = thread_unlocks refl refl refl refl refl inv
