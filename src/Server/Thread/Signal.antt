-- ===== src/Server/Thread/Signal.antt =====
-- The signal of `receptionThreadHandler` (src/tcp-server.cpp) and the wait for it in `eventCheck`.
use synap_tcp.Base.{◌≡◌, Bool, true, false, List, [], ◌∷◌}
use synap_tcp.Socket.Os.{Os}
use synap_tcp.Server.Thread.{
  MainAt, asleep, returned, ThreadAt, ended, Handshake, Threads, Turn, of_main, of_thread,
  of_wakeup, Run, stop, turn,
}
use synap_tcp.Server.Thread.Control.{Control, move-Moved}
use synap_tcp.Server.Thread.Ends.{
  HandshakeEnd, not_started, served, left_asleep, gone_astray, Stuck, IsStart, IsStart-Sound,
  Run-Sound, Stuck-end,
}
use synap_tcp.Server.Thread.Heard.{
  Heard, Missed, NotWakeup, in_time, woken_up, Control-Missed, Control-Heard,
}

-- No turn is a wakeup without a signal.
abbrev pub NoWakeup : List Turn → Type 0
NoWakeup [] = Unit
NoWakeup (of_main ∷ turns) = NoWakeup turns
NoWakeup (of_thread ∷ turns) = NoWakeup turns
NoWakeup (of_wakeup ∷ turns) = true ≡ false

module _ {W : Type 0} (os : Os W) (threads : Threads W) where
  Run-kept :
      (P : MainAt → ThreadAt → Type 0)
      → ((who : Turn) (m m' : MainAt) (t t' : ThreadAt) (b b' : Bool)
          → Control who m t b m' t' b'
          → NotWakeup who
          → P m t
          → P m' t')
      → (s : Handshake W) (turns : List Turn) (s' : Handshake W) → Run os threads s turns s'
      → NoWakeup turns
      → P s.main s.thread
      → P s'.main s'.thread
  Run-kept P keeps _ _ _ (stop s) calm here = here
  Run-kept P keeps _ _ _ (turn of_main turns s next s' moved rest) calm here =
      Run-kept P keeps next turns s' rest calm (
        keeps of_main s.main next.main s.thread next.thread s.mtx next.mtx
          (move-Moved os threads of_main s next moved) tt here)
  Run-kept P keeps _ _ _ (turn of_thread turns s next s' moved rest) calm here =
      Run-kept P keeps next turns s' rest calm (
        keeps of_thread s.main next.main s.thread next.thread s.mtx next.mtx
          (move-Moved os threads of_thread s next moved) tt here)
  Run-kept P keeps _ _ _ (turn of_wakeup turns s next s' moved rest) calm here = cc

  Missed-end :
      (s : Handshake W)
      → HandshakeEnd os threads s
      → Missed s.main s.thread
      → (s.main ≡ asleep) × (s.thread ≡ ended)
  Missed-end s (not_started at there) (waiting, signalled) = cc
  Missed-end s (served at there) (waiting, signalled) = cc
  Missed-end s (left_asleep at there) missed = (at, there)
  Missed-end s (gone_astray at there) (waiting, signalled) = cc

  Heard-end :
      (s : Handshake W)
      → HandshakeEnd os threads s
      → Heard s.main s.thread
      → (s.main ≡ returned) × (s.thread ≡ ended)
  Heard-end s (not_started at there) (in_time a b) = cc
  Heard-end s (not_started at there) (woken_up a b) = cc
  Heard-end s (served at there) heard = (at, there)
  Heard-end s (left_asleep at there) (in_time a b) = cc
  Heard-end s (left_asleep at there) (woken_up a b) = cc
  Heard-end s (gone_astray at there) (in_time a b) = cc
  Heard-end s (gone_astray at there) (woken_up a b) = cc

  -- From a state that `eventCheck` and the thread can come to, without wakeups that no signal causes, until
  -- neither can go on: if the thread has signalled before `eventCheck` waits, `eventCheck` sleeps
  -- for ever and the thread has ended; if `eventCheck` waits before, both come to their end.
  pub signal_lem :
      (s0 : Handshake W) (before : List Turn) (s : Handshake W) (turns : List Turn)
      (s' : Handshake W)
      → IsStart os threads s0
      → Run os threads s0 before s
      → Run os threads s turns s'
      → NoWakeup turns
      → Stuck os threads s'
      → (Missed s.main s.thread → (s'.main ≡ asleep) × (s'.thread ≡ ended))
        × (Heard s.main s.thread → (s'.main ≡ returned) × (s'.thread ≡ ended))
  signal_lem s0 before s turns s' start reached run calm stuck =
      let (inv, ahead) =
        Run-Sound os threads s0 before s reached (IsStart-Sound os threads s0 start) in
      let (inv', ahead') = Run-Sound os threads s turns s' run inv in
      let (free, end) = Stuck-end os threads s' inv' stuck in
      (
        λ missed.
            Missed-end s' end
              (Run-kept Missed (λ who m m' t t' b b'. Control-Missed) s turns s' run calm missed),
        λ heard.
            Heard-end s' end
              (Run-kept Heard (λ who m m' t t' b b'. Control-Heard) s turns s' run calm heard),
      )
