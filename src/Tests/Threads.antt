-- ===== src/Tests/Threads.antt =====
-- `eventCheck` and the thread that it starts on the tape: turns in which the signal comes too early.
use synap_tcp.Base.{◌≡◌, ◌≤◌, refl, false, ◌&&◌, none, some, List, [], ◌∷◌, pos, length}
use synap_tcp.Server.Thread.{
  Handshake, Threads, Turn, of_main, of_thread, at_pipe, unborn, asleep, returned, ended, move, Run,
  stop, turn,
}
use synap_tcp.Server.Thread.Places.{in_main, in_thread}
use synap_tcp.Server.Thread.Ends.{IsStart, Stuck, HandshakeEnd, Run-HandshakeEnd}
use synap_tcp.Server.Thread.Heard.{Missed, Heard}
use synap_tcp.Server.Thread.Signal.{signal_lem}
use synap_tcp.Tests.Tape.{Tape, tape, tape_of}

abbrev tape_threads : Threads Tape
tape_threads = record {
  make_pipe = λ w. (some (pos 8, pos 9), w);
  create = λ w. (some 4, w);
  detach = λ t w. w;
  callback = λ w. record w { output = 1 ∷ [] };
}

abbrev start_state : Handshake Tape
start_state = record {
  main = at_pipe;
  thread = unborn;
  mtx = false;
  th = 0;
  pipe_out = pos 0;
  pipe_in = pos 0;
  last_activity = record { tv_sec = 0; tv_usec = 0 };
  world = tape_of [];
}

-- The turn of one that can go on, and where it comes to.
go : Turn → Handshake Tape → Handshake Tape
unfolding move
go who s = elim (move tape tape_threads who s) [ none ↦ s | some s' ↦ s' ]

go_all : List Turn → Handshake Tape → Handshake Tape
unfolding go
go_all [] s = s
go_all (who ∷ turns) s = go_all turns (go who s)

-- The thread signals before `eventCheck` waits.
abbrev early_signal : List Turn
early_signal = of_main ∷ of_main ∷ of_thread ∷ of_thread ∷ of_thread ∷ of_thread ∷ []

abbrev later_turns : List Turn
later_turns =
    of_main ∷ of_main ∷ of_thread ∷ of_thread ∷ of_thread ∷ of_thread ∷ of_thread ∷ of_thread
    ∷ of_thread ∷ []

abbrev missed_state : Handshake Tape
missed_state = go_all early_signal start_state

abbrev last_state : Handshake Tape
last_state = go_all later_turns missed_state

early-Run : Run tape tape_threads start_state early_signal missed_state
unfolding go_all move
early-Run = turn of_main _ _ _ _ refl (
    turn of_main _ _ _ _ refl (
      turn of_thread _ _ _ _ refl (
        turn of_thread _ _ _ _ refl
          (turn of_thread _ _ _ _ refl (turn of_thread _ _ _ _ refl (stop _))))))

later-Run : Run tape tape_threads missed_state later_turns last_state
unfolding go_all move
later-Run = turn of_main _ _ _ _ refl (
    turn of_main _ _ _ _ refl (
      turn of_thread _ _ _ _ refl (
        turn of_thread _ _ _ _ refl (
          turn of_thread _ _ _ _ refl (
            turn of_thread _ _ _ _ refl (
              turn of_thread _ _ _ _ refl
                (turn of_thread _ _ _ _ refl (turn of_thread _ _ _ _ refl (stop _)))))))))

last_state-Stuck : Stuck tape tape_threads last_state
unfolding go_all move
last_state-Stuck = (refl, refl)

start_state-IsStart : IsStart tape tape_threads start_state
start_state-IsStart = (refl, refl, refl)

Run-HandshakeEnd_example :
    (length early_signal ≤ 19)
    × ((in_main missed_state.main && in_thread missed_state.thread) ≡ false)
    × (Stuck tape tape_threads missed_state
        → (missed_state.mtx ≡ false) × HandshakeEnd tape tape_threads missed_state)
Run-HandshakeEnd_example =
    Run-HandshakeEnd tape tape_threads start_state early_signal missed_state start_state-IsStart
      early-Run

signal_lem_example :
    (Missed missed_state.main missed_state.thread
      → (last_state.main ≡ asleep) × (last_state.thread ≡ ended))
    × (Heard missed_state.main missed_state.thread
        → (last_state.main ≡ returned) × (last_state.thread ≡ ended))
signal_lem_example =
    signal_lem tape tape_threads start_state early_signal missed_state later_turns last_state
      start_state-IsStart early-Run later-Run tt last_state-Stuck
