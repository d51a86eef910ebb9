-- ===== src/Tests/Tape.antt =====
-- A small system to run the model on: a connection whose input is a list of bytes that are all there,
-- a writer that takes at most two bytes at a time, and a clock that only a sleep moves.
use synap_tcp.Base.{
  ℕ, ◌+◌, ◌*◌, ◌/◌, ◌%◌, ◌≤◌, ◌<◌, ◌≡◌, refl, true, some, List, [], ◌∷◌, ◌++◌, pos, arith, length,
  take, drop, take-append-drop, inl,
}
use synap_tcp.Socket.{Socket}
use synap_tcp.Socket.Os.{Os, IsStream}
use synap_tcp.Socket.Send.Whole.{IsSink}
use synap_tcp.Socket.Config.{default_socket}
use synap_tcp.Socket.Receive.Total.{IsReady}

pub record Tape : Type 0 where
  pub input : List ℕ
  pub output : List ℕ
  pub time : ℕ

abbrev pub tape_read : ℕ → Tape → List ℕ × Tape
tape_read n w = (take n w.input, record w { input = drop n w.input })

abbrev pub tape_write : List ℕ → Tape → ℕ × Tape
tape_write bytes w = (length (take 2 bytes), record w { output = w.output ++ take 2 bytes })

abbrev pub tape : Os Tape
tape = record {
  read = λ fd n w. tape_read n w;
  ssl_read = λ c n w. tape_read n w;
  fionread = λ fd w. (some (length w.input), w);
  gettimeofday = λ w. (record { tv_sec = w.time / 1000000; tv_usec = w.time % 1000000 }, w);
  usleep = λ n w. record w { time = w.time + n };
  write = λ fd bytes w. tape_write bytes w;
  ssl_write = λ c bytes w. tape_write bytes w;
  close = λ fd w. (true, w);
  ssl_get_shutdown = λ c w. (true, w);
  ssl_shutdown = λ c w. w;
  ssl_free = λ c w. w;
}

pub time_le : (n : ℕ) → n ≤ n
time_le n = omega arith

pub usleep_le : (n k : ℕ) → n + k ≤ n + k
usleep_le n k = omega arith

pub usec_lt : (w : Tape) → w.time % 1000000 < 1000000
usec_lt w = omega arith

pub time_eq : (w : Tape) → w.time / 1000000 * 1000000 + w.time % 1000000 ≡ w.time
time_eq w = omega arith

abbrev pub tape_stream : IsStream tape
tape_stream = record {
  incoming = λ w. w.input;
  clock = λ w. w.time;
  read_front = λ fd n w. take-append-drop n w.input;
  ssl_read_front = λ c n w. take-append-drop n w.input;
  fionread_incoming = λ fd w. refl;
  time_incoming = λ w. refl;
  usleep_incoming = λ n w. refl;
  fionread_clock = λ fd w. time_le w.time;
  time_clock = λ w. time_le w.time;
  usleep_clock = λ n w. usleep_le w.time n;
  time_usec = usec_lt;
  time_value = time_eq;
}

take_two : (bytes : List ℕ) → take (length (take 2 bytes)) bytes ≡ take 2 bytes
take_two [] = refl
take_two (x ∷ []) = refl
take_two (x ∷ y ∷ rest) = refl

pub two_fits : (bytes : List ℕ) → length (take 2 bytes) ≤ length bytes
two_fits [] = omega arith
two_fits (x ∷ []) = omega arith
two_fits (x ∷ y ∷ rest) = omega arith

pub write_eq :
    (bytes : List ℕ) (w : Tape)
    → w.output ++ take 2 bytes ≡ w.output ++ take (length (take 2 bytes)) bytes
write_eq bytes w = rw (take_two bytes) refl

abbrev pub tape_sink : IsSink tape
tape_sink = record {
  sent = λ w. w.output;
  write_fits = λ fd bytes w. two_fits bytes;
  write_sent = λ fd bytes w. write_eq bytes w;
  ssl_write_fits = λ c bytes w. two_fits bytes;
  ssl_write_sent = λ c bytes w. write_eq bytes w;
}

abbrev pub tape_of : List ℕ → Tape
tape_of bytes = record { input = bytes; output = []; time = 999000 }

-- A connected socket that waits two milliseconds for more, and has byte 7 left over.
abbrev pub connected_socket : Socket
connected_socket = record (default_socket (λ n. n)) {
  sock_fd = pos 5;
  keep_alive_ms = 2;
  remaining_data = 7 ∷ [];
}

pub connected_socket-IsReady : IsReady connected_socket
connected_socket-IsReady = (refl, refl, inl refl)
