-- ===== src/Socket/Os.antt =====
-- The calls that class Socket makes of the operating system and of OpenSSL, over the state `W` of
-- both, and what it relies on: a connection is a stream of bytes that a read takes from the front,
-- and the clock goes on while the thread sleeps.
use synap_tcp.Base.{ℕ, ◌+◌, ◌*◌, ◌≤◌, ◌<◌, ◌≡◌, Bool, Option, List, ◌++◌, ℤ}
use synap_tcp.Socket.{TimeVal}

-- `read` and `ssl_read` give the bytes that were stored, none if the call returned 0 or -1; `write`
-- and `ssl_write` give the count of bytes taken, 0 if the call returned 0 or -1. `fionread` gives
-- the count of bytes that can be read, `none` if ioctl failed. `close` says whether it succeeded.
pub record Os (W : Type 0) : Type 0 where
  pub read : ℤ → ℕ → W → List ℕ × W
  pub ssl_read : ℕ → ℕ → W → List ℕ × W
  pub fionread : ℤ → W → Option ℕ × W
  pub gettimeofday : W → TimeVal × W
  pub usleep : ℕ → W → W
  pub write : ℤ → List ℕ → W → ℕ × W
  pub ssl_write : ℕ → List ℕ → W → ℕ × W
  pub close : ℤ → W → Bool × W
  pub ssl_get_shutdown : ℕ → W → Bool × W
  pub ssl_shutdown : ℕ → W → W
  pub ssl_free : ℕ → W → W

-- `incoming` is what the peer sends and the program has not read, of the one connection at hand.
-- `clock` is the time in microseconds.
pub record IsStream {W : Type 0} (os : Os W) : Type 0 where
  pub incoming : W → List ℕ
  pub clock : W → ℕ
  pub read_front :
      (fd : ℤ) (n : ℕ) (w : W) → (os.read fd n w).0 ++ incoming (os.read fd n w).1 ≡ incoming w
  pub ssl_read_front :
      (c : ℕ) (n : ℕ) (w : W) → (os.ssl_read c n w).0 ++ incoming (os.ssl_read c n w).1 ≡ incoming w
  pub fionread_incoming : (fd : ℤ) (w : W) → incoming (os.fionread fd w).1 ≡ incoming w
  pub time_incoming : (w : W) → incoming (os.gettimeofday w).1 ≡ incoming w
  pub usleep_incoming : (n : ℕ) (w : W) → incoming (os.usleep n w) ≡ incoming w
  pub fionread_clock : (fd : ℤ) (w : W) → clock w ≤ clock (os.fionread fd w).1
  pub time_clock : (w : W) → clock w ≤ clock (os.gettimeofday w).1
  pub usleep_clock : (n : ℕ) (w : W) → clock w + n ≤ clock (os.usleep n w)
  pub time_usec : (w : W) → (os.gettimeofday w).0.tv_usec < 1000000
  pub time_value :
      (w : W)
      → (os.gettimeofday w).0.tv_sec * 1000000 + (os.gettimeofday w).0.tv_usec
        ≡ clock (os.gettimeofday w).1
