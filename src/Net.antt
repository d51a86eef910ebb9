-- ===== src/Net.antt =====
-- The calls that TCPClient, TCPServer and SSLWarper make of the operating system and of OpenSSL, beside
-- those of `Os`.
use synap_tcp.Base.{ℕ, Bool, Option, List, ℤ}
use synap_tcp.Socket.{TimeVal, SockAddr}

-- `get_flags` and `set_flags` are fcntl with F_GETFL and F_SETFL, `nonblocking` sets O_NONBLOCK among
-- flags. `select_write` waits for a descriptor to be writable, and writes the time that is left to
-- its timeout, as Linux does. `bind` and `listen` give 0 for success. `so_error` gives the pending error, `none` if getsockopt failed.
-- `host_address` is gethostbyname, with the first address found.
pub record Net (W : Type 0) : Type 0 where
  pub socket : W → ℤ × W
  pub set_receive_timeout : ℤ → TimeVal → W → W
  pub get_flags : ℤ → W → ℤ × W
  pub set_flags : ℤ → ℤ → W → ℤ × W
  pub nonblocking : ℤ → ℤ
  pub connect : ℤ → SockAddr → W → ℤ × W
  pub in_progress : W → Bool
  pub set_reuse_address : ℤ → W → W
  pub bind : ℤ → SockAddr → W → ℤ × W
  pub listen : ℤ → ℕ → W → ℤ × W
  pub select_write : ℤ → TimeVal → W → ℤ × TimeVal × W
  pub so_error : ℤ → W → Option ℤ × W
  pub host_address : List ℕ → W → Option (List ℕ) × W
  pub ssl_new : W → Option ℕ × W
  pub ssl_set_fd : ℕ → ℤ → W → ℤ × W
  pub ssl_connect : ℕ → W → ℤ × W
  pub ssl_accept : ℕ → W → ℤ × W
  pub af_inet : ℕ
