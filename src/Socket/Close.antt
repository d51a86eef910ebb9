-- ===== src/Socket/Close.antt =====
-- `closeConnection` and `closeSocket` of class Socket (src/socket.cpp). The destructor calls the
-- latter.
pub mod Twice
use synap_tcp.Base.{
  ℕ, zero, ◌≡◌, Bool, true, false, not, Option, none, some, ℤ, pos, negsuc, is_non_positive,
  Outcome, done, blocked, ◌>>=◌, if◌then◌else◌,
}
use synap_tcp.Socket.{Socket, lock_both, unlock_both}
use synap_tcp.Socket.Os.{Os}

abbrev pub minus_one : ℤ
minus_one = negsuc 0

abbrev pub is_minus_one : ℤ → Bool
is_minus_one (negsuc zero) = true
is_minus_one _ = false

module _ {W : Type 0} (os : Os W) where
  -- if (this->sockFd > 0) if (!close(this->sockFd)) this->sockFd = -1
  pub close_fd : Socket → W → Socket × W
  close_fd s w =
      let (closed, w') = os.close s.sock_fd w in
      if is_non_positive s.sock_fd
      then (s, w)
      else if closed
      then (record s { sock_fd = minus_one }, w')
      else (s, w')

  -- The shutdown that comes before SSL_free.
  pub shutdown_ssl : ℕ → Socket → W → W
  shutdown_ssl c s w =
      let (sent, w') = os.ssl_get_shutdown c w in
      if not (is_non_positive s.sock_fd)
      then (if sent then w' else os.ssl_shutdown c w')
      else if is_minus_one s.ssl_conn_routine_ok_status
      then w
      else os.ssl_shutdown c w

  pub close_ssl : Option ℕ → Socket → W → Socket × W
  close_ssl none s w = (s, w)
  close_ssl (some c) s w =
      if s.use_ssl
      then (record s { ssl_conn = none }, os.ssl_free c (shutdown_ssl c s w))
      else (s, w)

  pub close_connection : Socket → W → Outcome (Socket × W)
  unfolding close_ssl shutdown_ssl close_fd
  close_connection s w = do
    h ← lock_both s
    let (h', w') = close_ssl h.ssl_conn h w
    let (h'', w'') = close_fd (record h' { ssl_conn_routine_ok_status = pos 0 }) w'
    done (unlock_both h'', w'')

  pub close_socket : Socket → W → Outcome (Socket × W)
  unfolding close_connection
  close_socket s w = do
    (s', w') ← close_connection s w
    h ← lock_both s'
    let (h', w'') = close_fd h w'
    done (unlock_both h', w'')
