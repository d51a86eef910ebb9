-- ===== src/Socket.antt =====
-- class Socket (include/socket.hpp): the object and its two mutexes.
pub mod Settings
pub mod Address
pub mod Config
pub mod Os
pub mod Receive
pub mod Collect
pub mod Search
pub mod Send
pub mod Close
pub mod Buffer
pub mod Overloads
use synap_tcp.Base.{
  ℕ, ◌≡◌, refl, Bool, true, false, Option, List, ℤ, Outcome, done, blocked, ◌>>=◌, arith,
}

pub record TimeVal : Type 0 where
  pub tv_sec : ℕ
  pub tv_usec : ℕ

-- struct sockaddr_in: the port is kept in network byte order.
pub record SockAddr : Type 0 where
  pub sin_family : ℕ
  pub sin_port : ℕ
  pub sin_addr : List ℕ

-- `mtx` and `wmtx` say whether the mutex is held; `data_buf` is the vector `data`.
pub record Socket : Type 0 where
  pub address : List ℕ
  pub addr : SockAddr
  pub sock_fd : ℤ
  pub keep_alive_ms : ℕ
  pub len : ℕ
  pub tv_timeout : TimeVal
  pub use_ssl : Bool
  pub ssl_verify_mode : Bool
  pub ssl_conn_routine_ok_status : ℤ
  pub ssl_conn : Option ℕ
  pub mtx : Bool
  pub wmtx : Bool
  pub data_buf : List ℕ
  pub remaining_data : List ℕ

-- A default mutex that is held makes its own thread wait for ever.
abbrev pub lock_if_free : Bool → Socket → Outcome Socket
lock_if_free true s = blocked
lock_if_free false s = done s

abbrev pub lock_mtx : Socket → Outcome Socket
lock_mtx s = lock_if_free s.mtx (record s { mtx = true })

abbrev pub lock_wmtx : Socket → Outcome Socket
lock_wmtx s = lock_if_free s.wmtx (record s { wmtx = true })

abbrev pub unlock_mtx : Socket → Socket
unlock_mtx s = record s { mtx = false }

abbrev pub unlock_wmtx : Socket → Socket
unlock_wmtx s = record s { wmtx = false }

-- Most methods take `mtx` and then `wmtx`, and give both back at the end.
abbrev pub lock_both : Socket → Outcome Socket
lock_both s = lock_mtx s >>= lock_wmtx

abbrev pub unlock_both : Socket → Socket
unlock_both s = unlock_wmtx (unlock_mtx s)

-- No method is running on the object.
pub record IsFree (s : Socket) : Type 0 where
  pub mtx_free : s.mtx ≡ false
  pub wmtx_free : s.wmtx ≡ false
