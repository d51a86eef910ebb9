-- ===== src/Server.antt =====
-- class TCPServer (src/tcp-server.cpp, include/tcp-server.hpp), without its events and its list of clients.
pub mod Listen
pub mod Clients
pub mod Accept
pub mod Hub
pub mod Drop
pub mod Events
pub mod Thread
use synap_tcp.Base.{
  ℕ, ◌^◌, ◌≡◌, Bool, true, false, ◌||◌, Option, none, some, List, take, length, ℤ, pos, negsuc,
  pos_part, ltb_ℤ, residue, is_non_positive, Outcome, done, out_of_bounds, ◌>>=◌, ltb,
  if◌then◌else◌,
}
use synap_tcp.Socket.{Socket, lock_both, unlock_both}
use synap_tcp.Socket.Os.{Os}
use synap_tcp.Socket.Close.{minus_one}
use synap_tcp.Net.{Net}
use synap_tcp.Ssl.{Openssl, SslWarper, Ending, returns, ◌then_do◌, ctx_type_server, ssl_warper_new}
use synap_tcp.Client.{is_zero}

-- A pointer is an address, `none` for nullptr.
pub record Server : Type 0 where
  pub sock : Socket
  pub reception_handler_as_thread : Bool
  pub max_client : ℕ
  pub con_req_callback_function : Option ℕ
  pub con_req_callback_param : Option ℕ
  pub reception_callback_function : Option ℕ
  pub reception_callback_param : Option ℕ
  pub ssl_warper : Option SslWarper

-- The constructors, on memory that holds anything, after those of the base classes. The callbacks are
-- left as they are.
unfoldable pub server_new : Server → Server
server_new raw = record raw { max_client = 10; ssl_warper = none }

-- The field is an unsigned short.
unfoldable pub set_maximum_client : ℤ → Server → Outcome (Bool × Server)
set_maximum_client n s = if ltb_ℤ n (pos 1) || ltb_ℤ (pos 65535) n then done (false, s) else do
  h ← lock_both s.sock
  done (true, record s { sock = unlock_both h; max_client = residue n (2 ^ 16) })

unfoldable pub get_maximum_client : Server → ℕ
get_maximum_client s = s.max_client

unfoldable pub set_connection_request_handler : Option ℕ → Option ℕ → Server → Outcome Server
set_connection_request_handler func param s = do
  h ← lock_both s.sock
  done (record s {
    sock = unlock_both h;
    con_req_callback_function = func;
    con_req_callback_param = param;
  })

unfoldable pub set_reception_handler : Option ℕ → Option ℕ → Bool → Server → Outcome Server
set_reception_handler func param as_thread s = do
  h ← lock_both s.sock
  done (record s {
    sock = unlock_both h;
    reception_callback_function = func;
    reception_callback_param = param;
    reception_handler_as_thread = as_thread;
  })

-- The overload without a thread.
unfoldable pub set_reception_handler_plain : Option ℕ → Option ℕ → Server → Outcome Server
set_reception_handler_plain func param = set_reception_handler func param false

unfoldable pub get_reception_handler_function : Server → Option ℕ
get_reception_handler_function s = s.reception_callback_function

unfoldable pub get_reception_handler_param : Server → Option ℕ
get_reception_handler_param s = s.reception_callback_param

-- new SSLWarper(...): a failure of its constructor ends the program.
pub initialize_server_ssl :
    {W : Type 0} → Openssl W → List ℕ → List ℕ → Server → W → Ending (Bool × Server × W)
unfolding ssl_warper_new
initialize_server_ssl ssl cert key s w = ssl_warper_new ssl ctx_type_server cert key w then_do λ r.
    returns (true, record s { ssl_warper = some r.0 }, r.1)

module _ {W : Type 0} (os : Os W) (net : Net W) where
  abbrev pub with_address : ℤ → Socket → Socket
  with_address fd h = record h {
    sock_fd = fd;
    addr = record (h.addr) { sin_family = net.af_inet; sin_addr = take 4 h.address };
  }

  -- close (this->sockFd); this->sockFd = -1; unlock both
  abbrev pub refuse : Server → Socket → W → Server × W
  refuse s h w =
      let (_, w') = os.close h.sock_fd w in
      (record s { sock = unlock_both (record h { sock_fd = minus_one }) }, w')

  -- From bind on.
  unfoldable pub bind_and_listen : Server → Socket → W → ℕ × Server × W
  bind_and_listen s h w =
      let (bound, w1) = net.bind h.sock_fd h.addr (net.set_reuse_address h.sock_fd w) in
      let (listens, w2) = net.listen h.sock_fd s.max_client w1 in
      let (s3, w3) = refuse s h w1 in
      let (s4, w4) = refuse s h w2 in
      if is_zero bound
      then (if is_zero listens then (0, record s { sock = unlock_both h }, w2) else (4, s4, w4))
      else (3, s3, w3)

  -- 0: listening; 1: no descriptor; 3: not bound; 4: not listening. The copy of the address reads four
  -- bytes, however many there are.
  unfoldable pub server_init : Server → W → Outcome (ℕ × Server × W)
  server_init s w = do
    h ← lock_both s.sock
    let (fd, w1) = net.socket w
    if is_non_positive fd
        then done (1, record s { sock = unlock_both (record h { sock_fd = fd }) }, w1)
        else if ltb (length h.address) 4
        then out_of_bounds
        else done (bind_and_listen s (with_address fd h) w1)
