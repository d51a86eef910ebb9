-- ===== src/Socket/Settings.antt =====
-- The setters and getters of class Socket (src/socket.cpp), the constructor's defaults, `duplicate`
-- and `isSocketTimeout`. The byte order functions htons and ntohs are parameters.
pub mod Clock
pub mod Laws
use synap_tcp.Base.{
  ℕ, ◌+◌, ◌-◌, ◌*◌, ◌/◌, ◌%◌, ◌^◌, ◌≤◌, ◌<◌, ◌≡◌, refl, Bool, true, false, not, ◌||◌, Option, none,
  List, [], ◌∷◌, ℤ, pos, negsuc, pos_part, ◌+ℤ◌, scale, quot, sub_ℕ, ltb_ℤ, is_non_positive,
  is_negative, residue, Outcome, done, ◌>>=◌, arith, ltb, leb, if◌then◌else◌,
}
use synap_tcp.Socket.{Socket, TimeVal, SockAddr, lock_both, unlock_both, lock_mtx, unlock_mtx}

-- A setter that has checked its argument: both mutexes are held while it writes.
abbrev pub under_both : (Socket → Socket) → Socket → Outcome (Bool × Socket)
under_both write s = do held ← lock_both s; done (true, unlock_both (write held))

unfoldable pub set_port : (ℕ → ℕ) → ℤ → Socket → Outcome (Bool × Socket)
set_port htons port s =
    if is_non_positive port || ltb_ℤ (pos 65535) port
    then done (false, s)
    else under_both
        (λ h. record h { addr = record (h.addr) { sin_port = htons (pos_part port) % 2 ^ 16 } }) s

-- milliseconds split into seconds and microseconds
unfoldable pub split_ms : ℕ → TimeVal
split_ms ms =
    if ltb ms 1000
    then record { tv_sec = 0; tv_usec = ms * 1000 }
    else record { tv_sec = ms / 1000; tv_usec = ms % 1000 * 1000 }

unfoldable pub set_timeout_ms : ℤ → Socket → Outcome (Bool × Socket)
unfolding split_ms
set_timeout_ms milliseconds s =
    if is_negative milliseconds
    then done (false, s)
    else under_both (λ h. record h { tv_timeout = split_ms (pos_part milliseconds) }) s

unfoldable pub set_timeout : ℤ → ℤ → Socket → Outcome (Bool × Socket)
set_timeout seconds milliseconds s =
    if is_negative seconds || (is_negative milliseconds || ltb_ℤ (pos 999) milliseconds)
    then done (false, s)
    else under_both
        (λ h. record h {
          tv_timeout = record { tv_sec = pos_part seconds; tv_usec = pos_part milliseconds * 1000 };
        })
        s

-- The field is an unsigned short, so the int is cut to sixteen bits.
unfoldable pub set_keep_alive_ms : ℤ → Socket → Outcome (Bool × Socket)
set_keep_alive_ms keep_alive_ms s =
    if is_negative keep_alive_ms
    then done (false, s)
    else under_both (λ h. record h { keep_alive_ms = residue keep_alive_ms (2 ^ 16) }) s

unfoldable pub set_is_use_ssl : Bool → Socket → Outcome (Bool × Socket)
set_is_use_ssl use_ssl = under_both λ h. record h {
  ssl_verify_mode = if not h.use_ssl || not use_ssl then false else h.ssl_verify_mode;
  use_ssl = use_ssl;
}

unfoldable pub set_ssl_verify_mode : Bool → Socket → Outcome (Bool × Socket)
set_ssl_verify_mode ssl_verify_mode s = do
  h ← lock_both s
  if h.use_ssl
      then done (true, unlock_both (record h { ssl_verify_mode = ssl_verify_mode }))
      else done (false, unlock_both (record h { ssl_verify_mode = false }))

unfoldable pub set_ssl_pointer : Option ℕ → Socket → Outcome (Bool × Socket)
set_ssl_pointer ssl_conn = under_both λ h. record h { ssl_conn = ssl_conn }

unfoldable pub set_socket_fd : ℤ → Socket → Outcome (Bool × Socket)
set_socket_fd fd s =
    if is_non_positive fd || not (ltb_ℤ fd (pos 65535))
    then done (false, s)
    else under_both (λ h. record h { sock_fd = fd }) s

pub get_port : (ℕ → ℕ) → Socket → ℕ
get_port ntohs s = ntohs s.addr.sin_port

pub get_timeout : Socket → TimeVal
get_timeout s = s.tv_timeout

pub get_keep_alive_ms : Socket → ℕ
get_keep_alive_ms s = s.keep_alive_ms

pub get_is_use_ssl : Socket → Bool
get_is_use_ssl s = s.use_ssl

pub get_ssl_verify_mode : Socket → Outcome (Bool × Socket)
get_ssl_verify_mode s = do
  h ← lock_both s
  done ((if h.use_ssl then h.ssl_verify_mode else false), unlock_both h)

pub get_socket_fd : Socket → ℤ
get_socket_fd s = s.sock_fd

-- A long stored into an int: the value modulo 2^32, in the range from -2^31 up to 2^31.
pub to_int : ℤ → ℤ
to_int z = let r = residue z (2 ^ 32) in if ltb r (2 ^ 31) then pos r else negsuc (2 ^ 32 - 1 - r)

-- (end.sec - start.sec) * 1000 + (end.usec - start.usec) / 1000, as longs
pub diff_ms : TimeVal → TimeVal → ℤ
diff_ms end start =
    scale (sub_ℕ end.tv_sec start.tv_sec) 1000 +ℤ quot (sub_ℕ end.tv_usec start.tv_usec) 1000

unfoldable pub timeout_in_ms : Socket → ℕ
timeout_in_ms s = s.tv_timeout.tv_sec * 1000 + s.tv_timeout.tv_usec / 1000

pub is_socket_timeout : TimeVal → TimeVal → Socket → Bool
unfolding to_int diff_ms timeout_in_ms
is_socket_timeout ref last_activity s =
    ltb_ℤ (to_int (pos (timeout_in_ms s))) (to_int (diff_ms ref last_activity))

-- Every parameter of `this` goes to `obj`, another object.
pub duplicate : Socket → Socket → Outcome (Bool × Socket × Socket)
duplicate s obj = do
  h ← lock_both s
  o ← lock_both obj
  let copy = record o {
    address = h.address;
    sock_fd = h.sock_fd;
    keep_alive_ms = h.keep_alive_ms;
    len = h.len;
    tv_timeout = h.tv_timeout;
    addr = h.addr;
    use_ssl = h.use_ssl;
    ssl_verify_mode = h.ssl_verify_mode;
    ssl_conn_routine_ok_status = h.ssl_conn_routine_ok_status;
    ssl_conn = h.ssl_conn;
    data_buf = h.data_buf;
    remaining_data = h.remaining_data;
  }
  done (true, unlock_both h, unlock_both copy)
