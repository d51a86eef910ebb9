-- ===== src/Socket/Config.antt =====
-- The constructors of class Socket (src/socket.cpp), and the setters called one after another.
use synap_tcp.Base.{
  ℕ, ◌%◌, ◌^◌, ◌<◌, ◌≡◌, refl, Bool, true, false, Option, none, List, [], ◌∷◌, ℤ, pos, negsuc,
  Outcome, done, ◌>>=◌, Returns, Returns-bind, arith,
}
use synap_tcp.Socket.{Socket, IsFree}
use synap_tcp.Socket.Settings.{
  set_port, set_timeout_ms, set_timeout, set_keep_alive_ms, set_is_use_ssl, set_ssl_verify_mode,
  set_ssl_pointer, set_socket_fd,
}
use synap_tcp.Socket.Address.{
  set_address_bytes, set_address_vector, set_address_text, set_address_string, c_str,
}

-- "127.0.0.1"
abbrev pub localhost : List ℕ
localhost = 49 ∷ 50 ∷ 55 ∷ 46 ∷ 48 ∷ 46 ∷ 48 ∷ 46 ∷ 49 ∷ []

-- The static function __TCP.
pub set_defaults : (ℕ → ℕ) → Socket → Outcome Socket
set_defaults htons s = do
  (_, s1) ← set_port htons (pos 3000) s
  (_, s2) ← set_address_text localhost s1
  (_, s3) ← set_keep_alive_ms (pos 0) s2
  (_, s4) ← set_timeout (pos 1) (pos 500) s3
  (_, s5) ← set_is_use_ssl false s4
  (_, s6) ← set_ssl_verify_mode false s5
  done s6

-- The default constructor, on memory that holds anything.
unfoldable pub socket_new : (ℕ → ℕ) → Socket → Outcome Socket
unfolding set_defaults
socket_new htons raw = do
  s ← set_defaults htons (record raw {
    mtx = false;
    wmtx = false;
    len = 0;
    addr = record { sin_family = 0; sin_port = 0; sin_addr = 0 ∷ 0 ∷ 0 ∷ 0 ∷ [] };
  })
  done (record s {
    sock_fd = negsuc 0;
    ssl_conn_routine_ok_status = pos 0;
    ssl_conn = none;
    data_buf = [];
    remaining_data = [];
  })

-- Socket(const char *address, int port)
unfoldable pub socket_new_text : (ℕ → ℕ) → List ℕ → ℤ → Socket → Outcome Socket
unfolding socket_new
socket_new_text htons address port raw = do
  s ← socket_new htons raw
  (_, s') ← set_address_text address s
  (_, s'') ← set_port htons port s'
  done s''

-- Socket(const std::vector <unsigned char> address, int port)
unfoldable pub socket_new_vector : (ℕ → ℕ) → List ℕ → ℤ → Socket → Outcome Socket
unfolding socket_new
socket_new_vector htons address port raw = do
  s ← socket_new htons raw
  (_, s') ← set_address_vector address s
  (_, s'') ← set_port htons port s'
  done s''

-- Socket(const unsigned char *address, int port)
unfoldable pub socket_new_bytes : (ℕ → ℕ) → List ℕ → ℤ → Socket → Outcome Socket
unfolding socket_new
socket_new_bytes htons address port raw = do
  s ← socket_new htons raw
  (_, s') ← set_address_bytes address s
  (_, s'') ← set_port htons port s'
  done s''

-- The constructors without a port: for a text, a vector and four bytes.
unfoldable pub socket_at_text : (ℕ → ℕ) → List ℕ → Socket → Outcome Socket
unfolding socket_new
socket_at_text htons address raw = do
  s ← socket_new htons raw
  (_, s') ← set_address_text address s
  done s'

unfoldable pub socket_at_vector : (ℕ → ℕ) → List ℕ → Socket → Outcome Socket
unfolding socket_new
socket_at_vector htons address raw = do
  s ← socket_new htons raw
  (_, s') ← set_address_vector address s
  done s'

unfoldable pub socket_at_bytes : (ℕ → ℕ) → List ℕ → Socket → Outcome Socket
unfolding socket_new
socket_at_bytes htons address raw = do
  s ← socket_new htons raw
  (_, s') ← set_address_bytes address s
  done s'

-- Socket(const std::string address), without a port and with one
unfoldable pub socket_at_string : (ℕ → ℕ) → List ℕ → Socket → Outcome Socket
unfolding socket_at_text
socket_at_string htons address raw = socket_at_text htons (c_str address) raw

unfoldable pub socket_new_string : (ℕ → ℕ) → List ℕ → ℤ → Socket → Outcome Socket
unfolding socket_new_text
socket_new_string htons address port raw = socket_new_text htons (c_str address) port raw

-- What the comment of the constructor promises.
abbrev pub default_socket : (ℕ → ℕ) → Socket
default_socket htons = record {
  address = 127 ∷ 0 ∷ 0 ∷ 1 ∷ [];
  addr = record { sin_family = 0; sin_port = htons 3000 % 2 ^ 16; sin_addr = 0 ∷ 0 ∷ 0 ∷ 0 ∷ [] };
  sock_fd = negsuc 0;
  keep_alive_ms = 0;
  len = 0;
  tv_timeout = record { tv_sec = 1; tv_usec = 500000 };
  use_ssl = false;
  ssl_verify_mode = false;
  ssl_conn_routine_ok_status = pos 0;
  ssl_conn = none;
  mtx = false;
  wmtx = false;
  data_buf = [];
  remaining_data = [];
}

-- Whatever the memory held, the default constructor makes the socket that is documented: port 3000,
-- address 127.0.0.1, a timeout of 1500 ms, no keep-alive, no SSL, no descriptor, nothing received.
pub socket_new-default :
    (htons : ℕ → ℕ) (raw : Socket) → socket_new htons raw ≡ done (default_socket htons)
unfolding socket_new set_port set_address_text set_keep_alive_ms set_timeout set_is_use_ssl
    set_ssl_verify_mode
socket_new-default htons raw = refl

-- A call of a setter. An address of bytes is a pointer to four of them.
pub data Setting : Type 0 where
  address : List ℕ → Setting
  address_bytes : ℕ → ℕ → ℕ → ℕ → Setting
  address_string : List ℕ → Setting
  address_text : List ℕ → Setting
  port : ℤ → Setting
  timeout_ms : ℤ → Setting
  timeout : ℤ → ℤ → Setting
  keep_alive : ℤ → Setting
  use_ssl : Bool → Setting
  verify_mode : Bool → Setting
  ssl_pointer : Option ℕ → Setting
  fd : ℤ → Setting

pub apply : (ℕ → ℕ) → Setting → Socket → Outcome (Bool × Socket)
apply htons (address a) = set_address_vector a
apply htons (address_text a) = set_address_text a
apply htons (address_bytes a b c d) = set_address_bytes (a ∷ b ∷ c ∷ d ∷ [])
apply htons (address_string a) = set_address_string a
apply htons (port p) = set_port htons p
apply htons (timeout_ms t) = set_timeout_ms t
apply htons (timeout s t) = set_timeout s t
apply htons (keep_alive k) = set_keep_alive_ms k
apply htons (use_ssl b) = set_is_use_ssl b
apply htons (verify_mode b) = set_ssl_verify_mode b
apply htons (ssl_pointer c) = set_ssl_pointer c
apply htons (fd f) = set_socket_fd f

pub apply_all : (ℕ → ℕ) → List Setting → Socket → Outcome Socket
apply_all htons [] s = done s
apply_all htons (c ∷ cs) s = do (_, s') ← apply htons c s; apply_all htons cs s'

pub record IsConfigured (s : Socket) : Type 0 where
  pub free : IsFree s
  pub usec : s.tv_timeout.tv_usec < 1000000
  pub keep : s.keep_alive_ms < 2 ^ 16
  pub short_port : s.addr.sin_port < 2 ^ 16
  pub verify : s.ssl_verify_mode ≡ true → s.use_ssl ≡ true

abbrev Keeps : Outcome (Bool × Socket) → Type 0
Keeps = Returns (λ r. IsConfigured r.1)

apply-IsConfigured :
    (htons : ℕ → ℕ) (c : Setting) (s : Socket) → IsConfigured s → Keeps (apply htons c s)
unfolding apply set_port set_address_text set_address_bytes set_address_string set_address_vector
    set_keep_alive_ms set_timeout set_timeout_ms set_is_use_ssl set_ssl_verify_mode set_ssl_pointer
    set_socket_fd
apply-IsConfigured htons (address a) s v = ground arith
apply-IsConfigured htons (address_text a) s v = ground arith
apply-IsConfigured htons (address_bytes a b c d) s v = ground arith
apply-IsConfigured htons (address_string a) s v = ground arith
apply-IsConfigured htons (port p) s v = ground arith
apply-IsConfigured htons (timeout_ms t) s v = ground arith
apply-IsConfigured htons (timeout sec t) s v = ground arith
apply-IsConfigured htons (keep_alive k) s v = ground arith
apply-IsConfigured htons (use_ssl b) s v = ground arith
apply-IsConfigured htons (verify_mode b) s v = ground arith
apply-IsConfigured htons (ssl_pointer c) s v = ground arith
apply-IsConfigured htons (fd f) s v = ground arith

-- Any sequence of setter calls, each overload of setAddress among them, accepted or refused, on a configured socket returns with both
-- mutexes free, the microseconds of the timeout below a second, the port and the interval within
-- sixteen bits, and certificates verified only if SSL is in use.
pub apply_all-IsConfigured :
    (htons : ℕ → ℕ) (cs : List Setting) (s : Socket)
    → IsConfigured s
    → Returns IsConfigured (apply_all htons cs s)
unfolding apply_all
apply_all-IsConfigured htons [] s v = v
apply_all-IsConfigured htons (c ∷ cs) s v =
    Returns-bind (λ r. IsConfigured r.1) IsConfigured (apply htons c s)
      (λ r. apply_all htons cs r.1) (apply-IsConfigured htons c s v)
      (λ r h. apply_all-IsConfigured htons cs r.1 h)
