-- ===== src/Tests/Configuring.antt =====
-- The setters, the constructor and the addresses.
use synap_tcp.Base.{
  ℕ, ◌+◌, ◌*◌, ◌/◌, ◌%◌, ◌^◌, ◌≤◌, ◌<◌, ◌≡◌, ◌↔◌, negsuc, refl, true, false, List, [], ◌∷◌, pos,
  done, blocked, Returns, arith, length,
}
use synap_tcp.Socket.{Socket, TimeVal, IsFree}
use synap_tcp.Socket.Settings.{
  set_timeout, set_timeout_ms, split_ms, set_keep_alive_ms, get_keep_alive_ms, is_socket_timeout,
  timeout_in_ms, set_port, get_port,
}
use synap_tcp.Socket.Settings.Clock.{micros}
use synap_tcp.Socket.Settings.Laws.{
  set_timeout-set_timeout_ms, get_port-set_port, get_keep_alive_ms-set_keep_alive_ms,
  is_socket_timeout_bounds,
}
use synap_tcp.Socket.Config.{
  Setting, address_string, address_bytes, port, timeout_ms, keep_alive, use_ssl, verify_mode,
  apply_all, default_socket, IsConfigured, apply_all-IsConfigured,
}
use synap_tcp.Socket.Address.{
  is_valid_ip_text, is_valid_ip_vector, set_address_text, get_address, print_bytes,
}
use synap_tcp.Socket.Address.Octets.{
  octets, AllBytes, set_address_text_lem, get_address-set_address_text,
}
use synap_tcp.Socket.Address.Parse.{set_address_text-get_address}

-- A byte order that swaps the two bytes of a port.
abbrev swap_bytes : ℕ → ℕ
swap_bytes n = n % 256 * 256 + n / 256 % 256

swap_twice : (n : ℕ) → n < 2 ^ 16 → swap_bytes (swap_bytes n) ≡ n
swap_twice n h = omega arith

swap_lt : (n : ℕ) → n < 2 ^ 16 → swap_bytes n < 2 ^ 16
swap_lt n h = omega arith

abbrev socket : Socket
socket = default_socket swap_bytes

socket-IsFree : IsFree socket
socket-IsFree = record { mtx_free = refl; wmtx_free = refl }

get_port-set_port_example :
    (0 < 8080
      → 8080 < 2 ^ 16
      → (s' : Socket) × (set_port swap_bytes (pos 8080) socket ≡ done (true, s'))
        × (get_port swap_bytes s' ≡ 8080)
        × IsFree s')
    × (set_port swap_bytes (pos 0) socket ≡ done (false, socket))
    × (2 ^ 16 ≤ 8080 → set_port swap_bytes (pos 8080) socket ≡ done (false, socket))
    × ((n : ℕ) → set_port swap_bytes (negsuc n) socket ≡ done (false, socket))
get_port-set_port_example =
    get_port-set_port swap_bytes swap_bytes 8080 socket swap_twice swap_lt socket-IsFree

socket-IsConfigured : IsConfigured socket
socket-IsConfigured = record {
  free = socket-IsFree;
  usec = omega arith;
  keep = omega arith;
  short_port = omega arith;
  verify = λ e. e;
}

abbrev garbage : Socket
garbage = record socket { sock_fd = pos 77; use_ssl = true; data_buf = 1 ∷ []; mtx = true }

abbrev calls : List Setting
calls =
    verify_mode true
    ∷ use_ssl true
    ∷ verify_mode true
    ∷ timeout_ms (pos 2750)
    ∷ port (pos 70000)
    ∷ keep_alive (pos 100000)
    ∷ address_string (49 ∷ 46 ∷ 49 ∷ 46 ∷ 49 ∷ 46 ∷ 49 ∷ [])
    ∷ address_bytes 10 0 0 1
    ∷ []

apply_all-IsConfigured_example : Returns IsConfigured (apply_all swap_bytes calls socket)
apply_all-IsConfigured_example = apply_all-IsConfigured swap_bytes calls socket socket-IsConfigured

set_timeout-set_timeout_ms_example :
    (set_timeout (pos 2) (pos 750) socket ≡ set_timeout_ms (pos 2750) socket)
    × (micros (split_ms 2750) ≡ 2750000)
    × ((split_ms 2750).tv_usec < 1000000)
set_timeout-set_timeout_ms_example =
    set_timeout-set_timeout_ms 2 750 socket socket-IsFree (omega arith)

get_keep_alive_ms-set_keep_alive_ms_example :
    (s' : Socket) × (set_keep_alive_ms (pos 65536) socket ≡ done (true, s'))
    × ((get_keep_alive_ms s' ≡ 65536) ↔ (65536 < 2 ^ 16))
get_keep_alive_ms-set_keep_alive_ms_example =
    get_keep_alive_ms-set_keep_alive_ms 65536 socket socket-IsFree

timeout_small : timeout_in_ms socket < 2 ^ 31
unfolding timeout_in_ms
timeout_small = omega arith

abbrev at_1 : TimeVal
at_1 = record { tv_sec = 1; tv_usec = 900000 }

abbrev at_3 : TimeVal
at_3 = record { tv_sec = 3; tv_usec = 400500 }

is_socket_timeout_bounds_example :
    (is_socket_timeout at_3 at_1 socket ≡ true
      → micros at_1 + timeout_in_ms socket * 1000 < micros at_3)
    × (is_socket_timeout at_3 at_1 socket ≡ false
        → micros at_3 < micros at_1 + (timeout_in_ms socket + 1) * 1000)
is_socket_timeout_bounds_example =
    is_socket_timeout_bounds at_3 at_1 socket (omega arith) (omega arith) (omega arith)
      (omega arith) timeout_small

-- "10.2.200" and "10.2.200.7"
abbrev three_parts : List ℕ
three_parts = 49 ∷ 48 ∷ 46 ∷ 50 ∷ 46 ∷ 50 ∷ 48 ∷ 48 ∷ []

set_address_text_lem_example :
    (is_valid_ip_text three_parts ≡ true
      → (set_address_text three_parts socket
          ≡ done (true, record socket { address = octets three_parts 0 }))
        × AllBytes (octets three_parts 0)
        × (length (octets three_parts 0) ≤ 4)
        × (length (octets three_parts 0) ≡ 4 → is_valid_ip_vector (octets three_parts 0) ≡ true))
    × (is_valid_ip_text three_parts ≡ false
        → set_address_text three_parts socket ≡ done (false, socket))
set_address_text_lem_example = set_address_text_lem three_parts socket socket-IsFree

get_address-set_address_text_example :
    (s' : Socket) × (set_address_text three_parts socket ≡ done (true, s'))
    × (length (octets three_parts 0) < 4 → get_address s' ≡ blocked)
    × (length (octets three_parts 0) ≡ 4
        → get_address s' ≡ done (print_bytes (octets three_parts 0), s'))
unfolding is_valid_ip_text
get_address-set_address_text_example =
    get_address-set_address_text three_parts socket socket-IsFree refl

set_address_text-get_address_example :
    (text : List ℕ) × (get_address socket ≡ done (text, socket))
    × (length text ≤ 15)
    × (set_address_text text socket ≡ done (true, record socket { address = 127 ∷ 0 ∷ 0 ∷ 1 ∷ [] }))
set_address_text-get_address_example =
    set_address_text-get_address 127 0 0 1 (omega arith) (omega arith) (omega arith) (omega arith)
      socket socket socket-IsFree socket-IsFree refl
