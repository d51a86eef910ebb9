-- ===== src/Tests/Connecting.antt =====
-- The client on a system where every call succeeds but those that the run is about.
use synap_tcp.Base.{◌≡◌, true, none, some, [], ◌∷◌, ℤ, pos, false, out_of_bounds}
use synap_tcp.Socket.Config.{default_socket}
use synap_tcp.Net.{Net}
use synap_tcp.Socket.Close.{minus_one}
use synap_tcp.Socket.Address.{is_valid_ip_vector}
use synap_tcp.Socket.Overloads.{c_string}
use synap_tcp.Client.{Client, uninitialized}
use synap_tcp.Tests.Tape.{Tape, tape_of}

-- `connects` is what `connect` returns, `handshake` what SSL_connect returns.
abbrev pub net : ℤ → ℤ → Net Tape
net connects handshake = record {
  socket = λ w. (pos 4, w);
  set_receive_timeout = λ fd t w. w;
  get_flags = λ fd w. (pos 0, w);
  set_flags = λ fd f w. (pos 0, w);
  nonblocking = λ f. f;
  connect = λ fd a w. (connects, w);
  in_progress = λ w. true;
  set_reuse_address = λ fd w. w;
  bind = λ fd a w. (pos 0, w);
  listen = λ fd n w. (pos 0, w);
  select_write = λ fd t w. (pos 0, record { tv_sec = 0; tv_usec = 0 }, w);
  so_error = λ fd w. (some (pos 0), w);
  host_address = λ a w. (none, w);
  ssl_new = λ w. (some 1, w);
  ssl_set_fd = λ c fd w. (pos 1, w);
  ssl_connect = λ c w. (handshake, w);
  ssl_accept = λ c w. (pos 1, w);
  af_inet = 2;
}

abbrev client : Client
client = record {
  sock = default_socket (λ n. n);
  status = uninitialized;
  ssl_warper = some (record { ctx = some 1 });
}

abbrev ssl_client : Client
ssl_client = record client { sock = record (client.sock) { use_ssl = true } }

abbrev after_timeout : Client
after_timeout = record client {
  sock = record (client.sock) {
    sock_fd = minus_one;
    tv_timeout = record { tv_sec = 0; tv_usec = 0 };
    addr = record (client.sock.addr) { sin_family = 2; sin_addr = 127 ∷ 0 ∷ 0 ∷ 1 ∷ [] };
  };
}

abbrev pub start : Tape
start = tape_of []

abbrev Overrun : Type 0
Overrun =
    (false ≡ false)
    × (is_valid_ip_vector client.sock.address ≡ false)
    × (c_string client.sock.address ≡ out_of_bounds)
