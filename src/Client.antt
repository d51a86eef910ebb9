-- ===== src/Client.antt =====
-- class TCPClient (src/tcp-client.cpp, include/tcp-client.hpp) and what it uses of class SSLWarper
-- (src/layer-ssl.cpp). The framing part of its base class SynapSock is not touched here.
pub mod Init
pub mod Connect
pub mod Derived
use synap_tcp.Base.{
  ℕ, zero, suc, ◌+◌, ◌≡◌, Bool, true, false, not, ◌&&◌, ◌||◌, Option, none, some, List, [], take, ℤ,
  pos, negsuc, is_negative, is_non_positive, Outcome, done, out_of_fuel, ◌>>=◌, ltb, ◌==◌,
  if◌then◌else◌,
}
use synap_tcp.Socket.{Socket, TimeVal, SockAddr, unlock_both}
use synap_tcp.Socket.Address.{is_valid_ip_vector}
use synap_tcp.Socket.Os.{Os}
use synap_tcp.Socket.Close.{minus_one}
use synap_tcp.Net.{Net}
use synap_tcp.Socket.Overloads.{c_string}
use synap_tcp.Ssl.{Openssl, SslWarper, Ending, returns, ◌then_do◌, ctx_type_client, ssl_warper_new}

pub data ClientStatus : Type 0 where
  uninitialized initialized connected disconnected : ClientStatus

-- `ssl_warper` is the wrapper that `initializeSSL` has made.
pub record Client : Type 0 where
  pub sock : Socket
  pub status : ClientStatus
  pub ssl_warper : Option SslWarper

-- The constructors, after those of the base classes.
unfoldable pub client_new : Socket → Client
client_new sock = record { sock = sock; status = uninitialized; ssl_warper = none }

-- new SSLWarper(...): a failure of its constructor ends the program.
pub initialize_ssl : {W : Type 0} → Openssl W → Client → W → Ending (Bool × Client × W)
unfolding ssl_warper_new
initialize_ssl ssl c w = ssl_warper_new ssl ctx_type_client [] [] w then_do λ r.
    returns (true, record c { ssl_warper = some r.0 }, r.1)

abbrev pub has_warper : Option SslWarper → Bool
has_warper none = false
has_warper (some s) = true

abbrev pub has_timeout : TimeVal → Bool
has_timeout t = ltb 0 t.tv_sec || ltb 0 t.tv_usec

abbrev pub is_zero : ℤ → Bool
is_zero (pos zero) = true
is_zero (pos (suc n)) = false
is_zero (negsuc n) = false

abbrev pub is_one : ℤ → Bool
is_one (pos n) = n == 1
is_one (negsuc n) = false

-- status = CLIENT_CONNECTED; unlock both
abbrev pub connected_state : Client → Client
connected_state c = record c { sock = unlock_both (c.sock); status = connected }

abbrev pub with_conn : Client → Option ℕ → Client
with_conn c conn = record c { sock = record (c.sock) { ssl_conn = conn } }

module _ {W : Type 0} (os : Os W) (net : Net W) where
  -- SSLWarper::createSSL
  unfoldable pub create_ssl : ℤ → W → Option ℕ × W
  create_ssl fd w =
      let (ssl, w') = net.ssl_new w in
      elim ssl [
        | none ↦ (none, w')
        | some c ↦
            let (ok, w'') = net.ssl_set_fd c fd w' in
            if is_one ok then (some c, w'') else (none, os.ssl_free c w'')
      ]

  -- SSLWarper::connectSSL and SSLWarper::acceptSSL
  unfoldable pub connect_ssl : ℕ → W → Bool × W
  connect_ssl c w = let (r, w') = net.ssl_connect c w in (not (is_non_positive r), w')

  unfoldable pub accept_ssl : ℕ → W → Bool × W
  accept_ssl c w = let (r, w') = net.ssl_accept c w in (not (is_non_positive r), w')

  -- The result of the connection in progress: `connect`, then `select` on the timeout of the object.
  unfoldable pub await_connect : Socket → W → ℤ × Socket × W
  await_connect s w =
      let (r, w') = net.connect s.sock_fd s.addr w in
      let (r', left, w'') = net.select_write s.sock_fd s.tv_timeout w' in
      if is_negative r
      then (if net.in_progress w' then (r', record s { tv_timeout = left }, w'') else (r, s, w'))
      else (pos 1, s, w')

  -- After the flags are back: the pending error.
  unfoldable pub pending_error : Socket → W → Bool × Socket × W
  pending_error s w =
      let (err, w') = net.so_error s.sock_fd w in
      elim err [ none ↦ (false, s, w') | some e ↦ (is_zero e, s, w') ]

  unfoldable pub connect_timed : Socket → W → Bool × Socket × W
  unfolding await_connect pending_error
  connect_timed s w =
      let (flags, w1) = net.get_flags s.sock_fd w in
      let (set, w2) = net.set_flags s.sock_fd (net.nonblocking flags) w1 in
      let (retval, s', w3) = await_connect s w2 in
      let (reset, w4) = net.set_flags s'.sock_fd flags w3 in
      if is_negative flags
      then (false, s, w1)
      else if is_negative set
      then (false, s, w2)
      else if is_negative reset
      then (false, s', w4)
      else if is_non_positive retval
      then (false, s', w4)
      else pending_error s' w4

  -- while (connect(...) != 0) usleep(10000)
  unfoldable pub connect_loop : ℕ → Socket → W → Outcome (Bool × Socket × W)
  connect_loop zero s w = out_of_fuel
  connect_loop (suc fuel) s w =
      let (r, w') = net.connect s.sock_fd s.addr w in
      let again = connect_loop fuel s (os.usleep 10000 w') in
      if is_zero r then done (true, s, w') else again

  unfoldable pub connect_to_server : ℕ → Socket → W → Outcome (Bool × Socket × W)
  unfolding connect_timed
  connect_to_server fuel s w =
      if has_timeout s.tv_timeout then done (connect_timed s w) else connect_loop fuel s w

  -- close(sockFd); sockFd = -1; status = CLIENT_UNINITIALIZED; unlock both
  unfoldable pub give_up : Client → W → Client × W
  give_up c w =
      let (_, w') = os.close c.sock.sock_fd w in
      (
        record c {
          sock = unlock_both (record (c.sock) { sock_fd = minus_one });
          status = uninitialized;
        },
        w',
      )

  -- The part of `init` under `if (this->useSSL)`, and the lines after it. A failed handshake has no
  -- `return`: the method goes on as if it had succeeded.
  unfoldable pub init_ssl : Client → W → ℕ × Client × W
  unfolding give_up
  init_ssl c w =
      let (ssl, w1) = create_ssl c.sock.sock_fd w in
      let (no_warper, wa) = give_up c w in
      let (no_ssl, wb) = give_up (with_conn c none) w1 in
      let with_ssl : ℕ × Client × W = elim ssl [
        | none ↦ (9, no_ssl, wb)
        | some conn ↦
            let (ok, w2) = connect_ssl conn w1 in
            let (failed, wc) = give_up (with_conn c none) (os.ssl_free conn w2) in
            if ok
            then (0, connected_state (with_conn c (some conn)), w2)
            else (0, connected_state failed, wc)
      ] in
      if has_warper c.ssl_warper then with_ssl else (9, no_warper, wa)

  -- What follows the call of `connectToServer`.
  unfoldable pub after_connect : Client → Bool → Socket → W → ℕ × Client × W
  unfolding init_ssl give_up
  after_connect c ok s w =
      let c' = record c { sock = s; status = initialized } in
      let (failed, w') = give_up c' w in
      if not ok
      then (8, failed, w')
      else if s.use_ssl
      then init_ssl c' w
      else (0, connected_state c', w)

  -- From the address on.
  unfoldable pub init_connect : ℕ → Client → W → Outcome (ℕ × Client × W)
  unfolding connect_to_server after_connect
  init_connect fuel c w = do
    let timed = net.set_receive_timeout c.sock.sock_fd c.sock.tv_timeout w
    (ok, s, w') ← connect_to_server fuel c.sock (if has_timeout c.sock.tv_timeout then timed else w)
    done (after_connect c ok s w')

  abbrev pub opened : Client → ℤ → Client
  opened c fd = record c { sock = record (c.sock) { mtx = false; wmtx = false; sock_fd = fd } }

  abbrev pub at_host : Client → List ℕ → Client
  at_host c host = record c {
    sock = record (c.sock) {
      addr = record (c.sock.addr) { sin_family = net.af_inet; sin_addr = host };
    };
  }

  -- The name of a host is read from the address as a C string, which has no terminator of its own.
  -- 0: connected; 2: no descriptor; 3: no such host; 8: no connection; 9: no SSL. The method begins
  -- by unlocking both mutexes.
  unfoldable pub init : ℕ → Client → W → Outcome (ℕ × Client × W)
  unfolding init_connect c_string
  init fuel c w =
      let (fd, w1) = net.socket w in
      let c1 = opened c fd in
      let named : Outcome (ℕ × Client × W) = (do
        name ← c_string c.sock.address
        let (host, w2) = net.host_address name w1
        elim host [
          | some a ↦ init_connect fuel (at_host c1 a) w2
          | none ↦ let (_, w3) = os.close fd w2 in done (3, at_host c1 c.sock.addr.sin_addr, w3)
        ]) in
      if is_non_positive fd
      then done (2, c1, w1)
      else if is_valid_ip_vector c.sock.address
      then init_connect fuel (at_host c1 (take 4 c.sock.address)) w1
      else named
