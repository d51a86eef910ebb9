-- ===== src/Socket/Send.antt =====
-- `sendData` of class Socket (src/socket.cpp).
pub mod Whole
use synap_tcp.Base.{
  ℕ, zero, suc, ◌+◌, ◌-◌, ◌≡◌, Bool, true, false, Option, none, some, List, is_non_positive,
  Outcome, done, blocked, out_of_fuel, ◌>>=◌, ltb, if◌then◌else◌, length, drop,
}
use synap_tcp.Socket.{Socket, lock_wmtx, unlock_wmtx}
use synap_tcp.Socket.Os.{Os}

module _ {W : Type 0} (os : Os W) where
  -- One write of the bytes that are left; `none` if SSL is in use and has no connection.
  unfoldable pub write_chunk : List ℕ → Socket → W → Option (ℕ × W)
  write_chunk rest s w =
      if s.use_ssl
      then (elim s.ssl_conn [ none ↦ none | some c ↦ some (os.ssl_write c rest w) ])
      else some (os.write s.sock_fd rest w)

  -- while (total < sz), with `wmtx` held.
  unfoldable pub send_loop : ℕ → List ℕ → ℕ → Socket → W → Outcome (ℕ × Socket × W)
  send_loop zero buffer total s w = out_of_fuel
  send_loop (suc fuel) buffer total s w =
      let next : Outcome (ℕ × Socket × W) = elim (write_chunk (drop total buffer) s w) [
        | none ↦ done (1, unlock_wmtx s, w)
        | some (bytes, w') ↦
            let again = send_loop fuel buffer (total + bytes) s w' in
            if ltb 0 bytes then again else done (2, unlock_wmtx s, w')
      ] in
      if ltb total (length buffer) then next else done (0, unlock_wmtx s, w)

  -- 0: sent; 1: the port is not open; 2: the write failed.
  unfoldable pub send_data : ℕ → List ℕ → Socket → W → Outcome (ℕ × Socket × W)
  send_data fuel buffer s w = do
    h ← lock_wmtx s
    if is_non_positive h.sock_fd then done (1, unlock_wmtx h, w) else send_loop fuel buffer 0 h w
