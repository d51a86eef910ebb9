-- ===== src/Client/Init.antt =====
-- What `init` of class TCPClient leaves behind, code by code.
use synap_tcp.Base.{ℕ, ◌≡◌, ◌≢◌, ◌⊎◌, true, false, none, ℤ, is_non_positive}
use synap_tcp.Socket.{Socket, IsFree}
use synap_tcp.Socket.Os.{Os}
use synap_tcp.Socket.Close.{minus_one}
use synap_tcp.Net.{Net}
use synap_tcp.Client.{Client, uninitialized, connected}

-- What the caller finds, by the code. After a failed SSL handshake the code is 0 as well: the
-- status is connected, and there is no connection and no descriptor.
pub record InitEnd (c c' : Client) (ret : ℕ) : Type 0 where
  pub free : IsFree c'.sock
  pub success : ret ≡ 0 → c'.status ≡ connected
  pub plain : ret ≡ 0 → c'.sock.use_ssl ≡ false → is_non_positive c'.sock.sock_fd ≡ false
  pub secure :
      ret ≡ 0
      → c'.sock.use_ssl ≡ true
      → c'.sock.ssl_conn ≢ none
      → is_non_positive c'.sock.sock_fd ≡ false
  pub no_handshake :
      ret ≡ 0 → c'.sock.use_ssl ≡ true → c'.sock.ssl_conn ≡ none → c'.sock.sock_fd ≡ minus_one
  pub failure :
      ret ≢ 0
      → ((c'.status ≡ uninitialized) × (c'.sock.sock_fd ≡ minus_one) × ((ret ≡ 8) ⊎ (ret ≡ 9)))
        ⊎ ((c'.status ≡ c.status)
            × (((ret ≡ 2) × (is_non_positive c'.sock.sock_fd ≡ true))
                ⊎ ((ret ≡ 3) × (is_non_positive c'.sock.sock_fd ≡ false))))

module _ {W : Type 0} (os : Os W) (net : Net W) where
  -- A run ends by closing the descriptor `fd`, or with code 0 and the descriptor open.
  abbrev pub IsClosedOrOpen : ℤ → ℕ × Client × W → Type 0
  IsClosedOrOpen fd r =
      ((v : W) × (r.2 ≡ (os.close fd v).1)) ⊎ ((r.1.sock.sock_fd ≡ fd) × (r.0 ≡ 0))

  -- The descriptor `fd` that the method has opened: where the object has none left, or the host is
  -- not found, the last call is the close of `fd`.
  abbrev pub IsClosedOnFailure : ℤ → ℕ → Client → W → Type 0
  IsClosedOnFailure fd ret c' w' =
      ret ≢ 2 → (c'.sock.sock_fd ≡ minus_one) ⊎ (ret ≡ 3) → (v : W) × (w' ≡ (os.close fd v).1)
