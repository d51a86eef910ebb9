-- ===== src/Client/Derived.antt =====
-- What class TCPClient (src/tcp-client.cpp) does through its base class SynapSock: its operators on a format and
-- its destructor, which is followed by those of SynapSock and Socket.
use synap_tcp.Base.{ℕ, ◌≡◌, refl, sym, subst, Option, none, Outcome, done, ◌>>=◌, arith}
use synap_tcp.Socket.{IsFree}
use synap_tcp.Socket.Os.{Os}
use synap_tcp.Socket.Close.{close_socket}
use synap_tcp.Socket.Close.Twice.{IsClosed, close_socket_lem}
use synap_tcp.Frames.{Frames}
use synap_tcp.SynapSock.{SynapSock, assign_format, append_format, destroy_format}
use synap_tcp.Ssl.{Openssl, SslWarper, delete_warper}

module _ {W : Type 0} (fr : Frames W) (os : Os W) (ssl : Openssl W) where
  -- operator=
  unfoldable pub client_assign : ℕ → SynapSock → W → SynapSock × W
  client_assign obj y w = assign_format fr obj y w

  -- operator+= and operator+
  unfoldable pub client_append : ℕ → SynapSock → W → Outcome (SynapSock × W)
  client_append obj y w = append_format fr obj y w

  unfoldable pub client_delete : Option SslWarper → SynapSock → W → Outcome (SynapSock × W)
  client_delete warper y w = do
    let (y1, w2) = destroy_format fr y (delete_warper ssl warper w)
    (s, w3) ← close_socket os y1.sock w2
    done (record y1 { sock = s }, w3)

  destroy_format_lem :
      (y : SynapSock) (w : W)
      → ((destroy_format fr y w).0.sock ≡ y.sock) × ((destroy_format fr y w).0.frame_format ≡ none)
  unfolding destroy_format
  destroy_format_lem y w = ground arith

  -- The destructor of a client whose mutexes are free returns: the format is gone, and the socket is closed.
  pub client_delete_lem :
      (warper : Option SslWarper) (y : SynapSock) (w : W)
      → IsFree y.sock
      → (y' : SynapSock) × (w' : W) × (client_delete warper y w ≡ done (y', w'))
        × (y'.frame_format ≡ none)
        × IsClosed os y.sock y'.sock
  unfolding client_delete
  client_delete_lem warper y w free =
      let w1 : W = delete_warper ssl warper w in
      let (same, gone) = destroy_format_lem y w1 in
      let y1 : SynapSock = (destroy_format fr y w1).0 in
      let (s', w', run, closed, again, calls_made) =
        close_socket_lem os y1.sock (destroy_format fr y w1).1 (subst IsFree (sym same) free) in
      (record y1 { sock = s' }, w', rw run refl, gone, subst (λ s. IsClosed os s s') same closed)
