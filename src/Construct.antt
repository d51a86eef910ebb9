-- ===== src/Construct.antt =====
-- The constructors of SynapSock (src/synapsock.cpp), TCPClient (src/tcp-client.cpp) and TCPServer
-- (src/tcp-server.cpp), which hand their arguments on to those of class Socket (src/socket.cpp).
use synap_tcp.Base.{
  ◌∷◌, ℕ, ◌≡◌, refl, sym, subst, Bool, true, false, none, List, [], ℤ, negsuc, Outcome, done, ◌>>=◌,
  Returns, Returns-bind, arith,
}
use synap_tcp.Socket.{Socket}
use synap_tcp.Socket.Address.{set_address_bytes, set_address_vector, set_address_text, c_str}
use synap_tcp.Socket.Settings.{set_port}
use synap_tcp.Socket.Config.{
  socket_at_string, socket_new_string, socket_new, socket_new_bytes, socket_new_vector,
  socket_new_text, socket_at_bytes, socket_at_vector, socket_at_text, socket_new-default,
  IsConfigured,
}
use synap_tcp.SynapSock.{SynapSock, synap_sock_new}
use synap_tcp.Client.{Client, uninitialized, client_new}
use synap_tcp.Server.Clients.{Clients, clients_new}
use synap_tcp.Server.{Server, server_new}

-- The arguments of a constructor: none, or four bytes, a vector, a text of char * or a std::string, each with
-- or without a port.
pub data Arguments : Type 0 where
  defaults : Arguments
  at_bytes : ℕ → ℕ → ℕ → ℕ → Arguments
  at_bytes_port : ℕ → ℕ → ℕ → ℕ → ℤ → Arguments
  at_vector : List ℕ → Arguments
  at_vector_port : List ℕ → ℤ → Arguments
  at_text : List ℕ → Arguments
  at_text_port : List ℕ → ℤ → Arguments
  at_string : List ℕ → Arguments
  at_string_port : List ℕ → ℤ → Arguments

pub socket_of : (ℕ → ℕ) → Arguments → Socket → Outcome Socket
socket_of htons defaults raw = socket_new htons raw
socket_of htons (at_bytes a b c d) raw = socket_at_bytes htons (a ∷ b ∷ c ∷ d ∷ []) raw
socket_of htons (at_bytes_port a b c d p) raw = socket_new_bytes htons (a ∷ b ∷ c ∷ d ∷ []) p raw
socket_of htons (at_vector a) raw = socket_at_vector htons a raw
socket_of htons (at_vector_port a p) raw = socket_new_vector htons a p raw
socket_of htons (at_text a) raw = socket_at_text htons a raw
socket_of htons (at_text_port a p) raw = socket_new_text htons a p raw
socket_of htons (at_string a) raw = socket_at_string htons a raw
socket_of htons (at_string_port a p) raw = socket_new_string htons a p raw

pub synap_sock_of : (ℕ → ℕ) → Arguments → Socket → Outcome SynapSock
unfolding socket_of
synap_sock_of htons args raw = do s ← socket_of htons args raw; done (synap_sock_new s)

pub client_of : (ℕ → ℕ) → Arguments → Socket → Outcome Client
unfolding synap_sock_of
client_of htons args raw = do y ← synap_sock_of htons args raw; done (client_new y.sock)

pub server_of : (ℕ → ℕ) → Arguments → Server → Clients → Outcome (Server × Clients)
unfolding synap_sock_of
server_of htons args raw clients = do
  y ← synap_sock_of htons args raw.sock
  done (server_new (record raw { sock = y.sock }), clients_new clients)

-- The socket is configured, and has no descriptor, no connection and no data yet.
pub record IsFresh (s : Socket) : Type 0 where
  pub configured : IsConfigured s
  pub no_fd : s.sock_fd ≡ negsuc 0
  pub no_conn : s.ssl_conn ≡ none
  pub no_ssl : s.use_ssl ≡ false
  pub no_data : s.data_buf ≡ []
  pub no_rest : s.remaining_data ≡ []

abbrev Keeps : (Socket → Outcome (Bool × Socket)) → Type 0
Keeps m = (s : Socket) → IsFresh s → Returns (λ r. IsFresh r.1) (m s)

set_port-IsFresh : (htons : ℕ → ℕ) (p : ℤ) → Keeps (set_port htons p)
unfolding set_port
set_port-IsFresh htons p s fresh = let c = fresh.configured in ground arith

set_address_bytes-IsFresh : (a b c d : ℕ) → Keeps (set_address_bytes (a ∷ b ∷ c ∷ d ∷ []))
unfolding set_address_bytes
set_address_bytes-IsFresh a b c d s fresh = let v = fresh.configured in ground arith

set_address_vector-IsFresh : (a : List ℕ) → Keeps (set_address_vector a)
unfolding set_address_vector
set_address_vector-IsFresh a s fresh = let c = fresh.configured in ground arith

set_address_text-IsFresh : (a : List ℕ) → Keeps (set_address_text a)
unfolding set_address_text
set_address_text-IsFresh a s fresh = let c = fresh.configured in ground arith

socket_new-IsFresh : (htons : ℕ → ℕ) (raw : Socket) → Returns IsFresh (socket_new htons raw)
socket_new-IsFresh htons raw = subst (Returns IsFresh) (sym (socket_new-default htons raw)) record {
  configured = record {
    free = record { mtx_free = refl; wmtx_free = refl };
    usec = omega arith;
    keep = omega arith;
    short_port = omega arith;
    verify = λ e. cc;
  };
  no_fd = refl;
  no_conn = refl;
  no_ssl = refl;
  no_data = refl;
  no_rest = refl;
}

-- A constructor of Socket: the default one, and then some setters.
then_set :
    (m : Outcome Socket) (f : Socket → Outcome (Bool × Socket))
    → Returns IsFresh m
    → Keeps f
    → Returns IsFresh (m >>= λ s. f s >>= λ r. done r.1)
then_set m f fresh keeps =
    Returns-bind IsFresh IsFresh m (λ s. f s >>= λ r. done r.1) fresh
      (λ s h. Returns-bind (λ r. IsFresh r.1) IsFresh (f s) (λ r. done r.1) (keeps s h) (λ r k. k))

then_set_both :
    (m : Outcome Socket) (f g : Socket → Outcome (Bool × Socket))
    → Returns IsFresh m
    → Keeps f
    → Keeps g
    → Returns IsFresh (m >>= λ s. f s >>= λ r. g r.1 >>= λ q. done q.1)
then_set_both m f g fresh keeps keeps_too =
    Returns-bind IsFresh IsFresh m (λ s. f s >>= λ r. g r.1 >>= λ q. done q.1) fresh
      (λ s h.
        Returns-bind (λ r. IsFresh r.1) IsFresh (f s) (λ r. g r.1 >>= λ q. done q.1) (keeps s h)
          (λ r k.
            Returns-bind (λ q. IsFresh q.1) IsFresh (g r.1) (λ q. done q.1) (keeps_too r.1 k)
              (λ q l. l)))

socket_of-IsFresh :
    (htons : ℕ → ℕ) (args : Arguments) (raw : Socket) → Returns IsFresh (socket_of htons args raw)
unfolding socket_of socket_at_bytes socket_new_bytes socket_at_vector socket_new_vector
    socket_at_text socket_new_text socket_at_string socket_new_string
socket_of-IsFresh htons defaults raw = socket_new-IsFresh htons raw
socket_of-IsFresh htons (at_bytes a b c d) raw =
    then_set (socket_new htons raw) (set_address_bytes (a ∷ b ∷ c ∷ d ∷ []))
      (socket_new-IsFresh htons raw) (set_address_bytes-IsFresh a b c d)
socket_of-IsFresh htons (at_vector a) raw =
    then_set (socket_new htons raw) (set_address_vector a) (socket_new-IsFresh htons raw)
      (set_address_vector-IsFresh a)
socket_of-IsFresh htons (at_text a) raw =
    then_set (socket_new htons raw) (set_address_text a) (socket_new-IsFresh htons raw)
      (set_address_text-IsFresh a)
socket_of-IsFresh htons (at_bytes_port a b c d p) raw =
    then_set_both (socket_new htons raw) (set_address_bytes (a ∷ b ∷ c ∷ d ∷ [])) (set_port htons p)
      (socket_new-IsFresh htons raw) (set_address_bytes-IsFresh a b c d) (set_port-IsFresh htons p)
socket_of-IsFresh htons (at_vector_port a p) raw =
    then_set_both (socket_new htons raw) (set_address_vector a) (set_port htons p)
      (socket_new-IsFresh htons raw) (set_address_vector-IsFresh a) (set_port-IsFresh htons p)
socket_of-IsFresh htons (at_text_port a p) raw =
    then_set_both (socket_new htons raw) (set_address_text a) (set_port htons p)
      (socket_new-IsFresh htons raw) (set_address_text-IsFresh a) (set_port-IsFresh htons p)
socket_of-IsFresh htons (at_string a) raw =
    then_set (socket_new htons raw) (set_address_text (c_str a)) (socket_new-IsFresh htons raw)
      (set_address_text-IsFresh (c_str a))
socket_of-IsFresh htons (at_string_port a p) raw =
    then_set_both (socket_new htons raw) (set_address_text (c_str a)) (set_port htons p)
      (socket_new-IsFresh htons raw) (set_address_text-IsFresh (c_str a)) (set_port-IsFresh htons p)

abbrev pub IsFreshSynapSock : SynapSock → Type 0
IsFreshSynapSock y = IsFresh y.sock × (y.is_format_valid ≡ true) × (y.frame_format ≡ none)

synap_sock_of-IsFresh :
    (htons : ℕ → ℕ) (args : Arguments) (raw : Socket)
    → Returns IsFreshSynapSock (synap_sock_of htons args raw)
unfolding synap_sock_of
synap_sock_of-IsFresh htons args raw =
    Returns-bind IsFresh IsFreshSynapSock (socket_of htons args raw) (λ s. done (synap_sock_new s))
      (socket_of-IsFresh htons args raw) (λ s h. (h, refl, refl))

-- A client with the status uninitialized.
pub record IsFreshClient (c : Client) : Type 0 where
  pub fresh : IsFresh c.sock
  pub status : c.status ≡ uninitialized
  pub no_warper : c.ssl_warper ≡ none

-- A server without clients, with room for ten.
pub record IsFreshServer (r : Server × Clients) : Type 0 where
  pub fresh : IsFresh r.0.sock
  pub room : r.0.max_client ≡ 10
  pub no_client : r.1.active ≡ 0
  pub no_list : r.1.head ≡ 0
  pub no_warper : r.0.ssl_warper ≡ none

-- Every constructor returns, whatever the memory held and whether its address and port are valid or not: the
-- SynapSock has no format, the client the status uninitialized, the server no clients and room for
-- ten, and the socket of each is configured, without a descriptor, a connection, SSL or data.
pub constructors-IsFresh :
    (htons : ℕ → ℕ) (args : Arguments) (raw : Socket) (memory : Server) (clients : Clients)
    → Returns IsFreshSynapSock (synap_sock_of htons args raw)
      × Returns IsFreshClient (client_of htons args raw)
      × Returns IsFreshServer (server_of htons args memory clients)
unfolding client_of server_of client_new server_new clients_new
constructors-IsFresh htons args raw memory clients = (
  synap_sock_of-IsFresh htons args raw,
  Returns-bind IsFreshSynapSock IsFreshClient (synap_sock_of htons args raw)
      (λ y. done (client_new y.sock)) (synap_sock_of-IsFresh htons args raw)
      (λ y h. record { fresh = h.0; status = refl; no_warper = refl }),
  Returns-bind IsFreshSynapSock IsFreshServer (synap_sock_of htons args memory.sock)
      (λ y. done (server_new (record memory { sock = y.sock }), clients_new clients))
      (synap_sock_of-IsFresh htons args memory.sock)
      (λ y h. record {
        fresh = h.0;
        room = refl;
        no_client = refl;
        no_list = refl;
        no_warper = refl;
      }),
)
