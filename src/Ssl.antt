-- ===== src/Ssl.antt =====
-- class SSLWarper (src/layer-ssl.cpp, include/layer-ssl.hpp): its context and its certificates. The calls of
-- OpenSSL are a parameter. What it does for a connection is in Client.antt.
pub mod Balance
use synap_tcp.Base.{
  ℕ, ◌+◌, ◌-◌, ◌<◌, ◌≡◌, Bool, true, false, not, ◌&&◌, Option, none, some, List, [], ◌∷◌, ℤ,
  is_non_positive, ltb, if◌then◌else◌, length,
}

-- Objects of OpenSSL are numbers; `none` is a null pointer. `new_ctx` is SSL_CTX_new, `new_bio`
-- BIO_new_mem_buf on a whole text, `read_cert` and `read_key` PEM_read_bio_X509 and
-- PEM_read_bio_PrivateKey, `use_cert` and `use_key` SSL_CTX_use_certificate and
-- SSL_CTX_use_PrivateKey.
pub record Openssl (W : Type 0) : Type 0 where
  pub load_error_strings : W → W
  pub add_algorithms : W → W
  pub evp_cleanup : W → W
  pub server_method : W → ℕ
  pub client_method : W → ℕ
  pub new_ctx : ℕ → W → Option ℕ × W
  pub free_ctx : ℕ → W → W
  pub new_bio : List ℕ → W → ℕ × W
  pub free_bio : ℕ → W → W
  pub read_cert : ℕ → W → Option ℕ × W
  pub use_cert : Option ℕ → ℕ → W → ℤ × W
  pub free_cert : ℕ → W → W
  pub read_key : ℕ → W → Option ℕ × W
  pub use_key : Option ℕ → ℕ → W → ℤ × W
  pub free_key : ℕ → W → W

pub record SslWarper : Type 0 where
  pub ctx : Option ℕ

pub data ContextType : Type 0 where
  ctx_type_server : ContextType
  ctx_type_client : ContextType

-- What a call comes to that may end the program.
pub data Ending (A : Type 0) : Type 0 where
  returns : A → Ending A
  exits : Ending A

infixl 5 ◌then_do◌
abbrev pub ◌then_do◌ : {A B : Type 0} → Ending A → (A → Ending B) → Ending B
returns a then_do f = f a
exits then_do f = exits

module _ {W : Type 0} (ssl : Openssl W) where
  unfoldable pub init_library : W → SslWarper × W
  init_library w = (record { ctx = none }, ssl.add_algorithms (ssl.load_error_strings w))

  abbrev pub cleanup : W → W
  cleanup w = ssl.evp_cleanup w

  abbrev or_exit : Option ℕ × W → Ending (ℕ × W)
  or_exit (none, w) = exits
  or_exit (some c, w) = returns (c, w)

  unfoldable pub create_server_context : W → Ending (ℕ × W)
  create_server_context w = or_exit (ssl.new_ctx (ssl.server_method w) w)

  unfoldable pub create_client_context : W → Ending (ℕ × W)
  create_client_context w = or_exit (ssl.new_ctx (ssl.client_method w) w)

  -- What was read is put into the context, or the program ends.
  abbrev used : (Option ℕ → ℕ → W → ℤ × W) → Option ℕ → Option ℕ × W → Ending (ℕ × W)
  used put ctx (none, w) = exits
  used put ctx (some x, w) =
      let (ret, w') = put ctx x w in if is_non_positive ret then exits else returns (x, w')

  unfoldable pub load_certificate : List ℕ → SslWarper → W → Ending W
  load_certificate cert s w =
      let (bio, w1) = ssl.new_bio cert w in
      used ssl.use_cert s.ctx (ssl.read_cert bio w1) then_do λ r.
      returns (ssl.free_cert r.0 (ssl.free_bio bio r.1))

  unfoldable pub load_key : List ℕ → SslWarper → W → Ending W
  load_key key s w =
      let (bio, w1) = ssl.new_bio key w in
      used ssl.use_key s.ctx (ssl.read_key bio w1) then_do λ r.
      returns (ssl.free_key r.0 (ssl.free_bio bio r.1))

  unfoldable pub load_certificates : List ℕ → List ℕ → SslWarper → W → Ending W
  unfolding load_certificate load_key
  load_certificates cert key s w = load_certificate cert s w then_do λ w1. load_key key s w1

  -- The constructor.
  unfoldable pub ssl_warper_new : ContextType → List ℕ → List ℕ → W → Ending (SslWarper × W)
  unfolding init_library create_server_context create_client_context load_certificates
  ssl_warper_new ctx_type_server cert key w =
      let (s, w1) = init_library w in
      create_server_context w1 then_do λ r.
      let s1 : SslWarper = record s { ctx = some r.0 } in
      if ltb 0 (length cert) && ltb 0 (length key)
      then (load_certificates cert key s1 r.1 then_do λ w2. returns (s1, w2))
      else returns (s1, r.1)
  ssl_warper_new ctx_type_client cert key w =
      let (s, w1) = init_library w in
      create_client_context w1 then_do λ r. returns (record s { ctx = some r.0 }, r.1)

  -- The destructor.
  unfoldable pub ssl_warper_delete : SslWarper → W → W
  ssl_warper_delete s w = elim s.ctx [ none ↦ cleanup w | some c ↦ cleanup (ssl.free_ctx c w) ]

  abbrev pub delete_warper : Option SslWarper → W → W
  delete_warper none w = w
  delete_warper (some s) w = ssl_warper_delete s w

  abbrev pub get_context : SslWarper → Option ℕ
  get_context s = s.ctx
