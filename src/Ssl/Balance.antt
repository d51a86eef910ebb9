-- ===== src/Ssl/Balance.antt =====
-- What the constructor and the destructor of class SSLWarper (src/layer-ssl.cpp) leave in OpenSSL.
use synap_tcp.Base.{
  ℕ, ◌+◌, ◌-◌, ◌≡◌, refl, ◌∙◌, ◌⊎◌, inl, inr, Bool, true, false, ◌==◌, if◌then◌else◌, ◌&&◌, Option,
  none, some, List, ℤ, is_non_positive, ltb, length, arith, Bool-cases,
}
use synap_tcp.Ssl.{
  Openssl, SslWarper, ContextType, ctx_type_server, ctx_type_client, Ending, returns, exits,
  init_library, or_exit, used, create_server_context, create_client_context, load_certificate,
  load_key, load_certificates, ssl_warper_new, ssl_warper_delete,
}

-- What the program holds references to.
pub data Kind : Type 0 where
  context memory_text certificate private_key : Kind

abbrev same_kind : Kind → Kind → Bool
same_kind context context = true
same_kind memory_text memory_text = true
same_kind certificate certificate = true
same_kind private_key private_key = true
same_kind _ _ = false

-- One reference to one object, and none to any other.
abbrev pub one_of : Kind → ℕ → Kind → ℕ → ℕ
one_of kind handle k x = if same_kind kind k && handle == x then 1 else 0

abbrev pub made : Kind → Option ℕ → Kind → ℕ → ℕ
made kind none k x = 0
made kind (some c) k x = one_of kind c k x

-- `refs` counts the references that the program itself holds to each object: what is made or read
-- gives it one, a free gives back one to that object and no other, and no other call changes them.
-- A context that uses a certificate or a key holds references of its own, which do not count.
pub record IsCounted {W : Type 0} (ssl : Openssl W) : Type 0 where
  pub refs : W → Kind → ℕ → ℕ
  pub load_error_strings_refs :
      (w : W) (k : Kind) (x : ℕ) → refs (ssl.load_error_strings w) k x ≡ refs w k x
  pub add_algorithms_refs :
      (w : W) (k : Kind) (x : ℕ) → refs (ssl.add_algorithms w) k x ≡ refs w k x
  pub evp_cleanup_refs : (w : W) (k : Kind) (x : ℕ) → refs (ssl.evp_cleanup w) k x ≡ refs w k x
  pub new_ctx_refs :
      (m : ℕ) (w : W) (k : Kind) (x : ℕ)
      → refs (ssl.new_ctx m w).1 k x ≡ refs w k x + made context (ssl.new_ctx m w).0 k x
  pub free_ctx_refs :
      (c : ℕ) (w : W) (k : Kind) (x : ℕ)
      → refs (ssl.free_ctx c w) k x ≡ refs w k x - one_of context c k x
  pub new_bio_refs :
      (text : List ℕ) (w : W) (k : Kind) (x : ℕ)
      → refs (ssl.new_bio text w).1 k x ≡ refs w k x + one_of memory_text (ssl.new_bio text w).0 k x
  pub free_bio_refs :
      (b : ℕ) (w : W) (k : Kind) (x : ℕ)
      → refs (ssl.free_bio b w) k x ≡ refs w k x - one_of memory_text b k x
  pub read_cert_refs :
      (b : ℕ) (w : W) (k : Kind) (x : ℕ)
      → refs (ssl.read_cert b w).1 k x ≡ refs w k x + made certificate (ssl.read_cert b w).0 k x
  pub use_cert_refs :
      (c : Option ℕ) (h : ℕ) (w : W) (k : Kind) (x : ℕ)
      → refs (ssl.use_cert c h w).1 k x ≡ refs w k x
  pub free_cert_refs :
      (h : ℕ) (w : W) (k : Kind) (x : ℕ)
      → refs (ssl.free_cert h w) k x ≡ refs w k x - one_of certificate h k x
  pub read_key_refs :
      (b : ℕ) (w : W) (k : Kind) (x : ℕ)
      → refs (ssl.read_key b w).1 k x ≡ refs w k x + made private_key (ssl.read_key b w).0 k x
  pub use_key_refs :
      (c : Option ℕ) (h : ℕ) (w : W) (k : Kind) (x : ℕ)
      → refs (ssl.use_key c h w).1 k x ≡ refs w k x
  pub free_key_refs :
      (h : ℕ) (w : W) (k : Kind) (x : ℕ)
      → refs (ssl.free_key h w) k x ≡ refs w k x - one_of private_key h k x

module _ {W : Type 0} (ssl : Openssl W) (count : IsCounted ssl) where
  open count use {refs}

  or_exit_refs :
      (n : Kind → ℕ → ℕ) (r : Option ℕ × W)
      → ((k : Kind) (x : ℕ) → refs r.1 k x ≡ n k x + made context r.0 k x)
      → (or_exit ssl r ≡ exits)
        ⊎ ((c : ℕ) × (w' : W) × (or_exit ssl r ≡ returns (c, w'))
            × ((k : Kind) (x : ℕ) → refs w' k x ≡ n k x + one_of context c k x))
  or_exit_refs n (none, w) e = inl refl
  or_exit_refs n (some c, w) e = inr (c, w, refl, e)

  used_refs :
      (put : Option ℕ → ℕ → W → ℤ × W) (kind : Kind) (ctx : Option ℕ) (n : Kind → ℕ → ℕ)
      (r : Option ℕ × W)
      → ((c : Option ℕ) (h : ℕ) (w : W) (k : Kind) (x : ℕ) → refs (put c h w).1 k x ≡ refs w k x)
      → ((k : Kind) (x : ℕ) → refs r.1 k x ≡ n k x + made kind r.0 k x)
      → (used ssl put ctx r ≡ exits)
        ⊎ ((h : ℕ) × (w' : W) × (used ssl put ctx r ≡ returns (h, w'))
            × ((k : Kind) (x : ℕ) → refs w' k x ≡ n k x + one_of kind h k x))
  used_refs put kind ctx n (none, w) keeps e = inl refl
  used_refs put kind ctx n (some h, w) keeps e =
      elim (Bool-cases (is_non_positive (put ctx h w).0)) [
        | inl bad ↦ inl (rw bad refl)
        | inr good ↦ inr (h, (put ctx h w).1, rw good refl, λ k x. keeps ctx h w k x ∙ e k x)
      ]

  abbrev Balanced : Ending W → (Kind → ℕ → ℕ) → Type 0
  Balanced o n =
      (o ≡ exits) ⊎ ((w' : W) × (o ≡ returns w') × ((k : Kind) (x : ℕ) → refs w' k x ≡ n k x))

  load_certificate_refs :
      (text : List ℕ) (s : SslWarper) (w : W) → Balanced (load_certificate ssl text s w) (refs w)
  unfolding load_certificate
  load_certificate_refs text s w =
      let (bio, w1) = ssl.new_bio text w in
      elim (used_refs ssl.use_cert certificate s.ctx (refs w1) (ssl.read_cert bio w1)
        count.use_cert_refs (count.read_cert_refs bio w1)) [
          | inl ends ↦ inl (rw ends refl)
          | inr (h, w', run, e) ↦ inr (
            ssl.free_cert h (ssl.free_bio bio w'),
            rw run refl,
            λ k x. omega (
              arith,
              e k x,
              count.new_bio_refs text w k x,
              count.free_bio_refs bio w' k x,
              count.free_cert_refs h (ssl.free_bio bio w') k x,
            ),
          )
        ]

  load_key_refs :
      (text : List ℕ) (s : SslWarper) (w : W) → Balanced (load_key ssl text s w) (refs w)
  unfolding load_key
  load_key_refs text s w =
      let (bio, w1) = ssl.new_bio text w in
      elim (used_refs ssl.use_key private_key s.ctx (refs w1) (ssl.read_key bio w1)
        count.use_key_refs (count.read_key_refs bio w1)) [
          | inl ends ↦ inl (rw ends refl)
          | inr (h, w', run, e) ↦ inr (
            ssl.free_key h (ssl.free_bio bio w'),
            rw run refl,
            λ k x. omega (
              arith,
              e k x,
              count.new_bio_refs text w k x,
              count.free_bio_refs bio w' k x,
              count.free_key_refs h (ssl.free_bio bio w') k x,
            ),
          )
        ]

  load_certificates_refs :
      (cert key : List ℕ) (s : SslWarper) (w : W)
      → Balanced (load_certificates ssl cert key s w) (refs w)
  unfolding load_certificates
  load_certificates_refs cert key s w = elim (load_certificate_refs cert s w) [
    | inl ends ↦ inl (rw ends refl)
    | inr (w1, run, e) ↦ elim (load_key_refs key s w1) [
      | inl ends ↦ inl (rw run ends)
      | inr (w2, run2, e2) ↦ inr (w2, rw run run2, λ k x. e2 k x ∙ e k x)
    ]
  ]

  delete_refs :
      (c : ℕ) (w : W) (k : Kind) (x : ℕ)
      → refs (ssl_warper_delete ssl (record { ctx = some c }) w) k x
        ≡ refs w k x - one_of context c k x
  unfolding ssl_warper_delete
  delete_refs c w k x = count.evp_cleanup_refs (ssl.free_ctx c w) k x ∙ count.free_ctx_refs c w k x

  abbrev pub Returned : ContextType → List ℕ → List ℕ → W → Type 0
  Returned type cert key w =
      (s : SslWarper) × (w' : W) × (c : ℕ) × (ssl_warper_new ssl type cert key w ≡ returns (s, w'))
      × (s.ctx ≡ some c)
      × ((k : Kind) (x : ℕ) → refs w' k x ≡ refs w k x + one_of context c k x)
      × ((k : Kind) (x : ℕ) → refs (ssl_warper_delete ssl s w') k x ≡ refs w k x)

  finish :
      (type : ContextType) (cert key : List ℕ) (w w' : W) (c : ℕ)
      → ssl_warper_new ssl type cert key w ≡ returns (record { ctx = some c }, w')
      → ((k : Kind) (x : ℕ)
          → refs w' k x
            ≡ refs (ssl.add_algorithms (ssl.load_error_strings w)) k x + one_of context c k x)
      → Returned type cert key w
  finish type cert key w w' c run e =
      let same : (k : Kind) (x : ℕ)
          → refs (ssl.add_algorithms (ssl.load_error_strings w)) k x ≡ refs w k x =
        λ k x.
          count.add_algorithms_refs (ssl.load_error_strings w) k x
          ∙ count.load_error_strings_refs w k x in
      (
        record { ctx = some c },
        w',
        c,
        run,
        refl,
        (λ k x. omega (arith, e k x, same k x)),
        λ k x. omega (arith, e k x, same k x, delete_refs c w' k x),
      )

  -- The constructor ends the program or returns with a context. The program then holds one reference to it
  -- more than before, and to every other object as many as before; after the destructor it holds as
  -- many references to each object as before the constructor.
  pub ssl_warper_new_lem :
      (type : ContextType) (cert key : List ℕ) (w : W)
      → (ssl_warper_new ssl type cert key w ≡ exits) ⊎ Returned type cert key w
  unfolding ssl_warper_new init_library create_server_context create_client_context
  ssl_warper_new_lem ctx_type_client cert key w =
      let w0 : W = ssl.add_algorithms (ssl.load_error_strings w) in
      elim (or_exit_refs (refs w0) (ssl.new_ctx (ssl.client_method w0) w0)
        (count.new_ctx_refs (ssl.client_method w0) w0)) [
          | inl ends ↦ inl (rw ends refl)
          | inr (c, w1, run, e) ↦ inr (finish ctx_type_client cert key w w1 c (rw run refl) e)
        ]
  ssl_warper_new_lem ctx_type_server cert key w =
      let w0 : W = ssl.add_algorithms (ssl.load_error_strings w) in
      elim (or_exit_refs (refs w0) (ssl.new_ctx (ssl.server_method w0) w0)
        (count.new_ctx_refs (ssl.server_method w0) w0)) [
          | inl ends ↦ inl (rw ends refl)
          | inr (c, w1, run, e) ↦ elim (Bool-cases (ltb 0 (length cert) && ltb 0 (length key))) [
            | inr bare ↦ inr (finish ctx_type_server cert key w w1 c (rw (run, bare) refl) e)
            | inl both ↦ elim (load_certificates_refs cert key (record { ctx = some c }) w1) [
              | inl ends ↦ inl (rw (run, both, ends) refl)
              | inr (w2, run2, e2) ↦ inr (
                  finish ctx_type_server cert key w w2 c (rw (run, both, run2) refl)
                    (λ k x. e2 k x ∙ e k x))
            ]
          ]
        ]
