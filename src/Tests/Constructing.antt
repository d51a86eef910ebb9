-- ===== src/Tests/Constructing.antt =====
-- The constructors on a text and a port, and those of the SSL wrapper on a library that counts what it made.
use synap_tcp.Base.{ℕ, ◌+◌, ◌-◌, ◌≡◌, refl, ◌⊎◌, false, none, some, [], ◌∷◌, pos, Returns}
use synap_tcp.Socket.Config.{default_socket, localhost}
use synap_tcp.Server.{Server}
use synap_tcp.Server.Clients.{Clients}
use synap_tcp.Construct.{
  at_text_port, synap_sock_of, client_of, server_of, IsFreshSynapSock, IsFreshClient, IsFreshServer,
  constructors-IsFresh,
}
use synap_tcp.Ssl.{Openssl, ctx_type_server, ssl_warper_new, exits}
use synap_tcp.Ssl.Balance.{
  IsCounted, Kind, context, memory_text, certificate, private_key, one_of, Returned,
  ssl_warper_new_lem,
}

abbrev memory : Server
memory = record {
  sock = default_socket (λ n. n);
  reception_handler_as_thread = false;
  max_client = 3;
  con_req_callback_function = none;
  con_req_callback_param = none;
  reception_callback_function = none;
  reception_callback_param = none;
  ssl_warper = none;
}

abbrev old_clients : Clients
old_clients = record { node = λ n. none; head = 2; active = 1 }

constructors-IsFresh_example :
    Returns IsFreshSynapSock
      (synap_sock_of (λ n. n) (at_text_port localhost (pos 8080)) memory.sock)
    × Returns IsFreshClient (client_of (λ n. n) (at_text_port localhost (pos 8080)) memory.sock)
    × Returns IsFreshServer
        (server_of (λ n. n) (at_text_port localhost (pos 8080)) memory old_clients)
constructors-IsFresh_example =
    constructors-IsFresh (λ n. n) (at_text_port localhost (pos 8080)) memory.sock memory old_clients

-- The state is the references that the program holds.
abbrev Held : Type 0
Held = Kind → ℕ → ℕ

abbrev take_one : Kind → ℕ → Held → Held
take_one kind handle held = λ k x. held k x + one_of kind handle k x

abbrev give_one : Kind → ℕ → Held → Held
give_one kind handle held = λ k x. held k x - one_of kind handle k x

abbrev counter : Openssl Held
counter = record {
  load_error_strings = λ w. w;
  add_algorithms = λ w. w;
  evp_cleanup = λ w. w;
  server_method = λ w. 1;
  client_method = λ w. 2;
  new_ctx = λ m w. (some 5, take_one context 5 w);
  free_ctx = λ c w. give_one context c w;
  new_bio = λ text w. (6, take_one memory_text 6 w);
  free_bio = λ b w. give_one memory_text b w;
  read_cert = λ b w. (some 7, take_one certificate 7 w);
  use_cert = λ c x w. (pos 1, w);
  free_cert = λ x w. give_one certificate x w;
  read_key = λ b w. (some 8, take_one private_key 8 w);
  use_key = λ c x w. (pos 1, w);
  free_key = λ x w. give_one private_key x w;
}

abbrev counted : IsCounted counter
counted = record {
  refs = λ w. w;
  load_error_strings_refs = λ w k x. refl;
  add_algorithms_refs = λ w k x. refl;
  evp_cleanup_refs = λ w k x. refl;
  new_ctx_refs = λ m w k x. refl;
  free_ctx_refs = λ c w k x. refl;
  new_bio_refs = λ text w k x. refl;
  free_bio_refs = λ b w k x. refl;
  read_cert_refs = λ b w k x. refl;
  use_cert_refs = λ c h w k x. refl;
  free_cert_refs = λ h w k x. refl;
  read_key_refs = λ b w k x. refl;
  use_key_refs = λ c h w k x. refl;
  free_key_refs = λ h w k x. refl;
}

abbrev nothing_held : Held
nothing_held = λ k x. 0

ssl_warper_new_lem_example :
    (ssl_warper_new counter ctx_type_server (1 ∷ []) (2 ∷ []) nothing_held ≡ exits)
    ⊎ Returned counter counted ctx_type_server (1 ∷ []) (2 ∷ []) nothing_held
ssl_warper_new_lem_example =
    ssl_warper_new_lem counter counted ctx_type_server (1 ∷ []) (2 ∷ []) nothing_held
