-- ===== src/Server/Tests.antt =====
-- Runs of a server, and of the choice of suites.
use inspiring_vacations_agen.Common.{
  ℕ, ◌≡◌, refl, ◌↔◌, ◌⊎◌, inl, Bool, true, false, Option, none, some, [], ◌∷◌, String, Elem,
  string_eq, if◌then◌else◌, ◌==◌, arith, ap, sym, ◌∙◌,
}
use inspiring_vacations_agen.Common.Dict
use inspiring_vacations_agen.Common.Int.{pos}
use inspiring_vacations_agen.Http.{Request}
use inspiring_vacations_agen.Middleware.AllowedHosts.{checked_host}
use inspiring_vacations_agen.Middleware.AllowedHosts.Accepts.{Matches}
use inspiring_vacations_agen.Middleware.Batch.{Net}
use inspiring_vacations_agen.Server.{
  ServerConfig, get_allowed_hosts, Handler, routed, Server, Registry, new_server,
  wrap_with_interceptors, chain, listen_and_serve, listen_error, server_closed,
}
use inspiring_vacations_agen.Server.Tls.{blacklist_ciphers, disable, keep, default_ciphers}
use inspiring_vacations_agen.Server.Ciphers.{Disables, blacklist_ciphers_iff}
use inspiring_vacations_agen.Server.Pipeline.{IsHealth, IsBatch, PassOn, handler-routed}

abbrev net : Net
net = record {
  Body = String;
  Json = String;
  Req = String;
  marshal = λ b. some b;
  unmarshal = λ s. some s;
  new_request = λ method url body. some url;
  add_header = λ _ _ r. r;
  add_query = λ _ _ r. r;
}

-- One interceptor, which hands a request on; a plugin of another name is not found.
abbrev registry : Registry net ℕ String
registry = ("httplog", λ conf. some (λ next. next)) ∷ []

value_or : {A : Type 0} → Option A → A → A
value_or none a = a
value_or (some b) a = b

registry-PassOn : PassOn net ℕ String registry
unfolding Dict.lookup value_or
registry-PassOn name creator found conf mw made next r = found_at ("httplog" == name) found
  where
    forwarding : String → Option (Handler net ℕ → Handler net ℕ)
    forwarding c = some (λ n. n)

    found_at :
        (b : Bool) → (if b then some forwarding else none) ≡ some creator → mw next r ≡ next r
    found_at false e = absurd (ground arith)
    found_at true e =
        let first : forwarding ≡ creator = ap (λ o. value_or o forwarding) e in
        let second : some (λ n. n) ≡ some mw = ap (λ f. f conf) first ∙ made in
        sym (ap (λ (o : Option (Handler net ℕ → Handler net ℕ)). value_or o (λ n. n) next r) second)

abbrev conf : ServerConfig String
conf = record {
  allowed_hosts = "example.com" ∷ [];
  cert_file = "a.crt";
  key_file = "a.key";
  disabled_ciphers = "TLS_ECDHE_RSA_WITH_AES_128_GCM_SHA256" ∷ "unknown" ∷ [];
  health_check_path = "/health";
  host = "127.0.0.1";
  read_timeout = pos 5000000000;
  write_timeout = pos 10000000000;
  max_concurrency = pos 10;
  operations_limit = pos 500;
  interceptors = ("httplog", "{}") ∷ ("other", "{}") ∷ [];
}

abbrev request : Request
request = record {
  method = "GET";
  path = "/v1/config";
  host = "example.com:8080";
  header = [];
  form = [];
}

abbrev server : Server net ℕ String
server = record {
  addr = "127.0.0.1:8080";
  handler =
      wrap_with_interceptors net ℕ registry conf.interceptors
        (chain net ℕ (λ _. none) conf (λ q. routed 7));
  tls_config = some (record {
    certificate = "a.crt";
    cipher_suites = 0xc030 ∷ 0xc02b ∷ 0xc02c ∷ [];
    min_version = 0x303;
    curve_preferences = 23 ∷ 29 ∷ 24 ∷ [];
    prefer_server_cipher_suites = true;
  });
}

made :
    new_server net ℕ
      (λ _. none)
      registry
      (λ cert key. inl cert)
      "api"
      "8080"
      (some (λ q. routed 7))
      conf
    ≡ inl server
unfolding new_server disable keep
made = refl

handler-routed_example : (server.handler request ≡ routed 7) ↔ (
    (¬ IsHealth "/health" request)
    × (Elem {A = String} "." (get_allowed_hosts conf)
        ⊎ Matches (get_allowed_hosts conf) (checked_host request))
    × (¬ IsBatch request))
handler-routed_example =
    handler-routed net (λ _. none) registry (λ cert key. inl cert) "api" "8080" (λ q. 7) conf server
      registry-PassOn made request

blacklist_ciphers_iff_example :
    Elem 0xc02f (blacklist_ciphers ("TLS_ECDHE_RSA_WITH_AES_128_GCM_SHA256" ∷ []) default_ciphers)
    ↔ (Elem 0xc02f default_ciphers
        × (¬ Disables ("TLS_ECDHE_RSA_WITH_AES_128_GCM_SHA256" ∷ []) 0xc02f))
blacklist_ciphers_iff_example =
    blacklist_ciphers_iff ("TLS_ECDHE_RSA_WITH_AES_128_GCM_SHA256" ∷ []) default_ciphers 0xc02f

closes_without_error : listen_and_serve net ℕ server_closed (listen_error "in use") server ≡ none
unfolding listen_and_serve
closes_without_error = refl
