-- ===== src/Server/Tls.antt =====
-- pkg/server/server.go: the suites of a TLS server.
use inspiring_vacations_agen.Common.{ℕ, Bool, none, some, List, [], ◌∷◌, String, string_eq, nat_eq}
use inspiring_vacations_agen.Common.Dict
use inspiring_vacations_agen.Common.Dict.{Dict}

-- `blacklistCiphers`, with the numbers that crypto/tls gives the suites.
abbrev pub default_ciphers_map : Dict String ℕ
default_ciphers_map =
    ("TLS_ECDHE_ECDSA_WITH_AES_256_GCM_SHA384", 0xc02c)
    ∷ ("TLS_ECDHE_RSA_WITH_AES_256_GCM_SHA384", 0xc030)
    ∷ ("TLS_ECDHE_ECDSA_WITH_AES_128_GCM_SHA256", 0xc02b)
    ∷ ("TLS_ECDHE_RSA_WITH_AES_128_GCM_SHA256", 0xc02f)
    ∷ []

abbrev pub default_ciphers : List ℕ
default_ciphers = 0xc02f ∷ 0xc030 ∷ 0xc02b ∷ 0xc02c ∷ []

-- The loop over the disabled names.
unfoldable pub disable : List String → Dict ℕ (Unit {0}) → Dict ℕ (Unit {0})
unfolding Dict.lookup Dict.insert
disable [] m = m
disable (name ∷ names) m = elim (Dict.lookup name default_ciphers_map) [
  | none ↦ disable names m
  | some v ↦ disable names (Dict.insert v tt m)
]

-- The loop over the default ciphers.
unfoldable pub keep : Dict ℕ (Unit {0}) → List ℕ → List ℕ
unfolding Dict.lookup
keep m [] = []
keep m (cipher ∷ ciphers) = elim (Dict.lookup cipher m) [
  | none ↦ cipher ∷ keep m ciphers
  | some _ ↦ keep m ciphers
]

unfoldable pub blacklist_ciphers : List String → List ℕ → List ℕ
unfolding disable keep
blacklist_ciphers blacklist ciphers = keep (disable blacklist []) ciphers

-- `tls.Config`: the certificate, the suites, and the lowest version and the curves by their
-- numbers in crypto/tls.
pub record TlsConfig (Cert : Type 0) : Type 0 where
  pub certificate : Cert
  pub cipher_suites : List ℕ
  pub min_version : ℕ
  pub curve_preferences : List ℕ
  pub prefer_server_cipher_suites : Bool
