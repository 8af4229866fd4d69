-- ===== src/Middleware/AllowedHosts/Tests.antt =====
-- Runs of the host check.
use inspiring_vacations_agen.Common.{◌≡◌, refl, ◌↔◌, ◌⊎◌, Elem, [], ◌∷◌, String}
use inspiring_vacations_agen.Http.{Request, forward, fail}
use inspiring_vacations_agen.Middleware.AllowedHosts.{serve, trim_dot, from_dot, checked_host}
use inspiring_vacations_agen.Middleware.AllowedHosts.Accepts.{Matches, serve_iff}

abbrev from_header : Request
from_header = record {
  method = "GET";
  path = "/v1/config";
  host = "other.org";
  header = ("Forwarded", "for=1.2.3.4; Host=\"a.b.example.com:80\"" ∷ []) ∷ [];
  form = [];
}

accepts_subdomain : serve (".example.com" ∷ []) from_header ≡ forward from_header
unfolding serve trim_dot from_dot
accepts_subdomain = refl

rejects_other : serve ("example.com" ∷ []) from_header ≡ fail 404 "invalid request host"
unfolding serve trim_dot from_dot
rejects_other = refl

serve_iff_example :
    ((serve (".example.com" ∷ []) from_header ≡ forward from_header) ↔ (
      Elem {A = String} "." (".example.com" ∷ [])
      ⊎ Matches (".example.com" ∷ []) (checked_host from_header)))
    × ((serve (".example.com" ∷ []) from_header ≡ forward from_header)
        ⊎ (serve (".example.com" ∷ []) from_header ≡ fail 404 "invalid request host"))
serve_iff_example = serve_iff (".example.com" ∷ []) from_header
