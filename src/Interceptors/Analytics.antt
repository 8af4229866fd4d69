-- ===== src/Interceptors/Analytics.antt =====
-- plugins/interceptors/analytics/analytics.go: the interceptor that reports each request.
pub mod Transparent
mod Tests
use Prim.Native.String.{◌++◌}
use inspiring_vacations_agen.Common.{
  ℕ, Bool, true, false, not, ◌||◌, Option, none, some, List, [], ◌∷◌, String, ◌==◌, if◌then◌else◌,
  chars, of_chars, split_chars, first_part,
}
use inspiring_vacations_agen.Http
use inspiring_vacations_agen.Http.{Header}
use inspiring_vacations_agen.Middleware.Batch.{Call, write_header, write, set_header}

pub record Analytics : Type 0 where
  pub tracking_id : String
  pub enabled : Bool
  pub endpoint_url : String

-- A body gives its bytes, and then ends or fails.
pub record Body : Type 0 where
  pub content : String
  pub fails : Bool

-- The parts of a request that are read. The cookie is "_ga".
pub record Incoming : Type 0 where
  pub path : String
  pub method : String
  pub user_agent : String
  pub remote_addr : String
  pub header : Header
  pub cookie : Option String
  pub body : Option Body

-- `strings.Split(s, sep)[0]`
abbrev pub first_of : ℕ → String → String
first_of sep s = of_chars (first_part (split_chars sep (chars s)))

-- `getIPAddress`
unfoldable pub get_ip_address : Incoming → String
unfolding Http.get split_chars
get_ip_address r =
    let forwarded = Http.get r.header "X-Forwarded-For" in
    let real = Http.get r.header "X-Real-Ip" in
    if not (forwarded == "")
    then first_of b',' forwarded
    else if not (real == "")
    then first_of b',' real
    else first_of b':' r.remote_addr

-- `getClientID`
unfoldable pub get_client_id : Incoming → String
unfolding get_ip_address
get_client_id r = elim r.cookie [ some value ↦ value | none ↦ get_ip_address r ++ r.user_agent ]

-- `responseWriter`, with what it passed on to the writer that it wraps.
pub record ResponseWriter : Type 0 where
  pub status_code : ℕ
  pub body : String
  pub passed : List Call

-- The calls of the handler, the latest first in `passed`.
unfoldable pub receive : ResponseWriter → Call → ResponseWriter
receive rw (write_header code) = record rw {
  status_code = code;
  passed = write_header code ∷ rw.passed;
}
receive rw (write b) = record rw { body = rw.body ++ b; passed = write b ∷ rw.passed }
receive rw (set_header key values) = record rw { passed = set_header key values ∷ rw.passed }

unfoldable pub receive_all : ResponseWriter → List Call → ResponseWriter
unfolding receive
receive_all rw [] = rw
receive_all rw (c ∷ cs) = receive_all (receive rw c) cs

-- `eventData`, but for the time that the request took.
pub record EventData : Type 0 where
  pub client_id : String
  pub path : String
  pub method : String
  pub status_code : ℕ
  pub user_agent : String
  pub ip_address : String

-- What the writer got, the first call first, and the event that is sent, if any.
pub record Served : Type 0 where
  pub calls : List Call
  pub event : Option EventData

abbrev pub reversed : List Call → List Call → List Call
reversed [] done = done
reversed (c ∷ cs) done = reversed cs (c ∷ done)

-- The body that the next handler reads: what was read of it, which then ends.
abbrev pub restored : Option Body → Option Body
restored none = none
restored (some b) = some (record { content = b.content; fails = false })

-- The function that `Handler` returns.
unfoldable pub handler : Analytics → (Incoming → List Call) → Incoming → Served
unfolding receive_all get_client_id get_ip_address
handler a next r =
    if not a.enabled || a.tracking_id == ""
    then record { calls = next r; event = none }
    else (let request = record r { body = restored r.body } in
        let wrapped =
          receive_all (record { status_code = 200; body = ""; passed = [] }) (next request) in
        record {
          calls = reversed wrapped.passed [];
          event = some (record {
            client_id = get_client_id request;
            path = r.path;
            method = r.method;
            status_code = wrapped.status_code;
            user_agent = r.user_agent;
            ip_address = get_ip_address request;
          });
        })

-- The URL of `sendToGA`, with the default of `Handler`.
unfoldable pub collect_url : Analytics → String
collect_url a =
    let endpoint : String =
      if a.endpoint_url == ""
      then "https://www.google-analytics.com/mp/collect"
      else a.endpoint_url in
    endpoint ++ ("?measurement_id=" ++ (a.tracking_id ++ "&api_secret=YOUR_API_SECRET"))
