-- ===== src/Interceptors/Analytics/Transparent.antt =====
-- What the interceptor leaves as it is.
use inspiring_vacations_agen.Common.{
  ℕ, ◌≡◌, refl, sym, ap, ◌∙◌, ◌⊎◌, inl, inr, false, not, ◌||◌, Option, none, some, List, [], ◌∷◌,
  ◌==◌, Bool-cases,
}
use inspiring_vacations_agen.Middleware.Batch.{Call, write_header, write, set_header}
use inspiring_vacations_agen.Interceptors.Analytics.{
  Analytics, Body, Incoming, ResponseWriter, receive, receive_all, EventData, reversed, restored,
  handler,
}

-- The status of a response: the last that was set, or 200.
abbrev pub status_of : ℕ → List Call → ℕ
status_of code [] = code
status_of code (write_header n ∷ cs) = status_of n cs
status_of code (write b ∷ cs) = status_of code cs
status_of code (set_header k vs ∷ cs) = status_of code cs

receive_all-calls :
    (rw : ResponseWriter) (cs : List Call)
    → (reversed (receive_all rw cs).passed [] ≡ reversed rw.passed cs)
      × ((receive_all rw cs).status_code ≡ status_of rw.status_code cs)
unfolding receive_all receive
receive_all-calls rw [] = (refl, refl)
receive_all-calls rw (write_header n ∷ cs) = receive_all-calls (receive rw (write_header n)) cs
receive_all-calls rw (write b ∷ cs) = receive_all-calls (receive rw (write b)) cs
receive_all-calls rw (set_header k vs ∷ cs) = receive_all-calls (receive rw (set_header k vs)) cs

-- The body of the request ends without an error, if there is one.
abbrev pub Readable : Option Body → Type 0
Readable none = Unit
Readable (some b) = b.fails ≡ false

restored-Readable : (o : Option Body) → Readable o → restored o ≡ o
restored-Readable none h = refl
restored-Readable (some b) h = ap (λ f. some (record { content = b.content; fails = f })) (sym h)

-- Where the body of the request can be read to its end, and the next handler does no more with the
-- writer than write to it: the response gets exactly the calls that the handler makes without the
-- interceptor; and where an event is sent, its status is the last that the handler set, or 200, and
-- its path and method are those of the request.
pub handler-calls :
    (a : Analytics) (next : Incoming → List Call) (r : Incoming)
    → Readable r.body
    → ((handler a next r).calls ≡ next r)
      × (((handler a next r).event ≡ none)
          ⊎ ((e : EventData) × ((handler a next r).event ≡ some e)
              × (e.status_code ≡ status_of 200 (next r))
              × (e.path ≡ r.path)
              × (e.method ≡ r.method)))
unfolding handler
handler-calls a next r h = elim (Bool-cases (not a.enabled || a.tracking_id == "")) [
  | inl off ↦ rw (off, handler) (refl, inl refl)
  | inr on ↦
      let same : record r { body = restored r.body } ≡ r =
        ap (λ b. record r { body = b }) (restored-Readable r.body h) in
      let (calls, code) =
        receive_all-calls (record { status_code = 200; body = ""; passed = [] })
          (next (record r { body = restored r.body })) in
      rw (on, handler)
        (
          calls ∙ ap next same,
          inr (_, refl, code ∙ ap (λ q. status_of 200 (next q)) same, refl, refl),
        )
]
