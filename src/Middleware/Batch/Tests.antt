-- ===== src/Middleware/Batch/Tests.antt =====
-- Two operations, of which the second is served first.
use mathlib.Core.List.{Perm}
use inspiring_vacations_agen.Common.{
  ℕ, ◌≤◌, ◌*◌, ◌+◌, ◌≡◌, refl, ◌⊎◌, true, false, none, some, List, [], ◌∷◌, map, String, ◌==◌,
  if◌then◌else◌, string_eq, arith, length,
}
use inspiring_vacations_agen.Common.Dict
use inspiring_vacations_agen.Middleware.Batch.{
  BatchOperation, ResponseCollector, Call, write_header, write, Net, new_response_collector,
  collect, collect_all, add_headers, add_params, make_request, route, Batch, append, begin, start,
  check, finish, release, Reach, here, next_step, result,
}
use inspiring_vacations_agen.Middleware.Batch.Complete.{errors, IsOver, result_complete}
use inspiring_vacations_agen.Middleware.Batch.Ends.{
  holding, steps, Advance, Reach-bounded, batch-ends,
}

program : Unit {0}
unfolding new_response_collector collect collect_all add_headers add_params make_request route
    append errors Dict.lookup Dict.insert
program = tt

-- A request is its URL, and a body is a text.
abbrev sample : Net
sample = record {
  Body = String;
  Json = String;
  Req = String;
  marshal = λ b. some b;
  unmarshal = λ s. some s;
  new_request = λ method url body. if url == "" then none else some url;
  add_header = λ _ _ r. r;
  add_query = λ _ _ r. r;
}

abbrev operation : String → BatchOperation String
operation url = record {
  method = "GET";
  url = url;
  operation_id = url;
  body = "";
  params = [];
  headers = ("X-Request-Id", "r1") ∷ [];
}

abbrev serve : String → List Call
serve url = if url == "/missing" then write_header 404 ∷ [] else write "{}" ∷ []

abbrev both : List (BatchOperation String)
both = operation "/config" ∷ operation "/missing" ∷ []

abbrev response : String → ResponseCollector String
response url = make_request sample serve (operation url)

abbrev done : Batch sample
done = record {
  waiting = [];
  channel = 0;
  started = [];
  serving = [];
  leaving = 0;
  erring = 0;
  returning = 0;
  response_items = response "/missing" ∷ response "/config" ∷ [];
  error_count = 1;
  ended = false;
  failed = false;
}

missing_status : (response "/missing").status ≡ 404
unfolding program
missing_status = refl

run : Reach sample 2 serve (begin sample both) done
unfolding program
run =
    let one = operation "/config" in
    let two = operation "/missing" in
    let started =
      next_step (next_step here (start one (two ∷ []) refl (omega arith)))
        (start two [] refl (omega arith)) in
    let first =
      next_step (next_step started (check [] (one ∷ []) two refl refl)) (finish [] [] two refl) in
    let second = next_step (next_step first (check [] [] one refl refl)) (finish [] [] one refl) in
    next_step (next_step second (release 1 1 refl refl)) (release 0 0 refl refl)

over : IsOver sample 2 serve done
over = record {
  none_waiting = refl;
  none_started = refl;
  none_serving = refl;
  none_leaving = refl;
  none_erring = refl;
  none_returning = refl;
}

result_complete_example :
    ((n : ℕ) (cols : List (ResponseCollector String))
      → result sample done ≡ some (n, cols)
      → Perm cols (map (make_request sample serve) both) × (n ≡ errors sample cols))
    × (result sample done ≡ none → done.ended ≡ true)
result_complete_example = result_complete sample 2 serve both done run over

Reach-bounded_example : (holding sample 2 serve done ≤ 2) × (length done.serving ≤ 2)
Reach-bounded_example = Reach-bounded sample 2 serve both done run

batch-ends_example :
    (steps sample 2 serve run ≤ 4 * length both + 1)
    × (IsOver sample 2 serve done ⊎ Advance sample 2 serve done)
batch-ends_example = batch-ends sample 2 serve both done (omega arith) run
