-- ===== src/Middleware/Batch.antt =====
-- pkg/middleware/batch.go: several operations in one request, served side by side.
pub mod Complete
pub mod Ends
mod Tests
use inspiring_vacations_agen.Common.{
  ℕ, suc, ◌+◌, ◌<◌, ◌≡◌, Bool, true, false, not, ◌&&◌, ◌||◌, Option, none, some, List, [], ◌∷◌,
  ◌++◌, String, ◌==◌, eqb, ltb, if◌then◌else◌, string_eq, length, has_lower_suffix, chars,
}
use inspiring_vacations_agen.Common.Dict
use inspiring_vacations_agen.Common.Dict.{Dict}
use inspiring_vacations_agen.Common.Int.{ℤ, pos, negsuc}

-- `BatchOperation`
pub record BatchOperation (Body : Type 0) : Type 0 where
  pub method : String
  pub url : String
  pub operation_id : String
  pub body : Body
  pub params : Dict String String
  pub headers : Dict String String

-- `ResponseCollector`, without its times.
pub record ResponseCollector (Json : Type 0) : Type 0 where
  pub status : ℕ
  pub request_id : String
  pub operation_id : String
  pub method : String
  pub url : String
  pub body : Option Json
  pub header_map : Dict String (List String)

-- What a handler does with the response that it is given.
pub data Call : Type 0 where
  write_header : ℕ → Call
  write : String → Call
  set_header : String → List String → Call

-- The parts of encoding/json and net/http that are called: requests with headers and a query.
pub record Net : Type 1 where
  pub Body : Type 0
  pub Json : Type 0
  pub Req : Type 0
  pub marshal : Body → Option String
  pub unmarshal : String → Option Json
  pub new_request : String → String → String → Option Req
  pub add_header : String → String → Req → Req
  pub add_query : String → String → Req → Req

module _ (N : Net) where
  open N use {Body, Json, Req, marshal, unmarshal, new_request, add_header, add_query}

  unfoldable pub new_response_collector : BatchOperation Body → ResponseCollector Json
  new_response_collector op = record {
    status = 200;
    request_id = "";
    operation_id = op.operation_id;
    method = op.method;
    url = op.url;
    body = none;
    header_map = [];
  }

  -- The methods of the collector as an `http.ResponseWriter`. A body that is no JSON is dropped.
  unfoldable pub collect : ResponseCollector Json → Call → ResponseCollector Json
  collect rec (write_header code) = record rec { status = code }
  collect rec (set_header key values) = record rec {
    header_map = Dict.insert key values rec.header_map;
  }
  collect rec (write b) = elim (unmarshal b) [
    | none ↦ rec
    | some value ↦ elim (Dict.lookup "X-Request-Id" rec.header_map) [
      | some (id ∷ _) ↦ record rec { body = some value; request_id = id }
      | _ ↦ record rec { body = some value }
    ]
  ]

  unfoldable pub collect_all : ResponseCollector Json → List Call → ResponseCollector Json
  collect_all rec [] = rec
  collect_all rec (c ∷ cs) = collect_all (collect rec c) cs

  -- The headers of an operation, in the order of ranging: each goes to the request and to the
  -- collector.
  unfoldable pub add_headers :
      Dict String String → Req → ResponseCollector Json → Req × ResponseCollector Json
  add_headers [] req col = (req, col)
  add_headers ((key, value) ∷ hs) req col =
      add_headers hs (add_header key value req)
        (record col { header_map = Dict.insert key (value ∷ []) col.header_map })

  unfoldable pub add_params : Dict String String → Req → Req
  add_params [] req = req
  add_params ((key, value) ∷ ps) req = add_params ps (add_query key value req)

  -- `makeRequest`; the next handler is what it does with the response for each request.
  unfoldable pub make_request : (Req → List Call) → BatchOperation Body → ResponseCollector Json
  make_request next op =
      let col = new_response_collector op in
      elim (marshal op.body) [
        | none ↦ record col { status = 404 }
        | some bytes ↦ elim (new_request op.method op.url bytes) [
          | none ↦ record col { status = 400 }
          | some req ↦
              let (req', col') = add_headers op.headers req col in
              collect_all col' (next (add_params op.params req'))
        ]
      ]

  -- What `BatchRouter` makes of a request before it serves operations.
  pub data Routed : Type 0 where
    passed_on : Routed
    refused : ℕ → Routed
    accepted : List (BatchOperation Body) → Routed

  abbrev pub exceeds : ℕ → ℤ → Bool
  exceeds n (pos m) = ltb m n
  exceeds n (negsuc m) = true

  -- `BatchRouter`; the operations are `none` where the body does not decode.
  unfoldable pub route : ℤ → String → String → Option (List (BatchOperation Body)) → Routed
  route operations_limit method path decoded =
      if method == "POST" && has_lower_suffix path "/batch"
      then elim decoded [
        | none ↦ refused 400
        | some ops ↦ if exceeds (length ops) operations_limit then refused 422 else accepted ops
      ]
      else passed_on

  -- `BatchResponse`, without its times, the channel, as the number of values in it, and the
  -- goroutines. `waiting` are the operations that the loop has not come to, `started` the goroutines
  -- before their `select`, `serving` those after it. Then a goroutine has only to receive from the
  -- channel: `leaving` have nil to return and `erring` an error, and the errors of `returning` are
  -- still to come to the group.
  pub record Batch : Type 0 where
    pub waiting : List (BatchOperation Body)
    pub channel : ℕ
    pub started : List (BatchOperation Body)
    pub serving : List (BatchOperation Body)
    pub leaving : ℕ
    pub erring : ℕ
    pub returning : ℕ
    pub response_items : List (ResponseCollector Json)
    pub error_count : ℕ
    -- The request's context has ended.
    pub ended : Bool
    -- The group has an error, which cancels its context.
    pub failed : Bool

  -- `BatchResponse.append`
  unfoldable pub append : ResponseCollector Json → Batch → Batch
  append col b = record b {
    error_count = if eqb col.status 200 then b.error_count else b.error_count + 1;
    response_items = b.response_items ++ col ∷ [];
  }

  abbrev pub begin : List (BatchOperation Body) → Batch
  begin ops = record {
    waiting = ops;
    channel = 0;
    started = [];
    serving = [];
    leaving = 0;
    erring = 0;
    returning = 0;
    response_items = [];
    error_count = 0;
    ended = false;
    failed = false;
  }

  module _ (max_concurrency : ℕ) (next : Req → List Call) where
    pub data Step (b : Batch) : Batch → Type 0 where
      -- The loop sends on the channel, whose buffer has room, and starts a goroutine.
      start :
          (op : BatchOperation Body) (rest : List (BatchOperation Body))
          → b.waiting ≡ op ∷ rest
          → b.channel < max_concurrency
          → Step b (record b { waiting = rest; channel = suc b.channel; started = op ∷ b.started })
      -- A goroutine finds the context alive, and serves its operation.
      check :
          (before after : List (BatchOperation Body)) (op : BatchOperation Body)
          → b.started ≡ before ++ op ∷ after
          → (b.ended || b.failed) ≡ false
          → Step b (record b { started = before ++ after; serving = op ∷ b.serving })
      -- A goroutine finds the context ended.
      terminate :
          (before after : List (BatchOperation Body)) (op : BatchOperation Body)
          → b.started ≡ before ++ op ∷ after
          → (b.ended || b.failed) ≡ true
          → Step b (record b { started = before ++ after; erring = suc b.erring })
      -- The response of an operation is appended.
      finish :
          (before after : List (BatchOperation Body)) (op : BatchOperation Body)
          → b.serving ≡ before ++ op ∷ after
          → Step b (record (append (make_request next op) b) {
            serving = before ++ after;
            leaving = suc b.leaving;
          })
      -- The deferred receive of a goroutine, which then is done.
      release :
          (l c : ℕ)
          → b.leaving ≡ suc l
          → b.channel ≡ suc c
          → Step b (record b { leaving = l; channel = c })
      -- The same for one that returns an error.
      release_error :
          (l c : ℕ)
          → b.erring ≡ suc l
          → b.channel ≡ suc c
          → Step b (record b { erring = l; channel = c; returning = suc b.returning })
      -- The group is given the error.
      fail : (l : ℕ) → b.returning ≡ suc l → Step b (record b { returning = l; failed = true })
      -- The request's context ends, once.
      end_context : b.ended ≡ false → Step b (record b { ended = true })

    pub data Reach (b : Batch) : Batch → Type 0 where
      here : Reach b b
      next_step : {c d : Batch} → Reach b c → Step c d → Reach b d

  -- `eg.Wait` returns when no goroutine is left: `none` stands for the error answer.
  abbrev pub result : Batch → Option (ℕ × List (ResponseCollector Json))
  result b = if b.failed then none else some (b.error_count, b.response_items)
