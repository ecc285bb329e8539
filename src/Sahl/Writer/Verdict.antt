-- ===== src/Sahl/Writer/Verdict.antt =====
-- The verdict of a request: a local response or the request going on. Counting the calls of the
-- host that give one shows that a handler and the flush after it give exactly one.
use luwes.Base.{
  ℕ, ◌+◌, ◌≡◌, refl, ◌∙◌, Bool, false, none, List, [], ◌∷◌, ◌++◌, map, arith, is_some,
  if◌then◌else◌,
}
use luwes.Sahl.Host.{Pair, HostCall, Call}
use luwes.Sahl.Writer.{
  Writer, Result, ok, panic, Step, ◌>>=◌, MetaMut, CounterMut, perform, run, flush, header_call,
  metadata_call, counter_call,
}

-- The local responses among the calls, and the calls that let the request go on.
abbrev pub responses : List HostCall → ℕ
responses [] = 0
responses (HostCall.send_local_response status headers body ∷ calls) = 1 + responses calls
responses (_ ∷ calls) = responses calls

abbrev pub continues : List HostCall → ℕ
continues [] = 0
continues (HostCall.continue_request ∷ calls) = 1 + continues calls
continues (_ ∷ calls) = continues calls

pub responses-append : (xs ys : List HostCall) → responses (xs ++ ys) ≡ responses xs + responses ys
responses-append [] ys = omega arith
responses-append (HostCall.send_local_response a b c ∷ xs) ys =
    omega (arith, responses-append xs ys)
responses-append (_ ∷ xs) ys = responses-append xs ys

pub continues-append : (xs ys : List HostCall) → continues (xs ++ ys) ≡ continues xs + continues ys
continues-append [] ys = omega arith
continues-append (HostCall.continue_request ∷ xs) ys = omega (arith, continues-append xs ys)
continues-append (_ ∷ xs) ys = continues-append xs ys

-- A response waits for the flush only if the handler has responded, from a goroutine.
abbrev pub IsSound : Writer → Type 0
IsSound w =
    (w.responded ≡ false → w.local_resp ≡ none) × (w.go_started ≡ false → w.local_resp ≡ none)

abbrev pub pending : Writer → ℕ
pending w = if is_some w.local_resp then 1 else 0

abbrev pub verdicts : Writer → ℕ
verdicts w = if w.responded then 1 else 0

-- What a call or a run of calls promises, of the writer before and the result.
abbrev pub Keeps : Writer → Result Step → Type 0
Keeps w (panic p) = Unit {0}
Keeps w (ok (w', log)) =
    IsSound w'
    × (responses log + pending w' + verdicts w ≡ pending w + verdicts w')
    × (continues log ≡ 0)
    × (w'.handle ≡ w.handle)

perform-Keeps : (c : Call) (w : Writer) → IsSound w → Keeps w (perform c w)
unfolding perform
perform-Keeps (Call.set_response_header key value) w h = ground arith
perform-Keeps (Call.http_callout r i f) w h = ground arith
perform-Keeps _ w h = ground arith

Keeps-append :
    (w w' : Writer) (log : List HostCall) (r : Result Step)
    → Keeps w (ok (w', log))
    → Keeps w' r
    → Keeps w (r >>= λ t. ok (t.0, log ++ t.1))
Keeps-append w w' log (panic p) h k = tt
Keeps-append w w' log (ok (w'', log')) h k = (
  k.0,
  omega (arith, h.1, k.1, responses-append log log'),
  omega (arith, h.2, k.2, continues-append log log'),
  k.3 ∙ h.3,
)

Keeps-then :
    (w : Writer) (r : Result Step) (next : Writer → Result Step)
    → Keeps w r
    → ((w' : Writer) → IsSound w' → Keeps w' (next w'))
    → Keeps w (r >>= λ s. next s.0 >>= λ t. ok (t.0, s.1 ++ t.1))
Keeps-then w (panic p) next h k = tt
Keeps-then w (ok (w', log)) next h k = Keeps-append w w' log (next w') h (k w' h.0)

pub run-Keeps : (calls : List Call) (w : Writer) → IsSound w → Keeps w (run calls w)
unfolding run
run-Keeps [] w h = (h, omega arith, refl, refl)
run-Keeps (c ∷ calls) w h =
    Keeps-then w (perform c w) (run calls) (perform-Keeps c w h) (run-Keeps calls)

-- Neither header mutations nor metadata nor metrics give a verdict.
no_response_headers : (ms : List Pair) → responses (map header_call ms) ≡ 0
no_response_headers [] = refl
no_response_headers (m ∷ ms) = no_response_headers ms

no_response_metadata : (ms : List MetaMut) → responses (map metadata_call ms) ≡ 0
no_response_metadata [] = refl
no_response_metadata (m ∷ ms) = no_response_metadata ms

no_response_counters : (ms : List CounterMut) → responses (map counter_call ms) ≡ 0
no_response_counters [] = refl
no_response_counters (m ∷ ms) = ground (arith, no_response_counters ms)

no_continue_headers : (ms : List Pair) → continues (map header_call ms) ≡ 0
no_continue_headers [] = refl
no_continue_headers (m ∷ ms) = no_continue_headers ms

no_continue_metadata : (ms : List MetaMut) → continues (map metadata_call ms) ≡ 0
no_continue_metadata [] = refl
no_continue_metadata (m ∷ ms) = no_continue_metadata ms

no_continue_counters : (ms : List CounterMut) → continues (map counter_call ms) ≡ 0
no_continue_counters [] = refl
no_continue_counters (m ∷ ms) = ground (arith, no_continue_counters ms)

module _ (w : Writer) (c : Bool) where
  abbrev mutations : List HostCall
  mutations = map header_call w.req_muts ++ map metadata_call w.meta_muts

  abbrev with_route : List HostCall
  with_route = mutations ++ (if w.route_cleared then HostCall.clear_route_cache ∷ [] else [])

  abbrev with_metrics : List HostCall
  with_metrics = with_route ++ map counter_call w.counter_muts

  responses-with_metrics : responses with_metrics ≡ 0
  responses-with_metrics = ground (
    arith,
    responses-append with_route (map counter_call w.counter_muts),
    responses-append mutations (if w.route_cleared then HostCall.clear_route_cache ∷ [] else []),
    responses-append (map header_call w.req_muts) (map metadata_call w.meta_muts),
    no_response_headers w.req_muts,
    no_response_metadata w.meta_muts,
    no_response_counters w.counter_muts,
  )

  continues-with_metrics : continues with_metrics ≡ 0
  continues-with_metrics = ground (
    arith,
    continues-append with_route (map counter_call w.counter_muts),
    continues-append mutations (if w.route_cleared then HostCall.clear_route_cache ∷ [] else []),
    continues-append (map header_call w.req_muts) (map metadata_call w.meta_muts),
    no_continue_headers w.req_muts,
    no_continue_metadata w.meta_muts,
    no_continue_counters w.counter_muts,
  )

  -- `flush` sends the response that waits, and lets the request go on only if nobody responded.
  pub responses-flush : responses (flush c w) ≡ pending w
  unfolding flush
  responses-flush = ground (
    arith,
    responses-append with_metrics (if c then HostCall.continue_request ∷ [] else []),
    responses-with_metrics,
  )

  pub continues-flush :
      IsSound w → continues (flush c w) ≡ (if w.responded then 0 else if c then 1 else 0)
  unfolding flush
  continues-flush h = ground (
    arith,
    continues-append with_metrics (if c then HostCall.continue_request ∷ [] else []),
    continues-with_metrics,
  )
