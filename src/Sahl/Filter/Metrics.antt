-- ===== src/Sahl/Filter/Metrics.antt =====
-- The counters of a request: what the handler asked for against what the host is told.
use luwes.Base.{
  ℕ, ◌+◌, ◌≡◌, refl, sym, ap, subst, ◌∙◌, Bool, true, false, none, some, List, [], ◌∷◌, ◌++◌, map,
  arith, inl, inr, Bool-cases, if◌then◌else◌, ◌==◌, is_some,
}
use mathlib.Core.Option.{some-injective}
use luwes.Shared.Api.{HeadersStatus}
use luwes.Sahl.Host.{HostCall, Call, Pair}
use luwes.Sahl.Request.{HeaderMap, Request, request_reset}
use luwes.Sahl.Writer.{
  Writer, MetaMut, CounterMut, Result, ok, panic, Step, ◌>>=◌, perform, run, flush, reset,
  flush_response_mutations, header_call, metadata_call, counter_call,
}
use luwes.Sahl.Writer.Verdict.{IsSound, Keeps, run-Keeps}
use luwes.Sahl.Filter.{
  Filter, FilterDef, HandlerFunc, settle, on_request_headers, on_stream_complete, has_response,
  completed,
}
use luwes.Sahl.Filter.Verdict.{
  is_async, settle-async, settle-responded, settle-open, fresh_writer, if_false, deref-some,
}

-- What the host adds to a counter, of the calls that it gets.
abbrev pub counted : ℕ → List HostCall → ℕ
counted id [] = 0
counted id (HostCall.increment_counter other n tags ∷ log) =
    (if other == id then n else 0) + counted id log
counted id (_ ∷ log) = counted id log

-- What a handler asks to add to it.
abbrev pub asked : ℕ → List Call → ℕ
asked id [] = 0
asked id (Call.increment_counter other n tags ∷ calls) =
    (if other == id then n else 0) + asked id calls
asked id (_ ∷ calls) = asked id calls

-- What a writer has recorded.
abbrev pub recorded : ℕ → List CounterMut → ℕ
recorded id [] = 0
recorded id (m ∷ ms) = (if m.hist then 0 else if m.id == id then m.n else 0) + recorded id ms

module _ (id : ℕ) where
  counted-append : (xs ys : List HostCall) → counted id (xs ++ ys) ≡ counted id xs + counted id ys
  counted-append [] ys = omega arith
  counted-append (HostCall.increment_counter a b c ∷ xs) ys = ground (arith, counted-append xs ys)
  counted-append (_ ∷ xs) ys = counted-append xs ys

  recorded-append :
      (xs ys : List CounterMut) → recorded id (xs ++ ys) ≡ recorded id xs + recorded id ys
  recorded-append [] ys = omega arith
  recorded-append (m ∷ xs) ys = omega (arith, recorded-append xs ys)

  -- A call or a run records what it asks for, and tells the host of no counter.
  abbrev Records : Writer → ℕ → Result Step → Type 0
  Records w n (panic p) = Unit {0}
  Records w n (ok (w', log)) =
      (recorded id w'.counter_muts ≡ recorded id w.counter_muts + n) × (counted id log ≡ 0)

  perform-Records : (c : Call) (w : Writer) → Records w (asked id (c ∷ [])) (perform c w)
  unfolding perform
  perform-Records (Call.increment_counter other n tags) w = grind (arith, recorded-append)
  perform-Records (Call.record_histogram other n tags) w = grind (arith, recorded-append)
  perform-Records _ w = ground arith

  Records-append :
      (w w' : Writer) (log : List HostCall) (m n : ℕ) (r : Result Step)
      → Records w m (ok (w', log))
      → Records w' n r
      → Records w (m + n) (r >>= λ t. ok (t.0, log ++ t.1))
  Records-append w w' log m n (panic p) h k = tt
  Records-append w w' log m n (ok (w'', log')) h k =
      (omega (arith, h.0, k.0), omega (arith, h.1, k.1, counted-append log log'))

  Records-then :
      (w : Writer) (m n : ℕ) (r : Result Step) (next : Writer → Result Step)
      → Records w m r
      → ((w' : Writer) → Records w' n (next w'))
      → Records w (m + n) (r >>= λ s. next s.0 >>= λ t. ok (t.0, s.1 ++ t.1))
  Records-then w m n (panic p) next h k = tt
  Records-then w m n (ok (w', log)) next h k = Records-append w w' log m n (next w') h (k w')

  asked-cons :
      (c : Call) (calls : List Call) → asked id (c ∷ calls) ≡ asked id (c ∷ []) + asked id calls
  asked-cons (Call.increment_counter a b t) calls = omega arith
  asked-cons _ calls = omega arith

  run-Records : (calls : List Call) (w : Writer) → Records w (asked id calls) (run calls w)
  unfolding run
  run-Records [] w = (omega arith, refl)
  run-Records (c ∷ calls) w =
      subst (λ n. Records w n (run (c ∷ calls) w)) (sym (asked-cons c calls))
        (Records-then w (asked id (c ∷ [])) (asked id calls) (perform c w) (run calls)
          (perform-Records c w) (run-Records calls))

  no_headers : (ms : List Pair) → counted id (map header_call ms) ≡ 0
  no_headers [] = refl
  no_headers (m ∷ ms) = no_headers ms

  no_metadata : (ms : List MetaMut) → counted id (map metadata_call ms) ≡ 0
  no_metadata [] = refl
  no_metadata (m ∷ ms) = no_metadata ms

  counted-counters : (ms : List CounterMut) → counted id (map counter_call ms) ≡ recorded id ms
  counted-counters [] = refl
  counted-counters (m ∷ ms) = ground (arith, counted-counters ms)

  counted-flush :
      (w : Writer) (c : Bool)
      → w.local_resp ≡ none
      → w.responded ≡ false
      → counted id (flush c w) ≡ recorded id w.counter_muts
  unfolding flush
  counted-flush w c n r = grind (
    arith,
    n,
    r,
    counted-append,
    no_headers w.req_muts,
    no_metadata w.meta_muts,
    counted-counters w.counter_muts,
  )

  -- How `OnRequestHeaders` leaves the counters: recorded in the writer, and told to the host by the
  -- flush if nobody has responded.
  abbrev Metered : FilterDef → ℕ → Result (Filter × List HostCall × HeadersStatus) → Type 0
  Metered def n (panic p) = Unit {0}
  Metered def n (ok (f, log, st)) =
      (f.handler ≡ some def)
      × (w : Writer) × (f.writer ≡ some w)
      × (is_async w ≡ false
          → (recorded id w.counter_muts ≡ n) × (counted id log ≡ (if w.responded then 0 else n)))

  settle-Metered :
      (f : Filter) (def : FilterDef) (n : ℕ) (w w' : Writer) (log : List HostCall)
      → f.handler ≡ some def
      → recorded id w.counter_muts ≡ 0
      → Records w n (ok (w', log))
      → IsSound w'
      → Metered def n (settle f (w', log))
  settle-Metered f def n w w' log e blank k s = elim (Bool-cases (is_async w')) [
    | inl a ↦ rw (settle-async f w' log a) (e, w', refl, λ b. cc)
    | inr a ↦ elim (Bool-cases w'.responded) [
      | inl r ↦
          rw (settle-responded f w' log a r)
            (e, w', refl, λ b. (omega (arith, blank, k.0), ground (arith, r, k.1)))
      | inr r ↦ rw (settle-open f w' log a r) (
        e,
        w',
        refl,
        λ b. (
          omega (arith, blank, k.0),
          ground (
            arith,
            r,
            k.1,
            k.0,
            blank,
            counted-append log (flush false w'),
            counted-flush w' false (s.0 r) r,
          ),
        ),
      )
    ]
  ]

  bind-Metered :
      (f : Filter) (def : FilterDef) (n : ℕ) (w : Writer) (r : Result Step)
      → f.handler ≡ some def
      → recorded id w.counter_muts ≡ 0
      → Records w n r
      → Keeps w r
      → Metered def n (r >>= settle f)
  bind-Metered f def n w (panic p) e blank k s = tt
  bind-Metered f def n w (ok (w', log)) e blank k s = settle-Metered f def n w w' log e blank k s.0

  -- What `OnStreamComplete` tells the host.
  counted-completed :
      (b : Bool) (w : Writer) (n : ℕ)
      → recorded id w.counter_muts ≡ n
      → counted id (completed b w).1 ≡ (if b then n else 0)
  unfolding flush_response_mutations
  counted-completed false w n k = refl
  counted-completed true w n k = omega (
    arith,
    k,
    counted-append (map metadata_call w.meta_muts) (map counter_call w.counter_muts),
    no_metadata w.meta_muts,
    counted-counters w.counter_muts,
  )

  complete_log :
      (f : Filter) (w : Writer)
      → f.writer ≡ some w
      → (on_stream_complete f).1 ≡ (completed (has_response f.handler) w).1
  unfolding on_stream_complete
  complete_log f w has = ground (arith, has)

  counted_complete :
      (f : Filter) (def : FilterDef) (w : Writer) (n : ℕ)
      → f.handler ≡ some def
      → f.writer ≡ some w
      → recorded id w.counter_muts ≡ n
      → counted id (on_stream_complete f).1 ≡ (if is_some def.response_fn then n else 0)
  counted_complete f def w n e has k =
      ap (counted id) (complete_log f w has)
      ∙ counted-completed (has_response f.handler) w n k
      ∙ ap (λ b. if b then n else 0) (ap has_response e)

  total :
      (def : FilterDef) (n : ℕ) (f : Filter) (log : List HostCall) (st : HeadersStatus) (w : Writer)
      → Metered def n (ok (f, log, st))
      → f.writer ≡ some w
      → is_async w ≡ false
      → counted id (log ++ (on_stream_complete f).1)
        ≡ (if w.responded then 0 else n) + (if is_some def.response_fn then n else 0)
  total def n f log st w (e, w', is, k) has a =
      let s : (recorded id w.counter_muts ≡ n) × (counted id log ≡ (if w.responded then 0 else n)) =
        subst
          (λ w.
            is_async w ≡ false
            → (recorded id w.counter_muts ≡ n) × (counted id log ≡ (if w.responded then 0 else n)))
          (some-injective w' w (sym is ∙ has)) k a in
      omega (
        arith,
        s.1,
        counted-append log (on_stream_complete f).1,
        counted_complete f def w n e has s.0,
      )

-- A request that a handler has dealt with on the spot, and its stream's completion after it: the
-- host adds to a counter what the handler asked for if the request went on and nothing if the
-- handler responded, and then, of a filter with a response handler, once more all that was asked.
pub counters_lem :
    (id : ℕ) (headers : HeaderMap) (req : Request) (pooled w : Writer) (f f1 : Filter)
    (def : FilterDef) (h : HandlerFunc) (log : List HostCall) (st : HeadersStatus)
    → f.handler ≡ some def
    → def.body_aware ≡ false
    → def.handler ≡ some h
    → on_request_headers headers req pooled f ≡ ok (f1, log, st)
    → f1.writer ≡ some w
    → is_async w ≡ false
    → let n =
        asked id (h (fresh_writer f.handle pooled) (request_reset headers f.handle f.name req)) in
      counted id (log ++ (on_stream_complete f1).1)
      ≡ (if w.responded then 0 else n) + (if is_some def.response_fn then n else 0)
unfolding on_request_headers reset
counters_lem id headers req pooled w f f1 def h log st e plain he r has a =
    let fresh = fresh_writer f.handle pooled in
    let calls = h fresh (request_reset headers f.handle f.name req) in
    let f' : Filter = record f {
      req = some (request_reset headers f.handle f.name req);
      writer = some fresh;
    } in
    total id def (asked id calls) f1 log st w
      (subst (Metered id def (asked id calls)) r (
        deref-some (Metered id def (asked id calls)) f.handler def _ e (
          if_false (Metered id def (asked id calls)) def.body_aware _ _ plain (
            deref-some (Metered id def (asked id calls)) def.handler h _ he (
              bind-Metered id f' def (asked id calls) fresh (run calls fresh) e refl
                (run-Records id calls fresh) (run-Keeps calls fresh ((λ _. refl), (λ _. refl))))))))
      has a
