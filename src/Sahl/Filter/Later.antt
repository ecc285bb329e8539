-- ===== src/Sahl/Filter/Later.antt =====
-- The callbacks after `OnRequestHeaders`: the closure or goroutine that a handler started gives the
-- verdict that the handler left open, and nothing comes after the stream has completed.
use luwes.Base.{
  ℕ, ◌+◌, ◌≡◌, refl, sym, subst, ◌∙◌, Bool, true, false, none, some, List, [], ◌++◌, arith, inl,
  inr, Option-cases, if◌then◌else◌,
}
use mathlib.Core.Option.{some-injective}
use luwes.Shared.Api.{HeadersStatus}
use luwes.Shared.Base.{HttpStreamResetReason}
use luwes.Sahl.Host.{HostCall, Call, CalloutDone, Closure}
use luwes.Sahl.Request.{HeaderMap, Request}
use luwes.Sahl.Writer.{Writer, Result, ok}
use luwes.Sahl.Writer.Verdict.{IsSound, continues}
use luwes.Sahl.Filter.{Filter, FilterDef, Closures, on_request_headers, on_stream_complete}
use luwes.Sahl.Filter.Async.{
  run_and_flush, on_http_callout_done, goroutine, on_http_stream_complete, on_http_stream_reset,
}
use luwes.Sahl.Filter.Verdict.{
  told, told-append, goes_on, ToldOnce, run_and_flush-told, is_async, outstanding, Settled,
  on_request_headers-Settled,
}

abbrev pub Outcome : Type 0
Outcome = Filter × List HostCall

pub told-of :
    (r : Result Outcome) (n : ℕ) (f : Filter) (log : List HostCall)
    → r ≡ ok (f, log)
    → ToldOnce r n
    → told log ≡ n
told-of r n f log e h = subst (λ r. ToldOnce r n) e h

-- What a writer says of the verdict, of the calls so far and the status.
abbrev Standing : List HostCall → HeadersStatus → Writer → Type 0
Standing log st w =
    IsSound w
    × (if is_async w
        then (st ≡ HeadersStatus.stop) × (told log + outstanding w ≡ 1)
        else (told log + goes_on st ≡ 1) × (continues log ≡ 0))

standing :
    (f : Filter) (log : List HostCall) (st : HeadersStatus) (w : Writer)
    → f.writer ≡ some w
    → Settled (ok (f, log, st))
    → Standing log st w
standing f log st w has (w', is, s, k) =
    subst (Standing log st) (some-injective w' w (sym is ∙ has)) (s, k)

if_true : (b : Bool) (X Y : Type 0) → b ≡ true → (if b then X else Y) → X
if_true true X Y e h = h
if_true false X Y e h = cc

owing :
    (log : List HostCall) (st : HeadersStatus) (w : Writer)
    → is_async w ≡ true
    → Standing log st w
    → IsSound w × (told log + outstanding w ≡ 1)
owing log st w a (s, k) = (s, (if_true (is_async w) _ _ a k).1)

-- A filter whose handler has started something asynchronous, when `OnRequestHeaders` has returned.
abbrev pub Started :
    HeaderMap → Request → Writer → Filter → Filter → List HostCall → Writer → Type 0
Started headers req pooled f f1 log w =
    ((def : FilterDef) × (f.handler ≡ some def) × (def.body_aware ≡ false))
    × ((st : HeadersStatus) × (on_request_headers headers req pooled f ≡ ok (f1, log, st)))
    × (f1.writer ≡ some w)
    × (is_async w ≡ true)

pub Started-owing :
    (headers : HeaderMap) (req : Request) (pooled w : Writer) (f f1 : Filter) (log : List HostCall)
    → Started headers req pooled f f1 log w
    → IsSound w × (told log + outstanding w ≡ 1)
Started-owing headers req pooled w f f1 log ((def, e, b), (st, r), has, a) = owing log st w a (
    standing f1 log st w has
      (subst Settled r (on_request_headers-Settled headers req pooled f def e b)))

callout_runs :
    (env : Closures) (done : CalloutDone) (f : Filter) (w : Writer) (fn : Closure)
    → f.stream_done ≡ false
    → f.writer ≡ some w
    → w.callout_fn ≡ some fn
    → on_http_callout_done env done f
      ≡ run_and_flush
          (env.on_done fn done (record w { callout_fn = none }))
          (record w { callout_fn = none })
          f
unfolding on_http_callout_done
callout_runs env done f w fn s has e = simp (s, has, e)

-- A request whose handler started a callout, for every callback that the handler passed: if
-- `OnHttpCalloutDone` comes before the stream completes and returns, the calls of
-- `OnRequestHeaders` and of `OnHttpCalloutDone` tell the host its verdict exactly once between them.
pub callout_verdict :
    (env : Closures) (done : CalloutDone) (headers : HeaderMap) (req : Request) (pooled w : Writer)
    (f f1 f2 : Filter) (fn : Closure) (log log' : List HostCall)
    → Started headers req pooled f f1 log w
    → f1.stream_done ≡ false
    → w.callout_fn ≡ some fn
    → on_http_callout_done env done f1 ≡ ok (f2, log')
    → told (log ++ log') ≡ 1
callout_verdict env done headers req pooled w f f1 f2 fn log log' s open_still e r =
    let w' : Writer = record w { callout_fn = none } in
    let own : IsSound w × (told log + outstanding w ≡ 1) =
      Started-owing headers req pooled w f f1 log s in
    let later : told log' ≡ outstanding w =
      told-of (run_and_flush (env.on_done fn done w') w' f1) (outstanding w) f2 log'
        (sym (callout_runs env done f1 w fn open_still s.2 e) ∙ r)
        (run_and_flush-told (env.on_done fn done w') w' f1 own.0) in
    omega (arith, told-append log log', own.1, later)

goroutine_runs :
    (calls : List Call) (f : Filter) (w : Writer)
    → f.writer ≡ some w
    → goroutine calls f ≡ run_and_flush calls w f
unfolding goroutine
goroutine_runs calls f w has = rw has refl

-- A request whose handler called `Go`, for every list of calls that the goroutine makes: if these
-- return, the calls of `OnRequestHeaders` and of the task that the goroutine schedules tell the
-- host its verdict exactly once between them.
pub goroutine_verdict :
    (calls : List Call) (headers : HeaderMap) (req : Request) (pooled w : Writer) (f f1 f2 : Filter)
    (log log' : List HostCall)
    → Started headers req pooled f f1 log w
    → goroutine calls f1 ≡ ok (f2, log')
    → told (log ++ log') ≡ 1
goroutine_verdict calls headers req pooled w f f1 f2 log log' s r =
    let own : IsSound w × (told log + outstanding w ≡ 1) =
      Started-owing headers req pooled w f f1 log s in
    let later : told log' ≡ outstanding w =
      told-of (run_and_flush calls w f1) (outstanding w) f2 log'
        (sym (goroutine_runs calls f1 w s.2) ∙ r) (run_and_flush-told calls w f1 own.0) in
    omega (arith, told-append log log', own.1, later)

module _ (env : Closures) (f : Filter) (e : f.stream_done ≡ true) where
  quiet_callout : (done : CalloutDone) → on_http_callout_done env done f ≡ ok (f, [])
  unfolding on_http_callout_done
  quiet_callout done = rw e refl

  quiet_complete : (id : ℕ) → on_http_stream_complete env id f ≡ ok (f, [])
  unfolding on_http_stream_complete
  quiet_complete id = rw e refl

  quiet_reset :
      (id : ℕ) (reason : HttpStreamResetReason) → on_http_stream_reset env id reason f ≡ ok (f, [])
  unfolding on_http_stream_reset
  quiet_reset id reason = rw e refl

stays : (f : Filter) → (on_stream_complete f).0.stream_done ≡ true
unfolding on_stream_complete
stays f = elim (Option-cases f.writer) [ inl e ↦ rw e refl | inr (w, e) ↦ rw e refl ]

-- The filter of a stream that has completed.
abbrev pub completed_filter : Filter → Filter
completed_filter f = (on_stream_complete f).0

-- After `OnStreamComplete`, whatever the filter's state, the end of a callout, the end of a stream
-- and its reset run no callback of the handler, call nothing on the host and leave the filter.
pub late_callbacks :
    (env : Closures) (f : Filter) (done : CalloutDone) (id : ℕ) (reason : HttpStreamResetReason)
    → (on_http_callout_done env done (completed_filter f) ≡ ok (completed_filter f, []))
      × (on_http_stream_complete env id (completed_filter f) ≡ ok (completed_filter f, []))
      × (on_http_stream_reset env id reason (completed_filter f) ≡ ok (completed_filter f, []))
late_callbacks env f done id reason =
    let e : (completed_filter f).stream_done ≡ true = stays f in
    (quiet_callout env _ e done, quiet_complete env _ e id, quiet_reset env _ e id reason)
