-- ===== src/Sahl/Filter/Streams.antt =====
-- A stream that a handler has opened: its events, its end and the verdict.
use luwes.Base.{
  ℕ, ◌+◌, ◌≡◌, refl, sym, ap, subst, ◌∙◌, Bool, true, false, not, none, some, List, [], ◌++◌, arith,
  inl, inr, Option-cases,
}
use luwes.Base.Bytes.{Bytes}
use mathlib.Core.Option.{some-injective}
use luwes.Shared.Base.{HttpStreamResetReason}
use luwes.Sahl.Host.{Pair, HostCall, Closure, HttpStreamEvent}
use luwes.Sahl.Request.{HeaderMap, Request}
use luwes.Sahl.Writer.{Writer, Result, Step, ok, panic, ◌>>=◌, run, flush}
use luwes.Sahl.Writer.Verdict.{IsSound, Keeps, run-Keeps, responses-flush, continues-flush}
use luwes.Sahl.Filter.{Filter, Closures}
use luwes.Sahl.Filter.Async.{
  deliver, on_http_stream_headers, on_http_stream_data, on_http_stream_trailers,
  on_http_stream_complete, on_http_stream_reset,
}
use luwes.Sahl.Filter.Verdict.{told, told-append, told-flush, ToldOnce, outstanding}
use luwes.Sahl.Filter.Later.{Outcome, Started, Started-owing, told-of}

-- After an event: what was told and what is still owed make up what was owed before.
abbrev After : Writer → Filter → Result Outcome → Type 0
After w f (panic p) = Unit {0}
After w f (ok (f', log)) =
    (w' : Writer) × (f'.writer ≡ some w')
    × IsSound w'
    × (told log + outstanding w' ≡ outstanding w)
    × (f'.stream_done ≡ f.stream_done)

module _ (env : Closures) (f : Filter) (w : Writer) (has : f.writer ≡ some w)
    (sound : IsSound w) where
  run-After :
      (r : Result Step)
      → Keeps w r
      → After w f (r >>= λ s. ok (record f { writer = some s.0 }, s.1))
  run-After (panic p) k = tt
  run-After (ok (w', log)) k = (w', refl, k.0, ground (arith, k.0, k.1, k.2, sound), refl)

  deliver_nothing :
      (event : HttpStreamEvent) → w.stream_event_fn ≡ none → deliver env event f ≡ ok (f, [])
  unfolding deliver
  deliver_nothing event e = ground (arith, has, e)

  deliver_event :
      (event : HttpStreamEvent) (fn : Closure)
      → w.stream_event_fn ≡ some fn
      → deliver env event f
        ≡ (run (env.on_event fn event w) w >>= λ s. ok (record f { writer = some s.0 }, s.1))
  unfolding deliver
  deliver_event event fn e = ground (arith, has, e)

  deliver-After : (event : HttpStreamEvent) → After w f (deliver env event f)
  deliver-After event = elim (Option-cases w.stream_event_fn) [
    | inl e ↦ subst (After w f) (sym (deliver_nothing event e)) (w, has, sound, omega arith, refl)
    | inr (fn, e) ↦
        subst (After w f) (sym (deliver_event event fn e)) (
          run-After (run (env.on_event fn event w) w) (run-Keeps (env.on_event fn event w) w sound))
  ]

  -- The end of `OnHttpStreamComplete` and of `OnHttpStreamReset`, after the event function.
  abbrev ending : (Writer → Bool) → Step → Result Outcome
  ending c s =
      let w' : Writer = record (s.0) { stream_event_fn = none } in
      ok (record f { writer = some w' }, s.1 ++ flush (c w') w')

  complete-told :
      (r : Result Step) → Keeps w r → ToldOnce (r >>= ending (λ w'. true)) (outstanding w)
  complete-told (panic p) k = tt
  complete-told (ok (w', log)) k =
      let v : Writer = record w' { stream_event_fn = none } in
      ground (arith, told-append log (flush true v), told-flush v k.0, k.0, k.1, k.2, sound)

  reset-told :
      (r : Result Step)
      → Keeps w r
      → ToldOnce (r >>= ending (λ w'. not w'.responded)) (outstanding w)
  reset-told (panic p) k = tt
  reset-told (ok (w', log)) k =
      let v : Writer = record w' { stream_event_fn = none } in
      ground (
        arith,
        told-append log (flush (not w'.responded) v),
        responses-flush v (not w'.responded),
        continues-flush v (not w'.responded) k.0,
        k.0,
        k.1,
        k.2,
        sound,
      )

  module _ (id : ℕ) (running : f.stream_done ≡ false) where
    complete_nothing :
        w.stream_event_fn ≡ none → on_http_stream_complete env id f ≡ ok (f, flush true w)
    unfolding on_http_stream_complete
    complete_nothing e = ground (arith, running, has, e)

    complete_event :
        (fn : Closure)
        → w.stream_event_fn ≡ some fn
        → on_http_stream_complete env id f
          ≡ (run (env.on_event fn (HttpStreamEvent.complete id) w) w >>= ending (λ w'. true))
    unfolding on_http_stream_complete
    complete_event fn e = ground (arith, running, has, e)

    complete-ToldOnce : ToldOnce (on_http_stream_complete env id f) (outstanding w)
    complete-ToldOnce = elim (Option-cases w.stream_event_fn) [
      | inl e ↦
          subst (λ r. ToldOnce r (outstanding w)) (sym (complete_nothing e)) (told-flush w sound)
      | inr (fn, e) ↦
          let calls = env.on_event fn (HttpStreamEvent.complete id) w in
          subst (λ r. ToldOnce r (outstanding w)) (sym (complete_event fn e))
            (complete-told (run calls w) (run-Keeps calls w sound))
    ]

    reset_event :
        (reason : HttpStreamResetReason) (fn : Closure)
        → w.stream_event_fn ≡ some fn
        → on_http_stream_reset env id reason f ≡ (
            run (env.on_event fn (HttpStreamEvent.reset id reason) w) w
            >>= ending (λ w'. not w'.responded))
    unfolding on_http_stream_reset
    reset_event reason fn e = ground (arith, running, has, e)

    reset-ToldOnce :
        (reason : HttpStreamResetReason) (fn : Closure)
        → w.stream_event_fn ≡ some fn
        → ToldOnce (on_http_stream_reset env id reason f) (outstanding w)
    reset-ToldOnce reason fn e =
        let calls = env.on_event fn (HttpStreamEvent.reset id reason) w in
        subst (λ r. ToldOnce r (outstanding w)) (sym (reset_event reason fn e))
          (reset-told (run calls w) (run-Keeps calls w sound))

-- The events of a stream, in any order and number, from a filter and the calls so far to those
-- afterwards.
pub data Delivered (env : Closures) (f : Filter) (log : List HostCall)
    : Filter → List HostCall → Type 0 where
  nothing : Delivered env f log f log
  got_headers :
      {g h : Filter} {more out : List HostCall} (id : ℕ) (hs : List Pair) (last : Bool)
      → Delivered env f log g more
      → on_http_stream_headers env id hs last g ≡ ok (h, out)
      → Delivered env f log h (more ++ out)
  got_body :
      {g h : Filter} {more out : List HostCall} (id : ℕ) (chunks : List Bytes) (last : Bool)
      → Delivered env f log g more
      → on_http_stream_data env id chunks last g ≡ ok (h, out)
      → Delivered env f log h (more ++ out)
  got_trailers :
      {g h : Filter} {more out : List HostCall} (id : ℕ) (ts : List Pair)
      → Delivered env f log g more
      → on_http_stream_trailers env id ts g ≡ ok (h, out)
      → Delivered env f log h (more ++ out)

-- The verdict is owed, if it has not been given.
abbrev Owing : Filter → List HostCall → Type 0
Owing f log = (w : Writer) × (f.writer ≡ some w) × IsSound w × (told log + outstanding w ≡ 1)

After-Owing :
    (w : Writer) (f g : Filter) (log out : List HostCall)
    → told log + outstanding w ≡ 1
    → After w f (ok (g, out))
    → Owing g (log ++ out)
After-Owing w f g log out h (w', has, sound, k, d) =
    (w', has, sound, omega (arith, told-append log out, h, k))

event-Owing :
    (env : Closures) (event : HttpStreamEvent) (f g : Filter) (log out : List HostCall)
    → Owing f log
    → deliver env event f ≡ ok (g, out)
    → Owing g (log ++ out)
event-Owing env event f g log out (w, has, sound, h) e =
    After-Owing w f g log out h (subst (After w f) e (deliver-After env f w has sound event))

Delivered-Owing :
    {env : Closures} {f : Filter} {log : List HostCall} {g : Filter} {out : List HostCall}
    → Delivered env f log g out
    → Owing f log
    → Owing g out
unfolding on_http_stream_headers on_http_stream_data on_http_stream_trailers
Delivered-Owing nothing h = h
Delivered-Owing {env = env} (got_headers {g = g} {h = k} {more = more} {out = out} id hs last d e)
      h =
    event-Owing env (HttpStreamEvent.headers id hs last) g k more out (Delivered-Owing d h) e
Delivered-Owing {env = env} (got_body {g = g} {h = k} {more = more} {out = out} id chunks last d e)
      h =
    event-Owing env (HttpStreamEvent.payload id chunks last) g k more out (Delivered-Owing d h) e
Delivered-Owing {env = env} (got_trailers {g = g} {h = k} {more = more} {out = out} id ts d e) h =
    event-Owing env (HttpStreamEvent.trailers id ts) g k more out (Delivered-Owing d h) e

-- The end of a stream that is still running: complete, or reset with its event function in place.
pub data Ended (env : Closures) (f g : Filter) (log : List HostCall) : Type 0 where
  is_complete :
      (id : ℕ)
      → f.stream_done ≡ false
      → on_http_stream_complete env id f ≡ ok (g, log)
      → Ended env f g log
  was_reset :
      (id : ℕ) (reason : HttpStreamResetReason) (w : Writer) (fn : Closure)
      → f.stream_done ≡ false
      → f.writer ≡ some w
      → w.stream_event_fn ≡ some fn
      → on_http_stream_reset env id reason f ≡ ok (g, log)
      → Ended env f g log

told-Ended :
    (env : Closures) (f g : Filter) (log out : List HostCall)
    → Owing f log
    → Ended env f g out
    → told (log ++ out) ≡ 1
told-Ended env f g log out (w, has, sound, h) (is_complete id running e) =
    let k : told out ≡ outstanding w =
      told-of _ (outstanding w) g out e (complete-ToldOnce env f w has sound id running) in
    omega (arith, told-append log out, h, k)
told-Ended env f g log out (w, has, sound, h) (was_reset id reason v fn running has' fn_set e) =
    let same : v ≡ w = some-injective v w (sym has' ∙ has) in
    let k : told out ≡ outstanding w = told-of _ (outstanding w) g out e (
      reset-ToldOnce env f w has sound id running reason fn
        (ap (λ w. w.stream_event_fn) (sym same) ∙ fn_set)) in
    omega (arith, told-append log out, h, k)

-- A request whose handler opened a stream, for every event function and every sequence of header,
-- body and trailer events that returns, and then the stream's end or its reset before the request's
-- stream completes: all calls together tell the host its verdict exactly once.
pub stream_verdict :
    (env : Closures) (headers : HeaderMap) (req : Request) (pooled w : Writer) (f f1 f2 f3 : Filter)
    (log log' last : List HostCall)
    → Started headers req pooled f f1 log w
    → Delivered env f1 log f2 log'
    → Ended env f2 f3 last
    → told (log' ++ last) ≡ 1
stream_verdict env headers req pooled w f f1 f2 f3 log log' last s d e =
    let own : IsSound w × (told log + outstanding w ≡ 1) =
      Started-owing headers req pooled w f f1 log s in
    told-Ended env f2 f3 log' last (Delivered-Owing d (w, s.2, own.0, own.1)) e
