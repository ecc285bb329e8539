-- ===== src/Sahl/Filter/Body.antt =====
-- `OnRequestBody` of a filter that waits for the body, and the goroutine after it.
use luwes.Base.{
  ◌⊎◌, ◌+◌, ◌≡◌, refl, sym, ap, subst, ◌∙◌, Bool, true, false, not, Option, none, some, List, [],
  ◌∷◌, ◌++◌, arith, append_assoc, append-nil, map, if◌then◌else◌, inl, inr,
}
use mathlib.Core.Option.{some-injective}
use luwes.Shared.Api.{BodyStatus}
use luwes.Sahl.Host.{HostCall}
use luwes.Sahl.Request.{Request}
use luwes.Sahl.Writer.{
  Writer, Result, ok, panic, Step, ◌>>=◌, run, flush, header_call, metadata_call, counter_call,
}
use luwes.Sahl.Writer.Verdict.{
  responses, continues, responses-append, continues-append, IsSound, pending, verdicts, Keeps,
  run-Keeps, responses-flush, continues-flush,
}
use luwes.Sahl.Filter.{Filter, FilterDef, HandlerFunc, on_request_body, deref}
use luwes.Sahl.Filter.Async.{run_and_flush, goroutine}

-- How `OnRequestBody` leaves a request at the end of the body: always with Continue, with a response
-- for a handler that responded and none otherwise, and never with ContinueRequest; the mutations of
-- a handler that has not responded have been sent, whatever it has started.
abbrev pub BodyDone : Result (Filter × List HostCall × BodyStatus) → Type 0
BodyDone (panic p) = Unit {0}
BodyDone (ok (f, log, st)) =
    (w : Writer) × (f.writer ≡ some w)
    × (st ≡ BodyStatus.continue)
    × IsSound w
    × (responses log + pending w ≡ verdicts w)
    × (continues log ≡ 0)
    × ((w.responded ≡ true) ⊎ ((before : List HostCall) × (log ≡ before ++ flush false w)))

-- The end of `OnRequestBody`, after the handler has run.
abbrev body_end : Filter → Step → Result (Filter × List HostCall × BodyStatus)
body_end f s =
    if not s.0.responded
    then ok (record f { writer = some s.0 }, s.1 ++ flush false s.0, BodyStatus.continue)
    else ok (record f { writer = some s.0 }, s.1, BodyStatus.continue)

module _ (f : Filter) (w : Writer) (fresh : w.responded ≡ false) (empty : w.local_resp ≡ none) where
  responded-BodyDone :
      (b : Bool) (w' : Writer) (log : List HostCall)
      → w'.responded ≡ b
      → Keeps w (ok (w', log))
      → BodyDone (
          if not b
          then ok (record f { writer = some w' }, log ++ flush false w', BodyStatus.continue)
          else ok (record f { writer = some w' }, log, BodyStatus.continue))
  responded-BodyDone true w' log r k =
      (w', refl, refl, k.0, ground (arith, r, fresh, empty, k.1), k.2, inl r)
  responded-BodyDone false w' log r k = (
    w',
    refl,
    refl,
    k.0,
    ground (
      arith,
      r,
      fresh,
      empty,
      k.0,
      k.1,
      responses-append log (flush false w'),
      responses-flush w' false,
    ),
    ground (arith, r, k.2, continues-append log (flush false w'), continues-flush w' false k.0),
    inr (log, refl),
  )

  bind-BodyDone : (r : Result Step) → Keeps w r → BodyDone (r >>= body_end f)
  bind-BodyDone (panic p) k = tt
  bind-BodyDone (ok (w', log)) k = responded-BodyDone w'.responded w' log refl k

  handler-BodyDone :
      (req : Option Request) (h : Option HandlerFunc)
      → BodyDone (deref req >>= λ req. deref h >>= λ h. run (h w req) w >>= body_end f)
  handler-BodyDone none h = tt
  handler-BodyDone (some req) none = tt
  handler-BodyDone (some req) (some h) =
      bind-BodyDone (run (h w req) w) (run-Keeps (h w req) w ((λ _. empty), (λ _. empty)))

body_end_lem :
    (f : Filter) (def : FilterDef) (w : Writer)
    → f.handler ≡ some def
    → def.body_aware ≡ true
    → f.writer ≡ some w
    → on_request_body true f ≡ (
        deref f.req >>= λ req.
        deref def.handler >>= λ h. run (h w req) w >>= body_end (record f { body_done = true }))
unfolding on_request_body
body_end_lem f def w e b has = simp (e, b, has)

-- At the end of the body, for every handler and a writer that has not responded: if `OnRequestBody`
-- returns, it returns Continue, with exactly one local response if the handler responded (one that
-- waits for a goroutine's flush counts) and none otherwise, without ContinueRequest, and with the
-- mutations flushed if the handler has not responded.
pub on_request_body-BodyDone :
    (f : Filter) (def : FilterDef) (w : Writer)
    → f.handler ≡ some def
    → def.body_aware ≡ true
    → f.writer ≡ some w
    → w.responded ≡ false
    → w.local_resp ≡ none
    → BodyDone (on_request_body true f)
on_request_body-BodyDone f def w e b has r n =
    subst BodyDone (sym (body_end_lem f def w e b has))
      (handler-BodyDone (record f { body_done = true }) w r n f.req def.handler)

-- What a flush sends where nothing responded and no response waits.
abbrev sent : Writer → List HostCall → List HostCall
sent w end =
    map header_call w.req_muts
    ++ map metadata_call w.meta_muts
    ++ (if w.route_cleared then HostCall.clear_route_cache ∷ [] else [])
    ++ map counter_call w.counter_muts
    ++ end

flush-sent :
    (w : Writer) (c : Bool)
    → w.responded ≡ false
    → w.local_resp ≡ none
    → flush c w ≡ sent w (if c then HostCall.continue_request ∷ [] else [])
unfolding flush
flush-sent w c r n = ground (arith, r, n)

flush-again :
    (w : Writer)
    → w.responded ≡ false
    → w.local_resp ≡ none
    → flush true w ≡ flush false w ++ HostCall.continue_request ∷ []
flush-again w r n =
    rw (flush-sent w true r n, flush-sent w false r n) (simp (append_assoc, append-nil))

goroutine-idle :
    (f : Filter) (w : Writer)
    → f.writer ≡ some w
    → goroutine [] f ≡ ok (record f { writer = some w }, flush true w)
unfolding goroutine run_and_flush run
goroutine-idle f w has = ground (arith, has)

sent_twice :
    (f : Filter) (w : Writer) (log : List HostCall) (st : BodyStatus)
    → f.writer ≡ some w
    → w.responded ≡ false
    → BodyDone (ok (f, log, st))
    → (before : List HostCall) × (log ≡ before ++ flush false w)
      × (st ≡ BodyStatus.continue)
      × (goroutine [] f
          ≡ ok (record f { writer = some w }, flush false w ++ HostCall.continue_request ∷ []))
sent_twice f w log st has r (w', is, c, s, d, k, m) =
    let same : w' ≡ w = some-injective w' w (sym is ∙ has) in
    let sound : IsSound w = subst IsSound same s in
    let again : (w.responded ≡ true)
        ⊎ ((before : List HostCall) × (log ≡ before ++ flush false w)) =
      subst
        (λ w. (w.responded ≡ true) ⊎ ((before : List HostCall) × (log ≡ before ++ flush false w)))
        same m in
    elim again [
      | inl responded ↦ cc
      | inr (before, e) ↦ (
        before,
        e,
        c,
        goroutine-idle f w has
            ∙ ap (λ l. ok (record f { writer = some w }, l)) (flush-again w r (sound.0 r)),
      )
    ]

-- After a body-aware handler that has not responded but has called `Go`: the mutations that
-- `OnRequestBody` has flushed, with Continue, are sent again by the goroutine's flush, here of a
-- goroutine that adds none, and ContinueRequest follows.
pub mutations_sent_twice :
    (f f1 : Filter) (def : FilterDef) (w w1 : Writer) (log : List HostCall) (st : BodyStatus)
    → f.handler ≡ some def
    → def.body_aware ≡ true
    → f.writer ≡ some w
    → w.responded ≡ false
    → w.local_resp ≡ none
    → on_request_body true f ≡ ok (f1, log, st)
    → f1.writer ≡ some w1
    → w1.responded ≡ false
    → (before : List HostCall) × (log ≡ before ++ flush false w1)
      × (st ≡ BodyStatus.continue)
      × (goroutine [] f1
          ≡ ok (record f1 { writer = some w1 }, flush false w1 ++ HostCall.continue_request ∷ []))
mutations_sent_twice f f1 def w w1 log st e b has r n run_ok has1 open1 =
    let d : BodyDone (ok (f1, log, st)) =
      subst BodyDone run_ok (on_request_body-BodyDone f def w e b has r n) in
    sent_twice f1 w1 log st has1 open1 d
