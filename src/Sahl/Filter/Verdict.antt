-- ===== src/Sahl/Filter/Verdict.antt =====
-- The verdict of a request, over the callbacks: the host is told exactly once to answer or to go on.
use luwes.Base.{
  ℕ, ◌+◌, ◌≡◌, refl, sym, Bool, true, false, ◌||◌, Option, none, some, List, ◌++◌, arith, inl, inr,
  Bool-cases, if◌then◌else◌, subst,
}
use mathlib.Core.Option.{some-injective}
use luwes.Shared.Api.{HeadersStatus}
use luwes.Sahl.Host.{HostCall, Call}
use luwes.Sahl.Request.{HeaderMap, Request, request_reset}
use luwes.Sahl.Writer.{Writer, Result, ok, panic, Step, ◌>>=◌, run, flush, reset}
use luwes.Sahl.Writer.Verdict.{
  responses, continues, responses-append, continues-append, IsSound, pending, Keeps, run-Keeps,
  responses-flush, continues-flush,
}
use luwes.Sahl.Filter.{Filter, FilterDef, HandlerFunc, on_request_headers, settle, deref}
use luwes.Sahl.Filter.Async.{run_and_flush}

-- What the host is told of a request: the local responses and the calls to go on.
abbrev pub told : List HostCall → ℕ
told log = responses log + continues log

pub told-append : (xs ys : List HostCall) → told (xs ++ ys) ≡ told xs + told ys
told-append xs ys = omega (arith, responses-append xs ys, continues-append xs ys)

-- The writer has promised no more than one verdict, and keeps a response back only if it has.
abbrev pub ToldOnce : Result (Filter × List HostCall) → ℕ → Type 0
ToldOnce (panic p) n = Unit {0}
ToldOnce (ok (f, log)) n = told log ≡ n

pub told-flush :
    (w : Writer) → IsSound w → told (flush true w) ≡ pending w + (if w.responded then 0 else 1)
told-flush w h = ground (arith, responses-flush w true, continues-flush w true h)

-- A closure that runs after the handler: what is told then makes up one verdict with what was told.
finish :
    (w : Writer) (f : Filter) (r : Result Step)
    → Keeps w r
    → ToldOnce
        (r >>= λ s. ok (record f { writer = some s.0 }, s.1 ++ flush true s.0))
        (pending w + (if w.responded then 0 else 1))
finish w f (panic p) k = tt
finish w f (ok (w', log)) k =
    ground (arith, told-append log (flush true w'), told-flush w' k.0, k.1, k.2, k.0)

pub run_and_flush-told :
    (calls : List Call) (w : Writer) (f : Filter)
    → IsSound w
    → ToldOnce (run_and_flush calls w f) (pending w + (if w.responded then 0 else 1))
unfolding run_and_flush
run_and_flush-told calls w f h = finish w f (run calls w) (run-Keeps calls w h)

abbrev pub goes_on : HeadersStatus → ℕ
goes_on HeadersStatus.continue = 1
goes_on _ = 0

-- The handler has started a goroutine, a callout or a stream.
abbrev pub is_async : Writer → Bool
is_async w = w.go_started || w.callout_started || w.stream_started

-- What a writer still owes the host.
abbrev pub outstanding : Writer → ℕ
outstanding w = pending w + (if w.responded then 0 else 1)

-- How `OnRequestHeaders` leaves a request: with its one verdict given, by a local response and Stop
-- or by Continue; or, after an asynchronous start, stopped and owing what has not been given.
abbrev pub Settled : Result (Filter × List HostCall × HeadersStatus) → Type 0
Settled (panic p) = Unit {0}
Settled (ok (f, log, st)) =
    (w : Writer) × (f.writer ≡ some w)
    × IsSound w
    × (if is_async w
        then (st ≡ HeadersStatus.stop) × (told log + outstanding w ≡ 1)
        else (told log + goes_on st ≡ 1) × (continues log ≡ 0))

module _ (f : Filter) (w : Writer) (log : List HostCall) where
  abbrev pub written : Filter
  written = record f { writer = some w }

  pub settle-async : is_async w ≡ true → settle f (w, log) ≡ ok (written, log, HeadersStatus.stop)
  unfolding settle
  settle-async e = ground (arith, e)

  pub settle-responded :
      is_async w ≡ false
      → w.responded ≡ true
      → settle f (w, log) ≡ ok (written, log, HeadersStatus.stop)
  unfolding settle
  settle-responded e r = ground (arith, e, r)

  pub settle-open :
      is_async w ≡ false
      → w.responded ≡ false
      → settle f (w, log) ≡ ok (written, log ++ flush false w, HeadersStatus.continue)
  unfolding settle
  settle-open e r = ground (arith, e, r)

settle-Settled :
    (f : Filter) (w w' : Writer) (log : List HostCall)
    → w.responded ≡ false
    → w.local_resp ≡ none
    → Keeps w (ok (w', log))
    → Settled (settle f (w', log))
settle-Settled f w w' log e n k = elim (Bool-cases (is_async w')) [
  | inl a ↦ rw (settle-async f w' log a) (w', refl, k.0, ground (arith, a, e, n, k.1, k.2))
  | inr a ↦ elim (Bool-cases w'.responded) [
    | inl r ↦
        rw (settle-responded f w' log a r)
          (w', refl, k.0, ground (arith, a, r, e, n, k.0, k.1, k.2))
    | inr r ↦ rw (settle-open f w' log a r) (
      w',
      refl,
      k.0,
      ground (
        arith,
        a,
        r,
        e,
        n,
        k.0,
        k.1,
        k.2,
        told-append log (flush false w'),
        continues-append log (flush false w'),
        responses-flush w' false,
        continues-flush w' false k.0,
      ),
    )
  ]
]

bind-Settled :
    (f : Filter) (w : Writer) (r : Result Step)
    → w.responded ≡ false
    → w.local_resp ≡ none
    → Keeps w r
    → Settled (r >>= settle f)
bind-Settled f w (panic p) e n k = tt
bind-Settled f w (ok (w', log)) e n k = settle-Settled f w w' log e n k

-- The writer that `OnRequestHeaders` hands to the handler.
abbrev pub fresh_writer : ℕ → Writer → Writer
fresh_writer handle pooled = record (reset handle pooled) { callout_cb = true; stream_cb = true }

handler-Settled :
    (f : Filter) (w : Writer) (req : Request) (h : Option HandlerFunc)
    → w.responded ≡ false
    → w.local_resp ≡ none
    → Settled (deref h >>= λ h. run (h w req) w >>= settle f)
handler-Settled f w req none e n = tt
handler-Settled f w req (some h) e n =
    bind-Settled f w (run (h w req) w) e n (run-Keeps (h w req) w ((λ _. n), (λ _. n)))

pub if_false {ℓ κ} :
    {A : Type ℓ} (P : A → Type κ) (b : Bool) (x y : A) → b ≡ false → P y → P (if b then x else y)
if_false P true x y e h = cc
if_false P false x y e h = h

pub deref-some {ℓ κ ι} :
    {A : Type ℓ} {B : Type κ} (P : Result B → Type ι) (o : Option A) (a : A) (k : A → Result B)
    → o ≡ some a
    → P (k a)
    → P (deref o >>= k)
deref-some P none a k e h = cc
deref-some P (some b) a k e h = subst (λ x. P (k x)) (sym (some-injective b a e)) h

pub on_request_headers-Settled :
    (headers : HeaderMap) (req : Request) (pooled : Writer) (f : Filter) (def : FilterDef)
    → f.handler ≡ some def
    → def.body_aware ≡ false
    → Settled (on_request_headers headers req pooled f)
unfolding on_request_headers reset
on_request_headers-Settled headers req pooled f def e b = deref-some Settled f.handler def _ e (
    if_false Settled def.body_aware _ _ b (
      handler-Settled
        (record f {
          req = some (request_reset headers f.handle f.name req);
          writer = some (fresh_writer f.handle pooled);
        })
        (fresh_writer f.handle pooled) (request_reset headers f.handle f.name req) def.handler refl
        refl))
