-- ===== src/Sahl/Filter/Reuse.antt =====
-- The pools: a filter, a request and a writer that come back from them carry nothing over.
use luwes.Base.{
  ℕ, ◌≤◌, ◌≡◌, refl, Bool, true, false, not, ◌||◌, ◌⊎◌, inl, inr, some, List, arith, if◌then◌else◌,
}
use luwes.Base.Bytes.{Bytes}
use luwes.Shared.Api.{HeadersStatus}
use luwes.Sahl.Host.{HostCall}
use luwes.Sahl.Request.{HeaderMap, Request, request_reset, header_reset}
use luwes.Sahl.Writer.{Writer, Result, ok, panic, Step, ◌>>=◌, run, reset}
use luwes.Sahl.Writer.Starts.{starts, Returns, run-Returns}
use luwes.Sahl.Filter.{
  Filter, FilterDef, HandlerFunc, new_sahl_filter, on_destroy, on_request_headers, settle, deref,
}
use luwes.Sahl.Filter.Verdict.{fresh_writer, deref-some}

-- A stream on a filter that an earlier stream has destroyed, with pooled requests and writers of
-- any content, runs as on any other such filter, request and writer: none of the two earlier
-- streams can be told from its calls, its status or the filter after it.
pub reuse :
    (name : Bytes) (def : FilterDef) (handle : ℕ) (headers : HeaderMap) (f g : Filter)
    (req req' : Request) (w w' : Writer)
    → (new_sahl_filter name def handle (on_destroy f).0 >>= on_request_headers headers req w)
      ≡ (new_sahl_filter name def handle (on_destroy g).0 >>= on_request_headers headers req' w')
unfolding new_sahl_filter on_destroy on_request_headers request_reset header_reset reset
reuse name def handle headers f g req req' w w' = refl

abbrev pub HasReturned : Result (Filter × List HostCall × HeadersStatus) → Type 0
HasReturned r = (s : Filter × List HostCall × HeadersStatus) × (r ≡ ok s)

if_true {ℓ κ} :
    {A : Type ℓ} (P : A → Type κ) (b : Bool) (x y : A) → b ≡ true → P x → P (if b then x else y)
if_true P true x y e h = h
if_true P false x y e h = cc

both :
    (b : Bool) (r s : Result (Filter × List HostCall × HeadersStatus))
    → HasReturned r
    → HasReturned s
    → HasReturned (if b then r else s)
both true r s h k = h
both false r s h k = k

settle-HasReturned : (f : Filter) (s : Step) → HasReturned (settle f s)
unfolding settle
settle-HasReturned f s =
    both (s.0.go_started || s.0.callout_started || s.0.stream_started) _ _ (_, refl)
      (both (not s.0.responded) _ _ (_, refl) (_, refl))

bind-HasReturned : (f : Filter) (r : Result Step) → Returns 1 r → HasReturned (r >>= settle f)
bind-HasReturned f (panic p) h = cc
bind-HasReturned f (ok s) h = settle-HasReturned f s

-- What lets `OnRequestHeaders` return: the filter waits for the body, or it has a handler that
-- starts at most one goroutine, callout or stream.
abbrev pub IsServed : FilterDef → Writer → Request → Type 0
IsServed def w req =
    (def.body_aware ≡ true) ⊎ ((h : HandlerFunc) × (def.handler ≡ some h) × (starts (h w req) ≤ 1))

-- The two ways of `OnRequestHeaders`, by the test of the flag.
branch-HasReturned :
    (f : Filter) (def : FilterDef) (handle : ℕ) (pooled : Writer) (req : Request)
    (waiting : Filter × List HostCall × HeadersStatus)
    → IsServed def (fresh_writer handle pooled) req
    → HasReturned (
        if def.body_aware
        then ok waiting
        else deref def.handler >>= λ h.
            run (h (fresh_writer handle pooled) req) (fresh_writer handle pooled) >>= settle f)
unfolding reset
branch-HasReturned f def handle pooled req waiting (inl aware) =
    if_true HasReturned def.body_aware _ _ aware (_, refl)
branch-HasReturned f def handle pooled req waiting (inr (h, e, k)) =
    let w = fresh_writer handle pooled in
    both def.body_aware _ _ (_, refl)
      (deref-some HasReturned def.handler h _ e
        (bind-HasReturned f (run (h w req) w) (run-Returns (h w req) w (omega (arith, k)))))

-- Once `OnDestroy` has run on a filter, taking it from the pool never panics, under any name and
-- definition; and `OnRequestHeaders` on it then returns if the definition waits for the body, or
-- has a handler that starts at most one goroutine, callout or stream.
pub request_returns :
    (name other_name : Bytes) (def other : FilterDef) (handle : ℕ) (headers : HeaderMap)
    (f : Filter) (req : Request) (w : Writer)
    → IsServed def (fresh_writer handle w) (request_reset headers handle name req)
    → ((g : Filter) × (new_sahl_filter other_name other handle (on_destroy f).0 ≡ ok g))
      × HasReturned
          (new_sahl_filter name def handle (on_destroy f).0 >>= on_request_headers headers req w)
unfolding new_sahl_filter on_destroy on_request_headers reset
request_returns name other_name def other handle headers f req w served = (
  (_, refl),
  branch-HasReturned taken def handle w (request_reset headers handle name req) _ served,
)
  where
    taken : Filter
    taken = record f {
      name = name;
      handler = some def;
      handle = handle;
      req = some (request_reset headers handle name req);
      writer = some (fresh_writer handle w);
      resp_state = (on_destroy f).0.resp_state;
      body_done = false;
      stream_done = false;
    }
