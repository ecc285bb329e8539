-- ===== src/Sahl/Writer/Starts.antt =====
-- Where the writer does not panic: at most one asynchronous start in a request.
use luwes.Base.{ℕ, ◌+◌, ◌≤◌, ◌≡◌, true, false, List, [], ◌∷◌, ◌++◌, arith, if◌then◌else◌}
use luwes.Sahl.Host.{Call}
use luwes.Sahl.Writer.{Writer, Result, ok, panic, Step, ◌>>=◌, perform, run}

-- The asynchronous starts that a writer has seen, and those among the calls of a handler.
abbrev pub started : Writer → ℕ
started w =
    (if w.go_started then 1 else 0)
    + (if w.callout_started then 1 else 0)
    + (if w.stream_started then 1 else 0)

abbrev pub starts : List Call → ℕ
starts [] = 0
starts (Call.go ∷ calls) = 1 + starts calls
starts (Call.http_callout r i f ∷ calls) = 1 + starts calls
starts (Call.http_stream r i f ∷ calls) = 1 + starts calls
starts (_ ∷ calls) = starts calls

-- It returns, with at most so many starts.
abbrev pub Returns : ℕ → Result Step → Type 0
Returns n (panic p) = true ≡ false
Returns n (ok (w, log)) = started w ≤ n

starts-cons : (c : Call) (calls : List Call) → starts (c ∷ calls) ≡ starts (c ∷ []) + starts calls
starts-cons Call.go calls = omega arith
starts-cons (Call.http_callout r i f) calls = omega arith
starts-cons (Call.http_stream r i f) calls = omega arith
starts-cons _ calls = omega arith

perform-Returns :
    (c : Call) (w : Writer)
    → started w + starts (c ∷ []) ≤ 1
    → Returns (started w + starts (c ∷ [])) (perform c w)
unfolding perform
perform-Returns _ w h = ground (arith, h)

Returns-bind :
    (m n : ℕ) (r : Result Step) (next : Writer → Result Step)
    → Returns m r
    → ((w : Writer) → started w ≤ m → Returns n (next w))
    → Returns n (r >>= λ s. next s.0 >>= λ t. ok (t.0, s.1 ++ t.1))
Returns-bind m n (panic p) next h k = cc
Returns-bind m n (ok (w, log)) next h k = keep (next w) (k w h)
  where
    keep : (r : Result Step) → Returns n r → Returns n (r >>= λ t. ok (t.0, log ++ t.1))
    keep (panic p) e = e
    keep (ok (w', log')) e = e

-- Calls with at most one asynchronous start, those before them counted, all return.
pub run-Returns :
    (calls : List Call) (w : Writer) → started w + starts calls ≤ 1 → Returns 1 (run calls w)
unfolding run
run-Returns [] w h = omega (arith, h)
run-Returns (c ∷ calls) w h =
    Returns-bind (started w + starts (c ∷ [])) 1 (perform c w) (run calls)
      (perform-Returns c w (omega (arith, h, starts-cons c calls)))
      (λ w' k. run-Returns calls w' (omega (arith, h, k, starts-cons c calls)))
