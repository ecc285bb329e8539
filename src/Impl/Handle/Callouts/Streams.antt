-- ===== src/Impl/Handle/Callouts/Streams.antt =====
-- The callbacks of a stream of abi_impl/internal.go: none runs after the stream's end.
use luwes.Base.{ℕ, ◌≡◌, sym, ap, ◌∙◌, Bool, true, false, none, List, arith, ◌==◌, ==_iff}
use luwes.Abi.Hooks.{CalloutHook}
use luwes.Impl.GoMap.{GoMap, find, delete, find-delete}
use luwes.Impl.Handle.{Reference, Handle}
use luwes.Impl.Handle.Hooks.{on_callout_hook, stream_event, stream_end}
use luwes.Impl.Handle.Trace.{Action, act_all}
use luwes.Impl.Handle.Callouts.{starts_ever}
use luwes.Impl.Handle.Callouts.Once.{act_all-none}

-- The hook is one on the end of the stream.
abbrev pub ends_stream : ℕ → CalloutHook → Bool
ends_stream id (CalloutHook.http_stream_complete other) = id == other
ends_stream id (CalloutHook.http_stream_reset other reason) = id == other
ends_stream id hook = false

-- The hook is one on the stream.
abbrev pub is_of_stream : ℕ → CalloutHook → Bool
is_of_stream id (CalloutHook.http_callout_done other res headers chunks) = false
is_of_stream id (CalloutHook.http_stream_headers other headers end_of_stream) = id == other
is_of_stream id (CalloutHook.http_stream_data other chunks end_of_stream) = id == other
is_of_stream id (CalloutHook.http_stream_trailers other trailers) = id == other
is_of_stream id (CalloutHook.http_stream_complete other) = id == other
is_of_stream id (CalloutHook.http_stream_reset other reason) = id == other

absent :
    (id other : ℕ) (m : GoMap Reference)
    → (id == other) ≡ true
    → find id m ≡ none
    → find other m ≡ none
absent id other m e q = ap (λ k. find k m) (sym ((==_iff id other).0 e)) ∙ q

deleted :
    (id other : ℕ) (m : GoMap Reference) → (id == other) ≡ true → find id (delete other m) ≡ none
deleted id other m e =
    ap (λ k. find k (delete other m)) ((==_iff id other).0 e) ∙ find-delete other m

stream-none :
    (id : ℕ) (hook : CalloutHook) (h : Handle)
    → is_of_stream id hook ≡ true
    → find id h.stream_callbacks ≡ none
    → (on_callout_hook hook h).0 ≡ none
unfolding on_callout_hook stream_event stream_end
stream-none id (CalloutHook.http_callout_done other res headers chunks) h e q = ground (arith, e)
stream-none id (CalloutHook.http_stream_headers other headers end_of_stream) h e q =
    ground (arith, absent id other h.stream_callbacks e q)
stream-none id (CalloutHook.http_stream_data other chunks end_of_stream) h e q =
    ground (arith, absent id other h.stream_callbacks e q)
stream-none id (CalloutHook.http_stream_trailers other trailers) h e q =
    ground (arith, absent id other h.stream_callbacks e q)
stream-none id (CalloutHook.http_stream_complete other) h e q =
    ground (arith, absent id other h.stream_callbacks e q)
stream-none id (CalloutHook.http_stream_reset other reason) h e q =
    ground (arith, absent id other h.stream_callbacks e q)

ended-none :
    (id : ℕ) (hook : CalloutHook) (h : Handle)
    → h.stream_completed ≡ false
    → ends_stream id hook ≡ true
    → find id (on_callout_hook hook h).1.stream_callbacks ≡ none
unfolding on_callout_hook stream_end
ended-none id (CalloutHook.http_callout_done other res headers chunks) h open_stream e =
    ground (arith, e)
ended-none id (CalloutHook.http_stream_headers other headers end_of_stream) h open_stream e =
    ground (arith, e)
ended-none id (CalloutHook.http_stream_data other chunks end_of_stream) h open_stream e =
    ground (arith, e)
ended-none id (CalloutHook.http_stream_trailers other trailers) h open_stream e = ground (arith, e)
ended-none id (CalloutHook.http_stream_complete other) h open_stream e = ground (
  arith,
  open_stream,
  deleted id other h.stream_callbacks e,
  absent id other h.stream_callbacks e,
)
ended-none id (CalloutHook.http_stream_reset other reason) h open_stream e = ground (
  arith,
  open_stream,
  deleted id other h.stream_callbacks e,
  absent id other h.stream_callbacks e,
)

-- After the hook on the completion or the reset of a stream, no hook on the stream runs a callback,
-- whatever hooks and operations come in between, unless the host starts another under the id.
pub http_stream_end_lem :
    (id : ℕ) (ending hook : CalloutHook) (h : Handle) (actions : List Action)
    → h.stream_completed ≡ false
    → ends_stream id ending ≡ true
    → starts_ever id actions ≡ false
    → is_of_stream id hook ≡ true
    → (on_callout_hook hook (act_all actions (on_callout_hook ending h).1)).0 ≡ none
http_stream_end_lem id ending hook h actions open_stream e s o =
    stream-none id hook (act_all actions (on_callout_hook ending h).1) o (
      (act_all-none id actions (on_callout_hook ending h).1 s).1
        (ended-none id ending h open_stream e))
