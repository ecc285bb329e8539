-- ===== src/Impl/Handle/Callouts/Once.antt =====
-- A callback of a handle of abi_impl/internal.go runs once: it is kept until its hook, and gone after
-- it.
use luwes.Base.{ℕ, ◌≡◌, refl, ◌∙◌, Bool, false, ◌||◌, none, some, List, [], ◌∷◌, arith, ◌==◌}
use luwes.Abi.Buffer.{Buffer, HttpHeader}
use luwes.Abi.Common.{HttpCalloutInitResult, HttpCalloutResult}
use luwes.Abi.Hooks.{StreamHook, CalloutHook, ScheduledHook, ReplyHook}
use luwes.Impl.GoMap.{find, find-put, find-delete, find-delete_other, find-delete-none}
use luwes.Impl.Handle.{Reference, Handle, Operation, callout_answered}
use luwes.Impl.Handle.Hooks.{
  Invocation, on_stream_hook, on_scheduled_hook, on_callout_hook, on_reply_hook, callout_done,
  stream_event, stream_end,
}
use luwes.Impl.Handle.Trace.{Action, act, act_all}
use luwes.Impl.Handle.Callouts.{
  Kept, starts_in, starts_ever, starts_any, split_or, distinct, operate-Kept, destroyed-Kept,
}

-- The hook on the end of a callout under the id.
abbrev pub finishes : ℕ → Action → Bool
finishes id (Action.callout_hook (CalloutHook.http_callout_done other res headers chunks)) =
    id == other
finishes id a = false

abbrev pub finishes_ever : ℕ → List Action → Bool
finishes_ever id [] = false
finishes_ever id (a ∷ actions) = finishes id a || finishes_ever id actions

stream_hook-Kept :
    (id : ℕ) (hook : StreamHook) (during : List Operation) (h : Handle)
    → starts_any id during ≡ false
    → Kept id (on_stream_hook hook during h).1 h
unfolding on_stream_hook
stream_hook-Kept id (StreamHook.request_headers end_of_stream) during h e = (refl, refl)
stream_hook-Kept id (StreamHook.request_body end_of_stream) during h e = (refl, refl)
stream_hook-Kept id StreamHook.request_trailers during h e = (refl, refl)
stream_hook-Kept id (StreamHook.response_headers end_of_stream) during h e = (refl, refl)
stream_hook-Kept id (StreamHook.response_body end_of_stream) during h e = (refl, refl)
stream_hook-Kept id StreamHook.response_trailers during h e = (refl, refl)
stream_hook-Kept id StreamHook.stream_complete during h e = (ground arith, ground arith)
stream_hook-Kept id StreamHook.destroy during h e = destroyed-Kept id during h e

scheduled_hook-Kept :
    (id : ℕ) (hook : ScheduledHook) (h : Handle) → Kept id (on_scheduled_hook hook h).1 h
unfolding on_scheduled_hook
scheduled_hook-Kept id (ScheduledHook.scheduled task_id) h = (ground arith, ground arith)

reply_hook-Kept : (id : ℕ) (hook : ReplyHook) (h : Handle) → Kept id (on_reply_hook hook h).1 h
unfolding on_reply_hook
reply_hook-Kept id ReplyHook.downstream_above_write_buffer_high_watermark h = (refl, refl)
reply_hook-Kept id ReplyHook.downstream_below_write_buffer_low_watermark h = (refl, refl)
reply_hook-Kept id (ReplyHook.local_reply response_code details reset_imminent) h = (refl, refl)

callout_hook-callouts :
    (id : ℕ) (hook : CalloutHook) (h : Handle)
    → finishes id (Action.callout_hook hook) ≡ false
    → find id (on_callout_hook hook h).1.callout_callbacks ≡ find id h.callout_callbacks
unfolding on_callout_hook callout_done stream_event stream_end
callout_hook-callouts id (CalloutHook.http_callout_done other res headers chunks) h e =
    ground (arith, find-delete_other other id h.callout_callbacks (distinct id other e))
callout_hook-callouts id (CalloutHook.http_stream_headers other headers end_of_stream) h e =
    ground arith
callout_hook-callouts id (CalloutHook.http_stream_data other chunks end_of_stream) h e =
    ground arith
callout_hook-callouts id (CalloutHook.http_stream_trailers other trailers) h e = ground arith
callout_hook-callouts id (CalloutHook.http_stream_complete other) h e = ground arith
callout_hook-callouts id (CalloutHook.http_stream_reset other reason) h e = ground arith

callout_hook-none :
    (id : ℕ) (hook : CalloutHook) (h : Handle)
    → (find id h.callout_callbacks ≡ none
        → find id (on_callout_hook hook h).1.callout_callbacks ≡ none)
      × (find id h.stream_callbacks ≡ none
          → find id (on_callout_hook hook h).1.stream_callbacks ≡ none)
unfolding on_callout_hook callout_done stream_event stream_end
callout_hook-none id (CalloutHook.http_callout_done other res headers chunks) h = (
  λ e. ground (arith, e, find-delete-none other id h.callout_callbacks e),
  λ e. ground (arith, e),
)
callout_hook-none id (CalloutHook.http_stream_headers other headers end_of_stream) h =
    (λ e. ground (arith, e), λ e. ground (arith, e))
callout_hook-none id (CalloutHook.http_stream_data other chunks end_of_stream) h =
    (λ e. ground (arith, e), λ e. ground (arith, e))
callout_hook-none id (CalloutHook.http_stream_trailers other trailers) h =
    (λ e. ground (arith, e), λ e. ground (arith, e))
callout_hook-none id (CalloutHook.http_stream_complete other) h =
    (λ e. ground (arith, e), λ e. ground (arith, e, find-delete-none other id h.stream_callbacks e))
callout_hook-none id (CalloutHook.http_stream_reset other reason) h =
    (λ e. ground (arith, e), λ e. ground (arith, e, find-delete-none other id h.stream_callbacks e))

act-callouts :
    (id : ℕ) (a : Action) (h : Handle)
    → starts_in id a ≡ false
    → finishes id a ≡ false
    → find id (act a h).1.callout_callbacks ≡ find id h.callout_callbacks
unfolding act
act-callouts id (Action.operation op) h e f = (operate-Kept id op h e).0
act-callouts id (Action.stream_hook hook during) h e f = (stream_hook-Kept id hook during h e).0
act-callouts id (Action.scheduled_hook hook) h e f = (scheduled_hook-Kept id hook h).0
act-callouts id (Action.callout_hook hook) h e f = callout_hook-callouts id hook h f
act-callouts id (Action.reply_hook hook) h e f = (reply_hook-Kept id hook h).0

-- Nothing is kept under the id, of callouts or of streams.
act-none :
    (id : ℕ) (a : Action) (h : Handle)
    → starts_in id a ≡ false
    → (find id h.callout_callbacks ≡ none → find id (act a h).1.callout_callbacks ≡ none)
      × (find id h.stream_callbacks ≡ none → find id (act a h).1.stream_callbacks ≡ none)
unfolding act
act-none id (Action.operation op) h e =
    let (c, d) = operate-Kept id op h e in (λ q. c ∙ q, λ q. d ∙ q)
act-none id (Action.stream_hook hook during) h e =
    let (c, d) = stream_hook-Kept id hook during h e in (λ q. c ∙ q, λ q. d ∙ q)
act-none id (Action.scheduled_hook hook) h e =
    let (c, d) = scheduled_hook-Kept id hook h in (λ q. c ∙ q, λ q. d ∙ q)
act-none id (Action.callout_hook hook) h e = callout_hook-none id hook h
act-none id (Action.reply_hook hook) h e =
    let (c, d) = reply_hook-Kept id hook h in (λ q. c ∙ q, λ q. d ∙ q)

act_all-callouts :
    (id : ℕ) (actions : List Action) (h : Handle)
    → starts_ever id actions ≡ false
    → finishes_ever id actions ≡ false
    → find id (act_all actions h).callout_callbacks ≡ find id h.callout_callbacks
unfolding act_all
act_all-callouts id [] h e f = refl
act_all-callouts id (a ∷ actions) h e f =
    let (e1, e2) = split_or (starts_in id a) (starts_ever id actions) e in
    let (f1, f2) = split_or (finishes id a) (finishes_ever id actions) f in
    act_all-callouts id actions (act a h).1 e2 f2 ∙ act-callouts id a h e1 f1

pub act_all-none :
    (id : ℕ) (actions : List Action) (h : Handle)
    → starts_ever id actions ≡ false
    → (find id h.callout_callbacks ≡ none → find id (act_all actions h).callout_callbacks ≡ none)
      × (find id h.stream_callbacks ≡ none → find id (act_all actions h).stream_callbacks ≡ none)
unfolding act_all
act_all-none id [] h e = (λ q. q, λ q. q)
act_all-none id (a ∷ actions) h e =
    let (e1, e2) = split_or (starts_in id a) (starts_ever id actions) e in
    let (c, d) = act-none id a h e1 in
    let (c', d') = act_all-none id actions (act a h).1 e2 in (λ q. c' (c q), λ q. d' (d q))

http_callout_runs :
    (id : ℕ) (cb : Reference) (h : Handle) (actions : List Action) (res : HttpCalloutResult)
    (headers : List HttpHeader) (chunks : List Buffer)
    → starts_ever id actions ≡ false
    → finishes_ever id actions ≡ false
    → (act_all actions (callout_answered HttpCalloutInitResult.success id cb h).1).stream_completed
      ≡ false
    → (on_callout_hook
        (CalloutHook.http_callout_done id res headers chunks)
        (act_all actions (callout_answered HttpCalloutInitResult.success id cb h).1)).0
      ≡ some (Invocation.on_http_callout_done cb id res headers chunks)
unfolding on_callout_hook callout_done callout_answered
http_callout_runs id cb h actions res headers chunks e f open_stream =
    ground (arith, open_stream, kept)
  where
    kept :
        find id
          (act_all actions
            (callout_answered HttpCalloutInitResult.success id cb h).1).callout_callbacks
        ≡ some cb
    kept =
        act_all-callouts id actions (callout_answered HttpCalloutInitResult.success id cb h).1 e f
        ∙ find-put id cb h.callout_callbacks

http_callout_done_once :
    (id : ℕ) (h : Handle) (actions : List Action) (res : HttpCalloutResult)
    (headers : List HttpHeader) (chunks : List Buffer)
    → h.stream_completed ≡ false
    → starts_ever id actions ≡ false
    → (on_callout_hook (CalloutHook.http_callout_done id res headers chunks) (
        act_all actions
          (on_callout_hook (CalloutHook.http_callout_done id res headers chunks) h).1)).0
      ≡ none
unfolding on_callout_hook callout_done
http_callout_done_once id h actions res headers chunks open_stream e = ground (arith, gone)
  where
    after : Handle
    after = (on_callout_hook (CalloutHook.http_callout_done id res headers chunks) h).1

    deleted : find id after.callout_callbacks ≡ none
    deleted = ground (arith, open_stream, find-delete id h.callout_callbacks)

    gone : find id (act_all actions after).callout_callbacks ≡ none
    gone = (act_all-none id actions after e).0 deleted

-- A callout that the host has started runs its callback exactly once, if the host starts nothing
-- else under its id: the first hook on its end runs it with the host's answer, whatever hooks and
-- operations came before, unless the stream is complete by then, and a later hook on the id runs
-- nothing, whatever comes in between.
pub http_callout_lem :
    (id : ℕ) (cb : Reference) (h : Handle) (actions later : List Action) (res : HttpCalloutResult)
    (headers : List HttpHeader) (chunks : List Buffer)
    → starts_ever id actions ≡ false
    → finishes_ever id actions ≡ false
    → starts_ever id later ≡ false
    → (act_all actions (callout_answered HttpCalloutInitResult.success id cb h).1).stream_completed
      ≡ false
    → ((on_callout_hook
          (CalloutHook.http_callout_done id res headers chunks)
          (act_all actions (callout_answered HttpCalloutInitResult.success id cb h).1)).0
        ≡ some (Invocation.on_http_callout_done cb id res headers chunks))
      × ((on_callout_hook (CalloutHook.http_callout_done id res headers chunks) (
            act_all later
              (on_callout_hook
                (CalloutHook.http_callout_done id res headers chunks)
                (act_all actions (callout_answered HttpCalloutInitResult.success id cb h).1)).1)).0
          ≡ none)
http_callout_lem id cb h actions later res headers chunks e f l open_stream = (
  http_callout_runs id cb h actions res headers chunks e f open_stream,
  http_callout_done_once id
      (act_all actions (callout_answered HttpCalloutInitResult.success id cb h).1) later res headers
      chunks open_stream l,
)
