-- ===== src/Impl/Handle/Keeps.antt =====
-- What the operations and the hooks of a handle keep.
use luwes.Base.{ℕ, ◌≡◌, refl, ◌∙◌, true, none, List, [], ◌∷◌, arith}
use luwes.Abi.Common.{HttpCalloutInitResult}
use luwes.Abi.Hooks.{StreamHook, CalloutHook, ScheduledHook, ReplyHook}
use luwes.Impl.Handle.{
  Reference, Handle, Operation, operate, operate_all, callout_answered, stream_answered,
  get_scheduler, schedule_task,
}
use luwes.Impl.Handle.Hooks.{
  destroyed, on_stream_hook, on_scheduled_hook, on_callout_hook, on_reply_hook, callout_done,
  stream_event, stream_end,
}
use luwes.Impl.Handle.Trace.{Action, act, act_all}

-- The plugin and the mark of a completed stream; the mark of a local response is not taken back.
abbrev pub Same : Handle → Handle → Type 0
Same h' h =
    (h'.stream_completed ≡ h.stream_completed)
    × (h'.plugin ≡ h.plugin)
    × (h.local_response_sent ≡ true → h'.local_response_sent ≡ true)

callout_answered-Same :
    (result : HttpCalloutInitResult) (callout_id : ℕ) (cb : Reference) (h : Handle)
    → Same (callout_answered result callout_id cb h).1 h
unfolding callout_answered
callout_answered-Same HttpCalloutInitResult.success callout_id cb h = (refl, refl, λ e. e)
callout_answered-Same HttpCalloutInitResult.missing_required_headers callout_id cb h =
    (refl, refl, λ e. e)
callout_answered-Same HttpCalloutInitResult.cluster_not_found callout_id cb h = (refl, refl, λ e. e)
callout_answered-Same HttpCalloutInitResult.duplicate_callout_id callout_id cb h =
    (refl, refl, λ e. e)
callout_answered-Same HttpCalloutInitResult.cannot_create_request callout_id cb h =
    (refl, refl, λ e. e)

stream_answered-Same :
    (result : HttpCalloutInitResult) (stream_id : ℕ) (cb : Reference) (h : Handle)
    → Same (stream_answered result stream_id cb h).1 h
unfolding stream_answered
stream_answered-Same HttpCalloutInitResult.success stream_id cb h = (refl, refl, λ e. e)
stream_answered-Same HttpCalloutInitResult.missing_required_headers stream_id cb h =
    (refl, refl, λ e. e)
stream_answered-Same HttpCalloutInitResult.cluster_not_found stream_id cb h = (refl, refl, λ e. e)
stream_answered-Same HttpCalloutInitResult.duplicate_callout_id stream_id cb h =
    (refl, refl, λ e. e)
stream_answered-Same HttpCalloutInitResult.cannot_create_request stream_id cb h =
    (refl, refl, λ e. e)

operate-Same : (op : Operation) (h : Handle) → Same (operate op h) h
unfolding operate get_scheduler schedule_task
operate-Same (Operation.http_callout result callout_id cb) h =
    callout_answered-Same result callout_id cb h
operate-Same (Operation.start_http_stream result stream_id cb) h =
    stream_answered-Same result stream_id cb h
operate-Same Operation.send_local_response h = (refl, refl, λ e. refl)
operate-Same (Operation.set_downstream_watermark_callbacks cbs) h = (refl, refl, λ e. e)
operate-Same Operation.clear_downstream_watermark_callbacks h = (refl, refl, λ e. e)
operate-Same (Operation.ask_scheduler scheduler_ptr) h =
    (ground arith, ground arith, λ e. ground (arith, e))
operate-Same (Operation.schedule_one task) h = (ground arith, ground arith, λ e. ground (arith, e))
operate-Same (Operation.record_shared_data pointer) h = (refl, refl, λ e. e)

operate_all-Same : (ops : List Operation) (h : Handle) → Same (operate_all ops h) h
unfolding operate_all
operate_all-Same [] h = (refl, refl, λ e. e)
operate_all-Same (op ∷ ops) h =
    let (c, p, l) = operate-Same op h in
    let (c', p', l') = operate_all-Same ops (operate op h) in (c' ∙ c, p' ∙ p, λ e. l' (l e))

-- A completed stream stays one, and a handle without a plugin gets none.
abbrev pub Ends : Handle → Handle → Type 0
Ends h' h =
    (h.stream_completed ≡ true → h'.stream_completed ≡ true)
    × (h.plugin ≡ none → h'.plugin ≡ none)
    × (h.local_response_sent ≡ true → h'.local_response_sent ≡ true)

destroyed-Ends : (during : List Operation) (h : Handle) → Ends (destroyed during h).1 h
unfolding destroyed
destroyed-Ends during h =
    let (c, p, l) = operate_all-Same during (record h { stream_destoried = true }) in
    (λ e. ground (arith, c, e), λ e. ground (arith, e), λ e. ground (arith, l, e))

on_stream_hook-Ends :
    (hook : StreamHook) (during : List Operation) (h : Handle)
    → Ends (on_stream_hook hook during h).1 h
unfolding on_stream_hook
on_stream_hook-Ends (StreamHook.request_headers end_of_stream) during h = (λ e. e, λ e. e, λ e. e)
on_stream_hook-Ends (StreamHook.request_body end_of_stream) during h = (λ e. e, λ e. e, λ e. e)
on_stream_hook-Ends StreamHook.request_trailers during h = (λ e. e, λ e. e, λ e. e)
on_stream_hook-Ends (StreamHook.response_headers end_of_stream) during h = (λ e. e, λ e. e, λ e. e)
on_stream_hook-Ends (StreamHook.response_body end_of_stream) during h = (λ e. e, λ e. e, λ e. e)
on_stream_hook-Ends StreamHook.response_trailers during h = (λ e. e, λ e. e, λ e. e)
on_stream_hook-Ends StreamHook.stream_complete during h =
    (λ e. ground (arith, e), λ e. ground (arith, e), λ e. ground (arith, e))
on_stream_hook-Ends StreamHook.destroy during h = destroyed-Ends during h

Same-Ends : (h' h : Handle) → Same h' h → Ends h' h
Same-Ends h' h (c, p, l) = (λ e. c ∙ e, λ e. p ∙ e, l)

on_scheduled_hook-Same : (hook : ScheduledHook) (h : Handle) → Same (on_scheduled_hook hook h).1 h
unfolding on_scheduled_hook
on_scheduled_hook-Same (ScheduledHook.scheduled task_id) h =
    (ground arith, ground arith, λ e. ground (arith, e))

on_callout_hook-Same : (hook : CalloutHook) (h : Handle) → Same (on_callout_hook hook h).1 h
unfolding on_callout_hook callout_done stream_event stream_end
on_callout_hook-Same (CalloutHook.http_callout_done id res headers chunks) h =
    (ground arith, ground arith, λ e. ground (arith, e))
on_callout_hook-Same (CalloutHook.http_stream_headers id headers end_of_stream) h =
    (ground arith, ground arith, λ e. ground (arith, e))
on_callout_hook-Same (CalloutHook.http_stream_data id chunks end_of_stream) h =
    (ground arith, ground arith, λ e. ground (arith, e))
on_callout_hook-Same (CalloutHook.http_stream_trailers id trailers) h =
    (ground arith, ground arith, λ e. ground (arith, e))
on_callout_hook-Same (CalloutHook.http_stream_complete id) h =
    (ground arith, ground arith, λ e. ground (arith, e))
on_callout_hook-Same (CalloutHook.http_stream_reset id reason) h =
    (ground arith, ground arith, λ e. ground (arith, e))

on_reply_hook-Same : (hook : ReplyHook) (h : Handle) → Same (on_reply_hook hook h).1 h
unfolding on_reply_hook
on_reply_hook-Same ReplyHook.downstream_above_write_buffer_high_watermark h = (refl, refl, λ e. e)
on_reply_hook-Same ReplyHook.downstream_below_write_buffer_low_watermark h = (refl, refl, λ e. e)
on_reply_hook-Same (ReplyHook.local_reply response_code details reset_imminent) h =
    (refl, refl, λ e. e)

pub act-Ends : (a : Action) (h : Handle) → Ends (act a h).1 h
unfolding act
act-Ends (Action.operation op) h = Same-Ends (operate op h) h (operate-Same op h)
act-Ends (Action.stream_hook hook during) h = on_stream_hook-Ends hook during h
act-Ends (Action.scheduled_hook hook) h =
    Same-Ends (on_scheduled_hook hook h).1 h (on_scheduled_hook-Same hook h)
act-Ends (Action.callout_hook hook) h =
    Same-Ends (on_callout_hook hook h).1 h (on_callout_hook-Same hook h)
act-Ends (Action.reply_hook hook) h =
    Same-Ends (on_reply_hook hook h).1 h (on_reply_hook-Same hook h)

pub act_all-Ends : (actions : List Action) (h : Handle) → Ends (act_all actions h) h
unfolding act_all
act_all-Ends [] h = (λ e. e, λ e. e, λ e. e)
act_all-Ends (a ∷ actions) h =
    let (c, p, l) = act-Ends a h in
    let (c', p', l') = act_all-Ends actions (act a h).1 in
    (λ e. c' (c e), λ e. p' (p e), λ e. l' (l e))
