-- ===== src/Impl/Handle/Quiet.antt =====
-- What a hook of abi_impl/internal.go does not run on a handle that is completed, has no plugin or
-- has sent a local response.
use luwes.Base.{
  ◌≡◌, refl, ap, ◌∙◌, Bool, true, false, not, ◌||◌, Option, none, some, List, [], ◌∷◌, arith,
}
use luwes.Abi.Hooks.{StreamHook, CalloutHook, ScheduledHook, ReplyHook}
use luwes.Impl.Handle.{Handle}
use luwes.Impl.Handle.Hooks.{
  Invocation, call_plugin, call_on_response, destroyed, on_stream_hook, on_scheduled_hook,
  on_callout_hook, on_reply_hook, callout_done, stream_event, stream_end, call_watermark,
}
use luwes.Impl.Handle.Trace.{Action, act, invoked}

abbrev pub any {ℓ} : {A : Type ℓ} → (A → Bool) → List A → Bool
any f [] = false
any f (a ∷ l) = f a || any f l

-- A method of the plugin, as opposed to a task or a method of a callback object.
abbrev pub is_method : Invocation → Bool
is_method (Invocation.on_request_headers p hm end_of_stream) = true
is_method (Invocation.on_request_body p body end_of_stream) = true
is_method (Invocation.on_request_trailers p hm) = true
is_method (Invocation.on_response_headers p hm end_of_stream) = true
is_method (Invocation.on_response_body p body end_of_stream) = true
is_method (Invocation.on_response_trailers p hm) = true
is_method (Invocation.on_stream_complete p) = true
is_method (Invocation.on_destroy p) = true
is_method (Invocation.on_local_reply p code details reset_imminent) = true
is_method _ = false

abbrev pub runs_method : Option Invocation → Bool
runs_method none = false
runs_method (some i) = is_method i

abbrev pub runs_callback : Option Invocation → Bool
runs_callback none = false
runs_callback (some i) = not (is_method i)

pub act_completed :
    (a : Action) (h : Handle) → h.stream_completed ≡ true → runs_callback (act a h).0 ≡ false
unfolding act on_stream_hook on_scheduled_hook on_callout_hook on_reply_hook destroyed call_plugin
    call_on_response call_watermark
act_completed (Action.operation op) h e = refl
act_completed (Action.stream_hook (StreamHook.request_headers end_of_stream) during) h e =
    ground (arith, e)
act_completed (Action.stream_hook (StreamHook.request_body end_of_stream) during) h e =
    ground (arith, e)
act_completed (Action.stream_hook StreamHook.request_trailers during) h e = ground (arith, e)
act_completed (Action.stream_hook (StreamHook.response_headers end_of_stream) during) h e =
    ground (arith, e)
act_completed (Action.stream_hook (StreamHook.response_body end_of_stream) during) h e =
    ground (arith, e)
act_completed (Action.stream_hook StreamHook.response_trailers during) h e = ground (arith, e)
act_completed (Action.stream_hook StreamHook.stream_complete during) h e = ground (arith, e)
act_completed (Action.stream_hook StreamHook.destroy during) h e = ground (arith, e)
act_completed (Action.scheduled_hook (ScheduledHook.scheduled task_id)) h e = ground (arith, e)
act_completed (Action.callout_hook hook) h e = ground (arith, e)
act_completed (Action.reply_hook ReplyHook.downstream_above_write_buffer_high_watermark) h e =
    ground (arith, e)
act_completed (Action.reply_hook ReplyHook.downstream_below_write_buffer_low_watermark) h e =
    ground (arith, e)
act_completed (Action.reply_hook (ReplyHook.local_reply response_code details reset_imminent)) h e =
    ground (arith, e)

pub act_gone : (a : Action) (h : Handle) → h.plugin ≡ none → runs_method (act a h).0 ≡ false
unfolding act on_stream_hook on_scheduled_hook on_callout_hook on_reply_hook destroyed call_plugin
    call_on_response call_watermark callout_done stream_event stream_end
act_gone (Action.operation op) h e = refl
act_gone (Action.stream_hook (StreamHook.request_headers end_of_stream) during) h e =
    ground (arith, e)
act_gone (Action.stream_hook (StreamHook.request_body end_of_stream) during) h e = ground (arith, e)
act_gone (Action.stream_hook StreamHook.request_trailers during) h e = ground (arith, e)
act_gone (Action.stream_hook (StreamHook.response_headers end_of_stream) during) h e =
    ground (arith, e)
act_gone (Action.stream_hook (StreamHook.response_body end_of_stream) during) h e =
    ground (arith, e)
act_gone (Action.stream_hook StreamHook.response_trailers during) h e = ground (arith, e)
act_gone (Action.stream_hook StreamHook.stream_complete during) h e = ground (arith, e)
act_gone (Action.stream_hook StreamHook.destroy during) h e = ground (arith, e)
act_gone (Action.scheduled_hook (ScheduledHook.scheduled task_id)) h e = ground (arith, e)
act_gone (Action.callout_hook (CalloutHook.http_callout_done id res headers chunks)) h e =
    ground (arith, e)
act_gone (Action.callout_hook (CalloutHook.http_stream_headers id headers end_of_stream)) h e =
    ground (arith, e)
act_gone (Action.callout_hook (CalloutHook.http_stream_data id chunks end_of_stream)) h e =
    ground (arith, e)
act_gone (Action.callout_hook (CalloutHook.http_stream_trailers id trailers)) h e =
    ground (arith, e)
act_gone (Action.callout_hook (CalloutHook.http_stream_complete id)) h e = ground (arith, e)
act_gone (Action.callout_hook (CalloutHook.http_stream_reset id reason)) h e = ground (arith, e)
act_gone (Action.reply_hook ReplyHook.downstream_above_write_buffer_high_watermark) h e =
    ground (arith, e)
act_gone (Action.reply_hook ReplyHook.downstream_below_write_buffer_low_watermark) h e =
    ground (arith, e)
act_gone (Action.reply_hook (ReplyHook.local_reply response_code details reset_imminent)) h e =
    ground (arith, e)

-- A method of the plugin on the response.
abbrev pub on_response : Option Invocation → Bool
on_response (some (Invocation.on_response_headers p hm end_of_stream)) = true
on_response (some (Invocation.on_response_body p body end_of_stream)) = true
on_response (some (Invocation.on_response_trailers p hm)) = true
on_response _ = false

pub act_local :
    (a : Action) (h : Handle) → h.local_response_sent ≡ true → on_response (act a h).0 ≡ false
unfolding act on_stream_hook on_scheduled_hook on_callout_hook on_reply_hook destroyed call_plugin
    call_on_response call_watermark callout_done stream_event stream_end
act_local (Action.operation op) h e = refl
act_local (Action.stream_hook (StreamHook.request_headers end_of_stream) during) h e =
    ground (arith, e)
act_local (Action.stream_hook (StreamHook.request_body end_of_stream) during) h e =
    ground (arith, e)
act_local (Action.stream_hook StreamHook.request_trailers during) h e = ground (arith, e)
act_local (Action.stream_hook (StreamHook.response_headers end_of_stream) during) h e =
    ground (arith, e)
act_local (Action.stream_hook (StreamHook.response_body end_of_stream) during) h e =
    ground (arith, e)
act_local (Action.stream_hook StreamHook.response_trailers during) h e = ground (arith, e)
act_local (Action.stream_hook StreamHook.stream_complete during) h e = ground (arith, e)
act_local (Action.stream_hook StreamHook.destroy during) h e = ground (arith, e)
act_local (Action.scheduled_hook (ScheduledHook.scheduled task_id)) h e = ground (arith, e)
act_local (Action.callout_hook (CalloutHook.http_callout_done id res headers chunks)) h e =
    ground (arith, e)
act_local (Action.callout_hook (CalloutHook.http_stream_headers id headers end_of_stream)) h e =
    ground (arith, e)
act_local (Action.callout_hook (CalloutHook.http_stream_data id chunks end_of_stream)) h e =
    ground (arith, e)
act_local (Action.callout_hook (CalloutHook.http_stream_trailers id trailers)) h e =
    ground (arith, e)
act_local (Action.callout_hook (CalloutHook.http_stream_complete id)) h e = ground (arith, e)
act_local (Action.callout_hook (CalloutHook.http_stream_reset id reason)) h e = ground (arith, e)
act_local (Action.reply_hook ReplyHook.downstream_above_write_buffer_high_watermark) h e =
    ground (arith, e)
act_local (Action.reply_hook ReplyHook.downstream_below_write_buffer_low_watermark) h e =
    ground (arith, e)
act_local (Action.reply_hook (ReplyHook.local_reply response_code details reset_imminent)) h e =
    ground (arith, e)

pub never_any :
    (f : Option Invocation → Bool) (P : Handle → Type 0)
    → ((a : Action) (h : Handle) → P h → f (act a h).0 ≡ false)
    → ((a : Action) (h : Handle) → P h → P (act a h).1)
    → (actions : List Action) (h : Handle) → P h
    → any f (invoked actions h) ≡ false
unfolding invoked
never_any f P now kept [] h e = refl
never_any f P now kept (a ∷ actions) h e =
    ap (λ b. b || any f (invoked actions (act a h).1)) (now a h e)
    ∙ never_any f P now kept actions (act a h).1 (kept a h e)
