-- ===== src/Impl/Handle/Callouts.antt =====
-- The callbacks of callouts and streams on a handle of abi_impl/internal.go: each is run by its id.
pub mod Once
pub mod Streams
use luwes.Base.{
  ℕ, ◌≡◌, ◌≢◌, refl, sym, ap, ◌∙◌, Bool, true, false, ◌||◌, Option, none, some, List, [], ◌∷◌,
  arith, ◌==◌,
}
use luwes.Abi.Buffer.{Buffer, HttpHeader}
use luwes.Abi.Common.{HttpCalloutInitResult, HttpCalloutResult, HttpStreamResetReason}
use luwes.Abi.Hooks.{StreamHook, CalloutHook, ScheduledHook, ReplyHook}
use luwes.Impl.GoMap.{
  GoMap, find, put, delete, find-put, find-put_other, find-delete, find-delete_other,
  find-delete-none,
}
use luwes.Impl.Handle.{
  Reference, Handle, Operation, operate, operate_all, callout_answered, stream_answered,
  get_scheduler, schedule_task,
}
use luwes.Impl.Handle.Hooks.{
  Invocation, Outcome, destroyed, on_stream_hook, on_scheduled_hook, on_callout_hook, on_reply_hook,
  callout_done, stream_event, stream_end,
}
use luwes.Impl.Handle.Trace.{Action, act, act_all}

-- The operation is a callout or a stream that the host has started under the id.
abbrev pub starts : ℕ → Operation → Bool
starts id (Operation.http_callout HttpCalloutInitResult.success other cb) = id == other
starts id (Operation.start_http_stream HttpCalloutInitResult.success other cb) = id == other
starts id op = false

abbrev pub starts_any : ℕ → List Operation → Bool
starts_any id [] = false
starts_any id (op ∷ ops) = starts id op || starts_any id ops

-- The action starts nothing under the id.
abbrev pub starts_in : ℕ → Action → Bool
starts_in id (Action.operation op) = starts id op
starts_in id (Action.stream_hook hook during) = starts_any id during
starts_in id a = false

abbrev pub starts_ever : ℕ → List Action → Bool
starts_ever id [] = false
starts_ever id (a ∷ actions) = starts_in id a || starts_ever id actions

-- The callbacks under an id.
abbrev pub Kept : ℕ → Handle → Handle → Type 0
Kept id h' h =
    (find id h'.callout_callbacks ≡ find id h.callout_callbacks)
    × (find id h'.stream_callbacks ≡ find id h.stream_callbacks)

pub distinct : (id other : ℕ) → (id == other) ≡ false → id ≢ other
distinct id other e q = ground (arith, e, q)

pub operate-Kept :
    (id : ℕ) (op : Operation) (h : Handle) → starts id op ≡ false → Kept id (operate op h) h
unfolding operate callout_answered stream_answered get_scheduler schedule_task
operate-Kept id (Operation.http_callout HttpCalloutInitResult.success other cb) h e =
    (find-put_other other id cb h.callout_callbacks (distinct id other e), refl)
operate-Kept id (Operation.http_callout HttpCalloutInitResult.missing_required_headers other cb) h
      e =
    (refl, refl)
operate-Kept id (Operation.http_callout HttpCalloutInitResult.cluster_not_found other cb) h e =
    (refl, refl)
operate-Kept id (Operation.http_callout HttpCalloutInitResult.duplicate_callout_id other cb) h e =
    (refl, refl)
operate-Kept id (Operation.http_callout HttpCalloutInitResult.cannot_create_request other cb) h e =
    (refl, refl)
operate-Kept id (Operation.start_http_stream HttpCalloutInitResult.success other cb) h e =
    (refl, find-put_other other id cb h.stream_callbacks (distinct id other e))
operate-Kept id
      (Operation.start_http_stream HttpCalloutInitResult.missing_required_headers other cb) h e =
    (refl, refl)
operate-Kept id (Operation.start_http_stream HttpCalloutInitResult.cluster_not_found other cb) h e =
    (refl, refl)
operate-Kept id (Operation.start_http_stream HttpCalloutInitResult.duplicate_callout_id other cb) h
      e =
    (refl, refl)
operate-Kept id (Operation.start_http_stream HttpCalloutInitResult.cannot_create_request other cb) h
      e =
    (refl, refl)
operate-Kept id Operation.send_local_response h e = (refl, refl)
operate-Kept id (Operation.set_downstream_watermark_callbacks cbs) h e = (refl, refl)
operate-Kept id Operation.clear_downstream_watermark_callbacks h e = (refl, refl)
operate-Kept id (Operation.ask_scheduler scheduler_ptr) h e = (ground arith, ground arith)
operate-Kept id (Operation.schedule_one task) h e = (ground arith, ground arith)
operate-Kept id (Operation.record_shared_data pointer) h e = (refl, refl)

pub split_or : (a b : Bool) → (a || b) ≡ false → (a ≡ false) × (b ≡ false)
split_or true b e = (ground (arith, e), ground (arith, e))
split_or false b e = (refl, e)

operate_all-Kept :
    (id : ℕ) (ops : List Operation) (h : Handle)
    → starts_any id ops ≡ false
    → Kept id (operate_all ops h) h
unfolding operate_all
operate_all-Kept id [] h e = (refl, refl)
operate_all-Kept id (op ∷ ops) h e =
    let (e1, e2) = split_or (starts id op) (starts_any id ops) e in
    let (c, d) = operate-Kept id op h e1 in
    let (c', d') = operate_all-Kept id ops (operate op h) e2 in (c' ∙ c, d' ∙ d)

pub destroyed-Kept :
    (id : ℕ) (during : List Operation) (h : Handle)
    → starts_any id during ≡ false
    → Kept id (destroyed during h).1 h
unfolding destroyed
destroyed-Kept id during h e =
    let (c, d) = operate_all-Kept id during (record h { stream_destoried = true }) e in
    (ground (arith, c), ground (arith, d))
