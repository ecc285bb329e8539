-- ===== src/Impl/Handle/Trace.antt =====
-- Sequences of hooks and operations on one handle of abi_impl/internal.go, in any order.
use luwes.Base.{Option, none, List, [], ◌∷◌}
use luwes.Abi.Hooks.{StreamHook, CalloutHook, ScheduledHook, ReplyHook}
use luwes.Impl.Handle.{Handle, Operation, operate}
use luwes.Impl.Handle.Hooks.{
  Invocation, Outcome, on_stream_hook, on_scheduled_hook, on_callout_hook, on_reply_hook,
}

-- An operation, or a hook; a hook on the stream has the operations of `OnDestroy`.
pub data Action : Type 0 where
  operation : Operation → Action
  stream_hook : StreamHook → List Operation → Action
  scheduled_hook : ScheduledHook → Action
  callout_hook : CalloutHook → Action
  reply_hook : ReplyHook → Action

unfoldable pub act : Action → Handle → Outcome
unfolding operate on_stream_hook on_scheduled_hook on_callout_hook on_reply_hook
act (operation op) h = (none, operate op h)
act (stream_hook hook during) h = on_stream_hook hook during h
act (scheduled_hook hook) h = on_scheduled_hook hook h
act (callout_hook hook) h = on_callout_hook hook h
act (reply_hook hook) h = on_reply_hook hook h

-- The handle after a sequence.
unfoldable pub act_all : List Action → Handle → Handle
unfolding act
act_all [] h = h
act_all (a ∷ actions) h = act_all actions (act a h).1

-- The outcomes of a sequence, in its order.
unfoldable pub invoked : List Action → Handle → List (Option Invocation)
unfolding act
invoked [] h = []
invoked (a ∷ actions) h = (act a h).0 ∷ invoked actions (act a h).1
