-- ===== src/Impl/Handle/Ended.antt =====
-- What no longer runs on a handle of abi_impl/internal.go once its stream is complete, or it has
-- been destroyed.
use luwes.Base.{◌≡◌, refl, true, false, Option, none, some, List, arith, is_some}
use luwes.Abi.Hooks.{StreamHook}
use luwes.Impl.Handle.{Reference, Handle, Operation, operate}
use luwes.Impl.Handle.Hooks.{Invocation, destroyed, on_stream_hook}
use luwes.Impl.Handle.Trace.{Action, act, act_all, invoked}
use luwes.Impl.Handle.Keeps.{act-Ends, act_all-Ends}
use luwes.Impl.Handle.Quiet.{
  any, runs_method, runs_callback, on_response, act_completed, act_gone, act_local, never_any,
}

invoked_completed :
    (actions : List Action) (h : Handle)
    → h.stream_completed ≡ true
    → any runs_callback (invoked actions h) ≡ false
invoked_completed =
    never_any runs_callback (λ h. h.stream_completed ≡ true) act_completed
      (λ a h e. (act-Ends a h).0 e)

invoked_gone :
    (actions : List Action) (h : Handle)
    → h.plugin ≡ none
    → any runs_method (invoked actions h) ≡ false
invoked_gone = never_any runs_method (λ h. h.plugin ≡ none) act_gone (λ a h e. (act-Ends a h).1 e)

completes :
    (h : Handle) (p : Reference) (during : List Operation)
    → h.plugin ≡ some p
    → (on_stream_hook StreamHook.stream_complete during h).1.stream_completed ≡ true
unfolding on_stream_hook
completes h p during e = ground (arith, e)

-- After `stream_complete` on a handle that has a plugin, no task, callout, stream or watermark
-- callback runs, whatever hooks and operations follow.
pub stream_complete_lem :
    (h : Handle) (p : Reference) (during : List Operation) (actions : List Action)
    → h.plugin ≡ some p
    → any runs_callback (invoked actions (on_stream_hook StreamHook.stream_complete during h).1)
      ≡ false
stream_complete_lem h p during actions e =
    invoked_completed actions (on_stream_hook StreamHook.stream_complete during h).1
      (completes h p during e)

destroyed_plugin :
    (h : Handle) (during : List Operation)
    → h.stream_destoried ≡ false
    → (on_stream_hook StreamHook.destroy during h).1.plugin ≡ none
unfolding on_stream_hook destroyed
destroyed_plugin h during e = ground (arith, e)

-- After `destroy` on a handle that has not been destroyed, no method of the plugin runs, whatever
-- hooks and operations follow.
pub destroy_lem :
    (h : Handle) (during : List Operation) (actions : List Action)
    → h.stream_destoried ≡ false
    → any runs_method (invoked actions (on_stream_hook StreamHook.destroy during h).1) ≡ false
destroy_lem h during actions e =
    invoked_gone actions (on_stream_hook StreamHook.destroy during h).1
      (destroyed_plugin h during e)

nothing :
    (o : Option Invocation) → runs_callback o ≡ false → runs_method o ≡ false → is_some o ≡ false
nothing none c m = refl
nothing (some i) c m = ground (arith, c, m)

-- After `stream_complete` on a handle that has a plugin, any sequence, and `destroy` on the handle,
-- which had not been destroyed, no code of the module runs, whatever hooks and operations follow.
pub destroy-stream_complete :
    (h : Handle) (p : Reference) (at_complete during : List Operation)
    (before actions : List Action)
    → h.plugin ≡ some p
    → (act_all before (on_stream_hook StreamHook.stream_complete at_complete h).1).stream_destoried
      ≡ false
    → any is_some (
        invoked actions
          (on_stream_hook StreamHook.destroy during
            (act_all before (on_stream_hook StreamHook.stream_complete at_complete h).1)).1)
      ≡ false
unfolding act
destroy-stream_complete h p at_complete during before actions e d =
    never_any is_some (λ x. (x.stream_completed ≡ true) × (x.plugin ≡ none))
      (λ a x q. nothing (act a x).0 (act_completed a x q.0) (act_gone a x q.1))
      (λ a x q. ((act-Ends a x).0 q.0, (act-Ends a x).1 q.1)) actions
      (on_stream_hook StreamHook.destroy during ended).1
      (
        (act-Ends (Action.stream_hook StreamHook.destroy during) ended).0 (
            (act_all-Ends before (on_stream_hook StreamHook.stream_complete at_complete h).1).0
              (completes h p at_complete e)),
        destroyed_plugin ended during d,
      )
  where
    ended : Handle
    ended = act_all before (on_stream_hook StreamHook.stream_complete at_complete h).1

-- Once `SendLocalResponse` has been called, the plugin's methods on the response do not run, whatever
-- hooks and operations follow.
pub send_local_response_lem :
    (h : Handle) (actions : List Action)
    → any on_response (invoked actions (operate Operation.send_local_response h)) ≡ false
unfolding operate
send_local_response_lem h actions =
    never_any on_response (λ x. x.local_response_sent ≡ true) act_local
      (λ a x q. (act-Ends a x).2 q) actions (operate Operation.send_local_response h) refl
