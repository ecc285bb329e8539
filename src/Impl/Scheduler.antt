-- ===== src/Impl/Scheduler.antt =====
-- `dymScheduler` of abi_impl/internal.go. A task is a value of `T`, that `onScheduled` returns to be
-- run. Both operations hold the lock while they touch the map, so that calls from several goroutines
-- are a sequence of events.
pub mod Laws
use luwes.Base.{ℕ, ◌+◌, ◌%◌, ◌^◌, Option, List, [], ◌∷◌}
use luwes.Impl.GoMap.{GoMap, put, find, delete}

pub record DymScheduler {ℓ} (T : Type ℓ) : Type ℓ where
  pub scheduler_ptr : ℕ
  pub next_task_id : ℕ
  pub tasks : GoMap T

module _ {ℓ} {T : Type ℓ} where
  unfoldable pub new_dym_scheduler : ℕ → DymScheduler T
  new_dym_scheduler scheduler_ptr = record {
    scheduler_ptr = scheduler_ptr;
    next_task_id = 0;
    tasks = [];
  }

  -- The id is committed to the host; the second result is the new state.
  unfoldable pub schedule : T → DymScheduler T → ℕ × DymScheduler T
  unfolding put
  schedule task s =
      let task_id = s.next_task_id in
      (
        task_id,
        record s { next_task_id = (task_id + 1) % 2 ^ 64; tasks = put task_id task s.tasks },
      )

  unfoldable pub on_scheduled : ℕ → DymScheduler T → Option T × DymScheduler T
  unfolding find delete
  on_scheduled task_id s = (find task_id s.tasks, record s { tasks = delete task_id s.tasks })

-- A call of `Schedule` from any goroutine, or the delivery of an id on the worker.
pub data Event {ℓ} (T : Type ℓ) : Type ℓ where
  scheduling : T → Event T
  delivery : ℕ → Event T

module _ {ℓ} {T : Type ℓ} where
  unfoldable pub step : Event T → DymScheduler T → DymScheduler T
  unfolding schedule on_scheduled
  step (scheduling task) s = (schedule task s).1
  step (delivery task_id) s = (on_scheduled task_id s).1

  unfoldable pub steps : List (Event T) → DymScheduler T → DymScheduler T
  unfolding step
  steps [] s = s
  steps (e ∷ events) s = steps events (step e s)
