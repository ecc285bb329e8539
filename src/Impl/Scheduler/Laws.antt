-- ===== src/Impl/Scheduler/Laws.antt =====
-- What `dymScheduler` promises, while fewer than 2 ^ 64 tasks have been scheduled.
use luwes.Base.{
  ℕ, suc, ◌+◌, ◌^◌, ◌≤◌, ◌<◌, ◌≡◌, ◌≢◌, refl, ◌∙◌, Option, none, some, List, [], ◌∷◌, length, arith,
}
use luwes.Impl.GoMap.{
  find, find-put, find-put_other, find-delete, find-delete_other, find-delete-none,
}
use luwes.Impl.Scheduler.{
  DymScheduler, new_dym_scheduler, schedule, on_scheduled, Event, scheduling, delivery, step, steps,
}

module _ {ℓ} {T : Type ℓ} where
  -- What is stored under an id that has been given out.
  abbrev Holds : ℕ → Option T → DymScheduler T → Type ℓ
  Holds task_id o s = (find task_id s.tasks ≡ o) × (task_id < s.next_task_id)

  -- No event is a delivery of the id.
  abbrev pub Avoids : ℕ → List (Event T) → Type 0
  Avoids task_id [] = Unit
  Avoids task_id (scheduling task ∷ events) = Avoids task_id events
  Avoids task_id (delivery other ∷ events) = (task_id ≢ other) × Avoids task_id events

  Holds-scheduling :
      (task_id : ℕ) (o : Option T) (task : T) (s : DymScheduler T)
      → s.next_task_id + 1 < 2 ^ 64
      → Holds task_id o s
      → Holds task_id o (step (scheduling task) s)
  unfolding step schedule
  Holds-scheduling task_id o task s room (e, lt) = (
    find-put_other s.next_task_id task_id task s.tasks (λ q. elim (ltb_irrefl q) [ ]) ∙ e,
    omega (arith, room, lt),
  )
    where
      ltb_irrefl : task_id ≡ s.next_task_id → ⊥
      ltb_irrefl q = omega (arith, lt, q)

  Holds-other :
      (task_id other : ℕ) (o : Option T) (s : DymScheduler T)
      → task_id ≢ other
      → Holds task_id o s
      → Holds task_id o (step (delivery other) s)
  unfolding step on_scheduled
  Holds-other task_id other o s ne (e, lt) = (find-delete_other other task_id s.tasks ne ∙ e, lt)

  Holds-steps :
      (task_id : ℕ) (o : Option T) (events : List (Event T)) (s : DymScheduler T)
      → s.next_task_id + length events < 2 ^ 64
      → Avoids task_id events
      → Holds task_id o s
      → Holds task_id o (steps events s)
  unfolding steps step schedule on_scheduled
  Holds-steps task_id o [] s room avoids h = h
  Holds-steps task_id o (scheduling task ∷ events) s room avoids h =
      Holds-steps task_id o events (step (scheduling task) s) (omega (arith, room)) avoids
        (Holds-scheduling task_id o task s (omega (arith, room)) h)
  Holds-steps task_id o (delivery other ∷ events) s room (ne, avoids) h =
      Holds-steps task_id o events (step (delivery other) s) (omega (arith, room)) avoids
        (Holds-other task_id other o s ne h)

  gone_delivery :
      (task_id other : ℕ) (s : DymScheduler T)
      → Holds task_id none s
      → Holds task_id none (step (delivery other) s)
  unfolding step on_scheduled
  gone_delivery task_id other s (e, lt) = (find-delete-none other task_id s.tasks e, lt)

  gone_steps :
      (task_id : ℕ) (events : List (Event T)) (s : DymScheduler T)
      → s.next_task_id + length events < 2 ^ 64
      → Holds task_id none s
      → Holds task_id none (steps events s)
  unfolding steps step schedule on_scheduled
  gone_steps task_id [] s room h = h
  gone_steps task_id (scheduling task ∷ events) s room h =
      gone_steps task_id events (step (scheduling task) s) (omega (arith, room))
        (Holds-scheduling task_id none task s (omega (arith, room)) h)
  gone_steps task_id (delivery other ∷ events) s room h =
      gone_steps task_id events (step (delivery other) s) (omega (arith, room))
        (gone_delivery task_id other s h)

  next-steps :
      (events : List (Event T)) (s : DymScheduler T)
      → s.next_task_id + length events < 2 ^ 64
      → (s.next_task_id ≤ (steps events s).next_task_id)
        × ((steps events s).next_task_id ≤ s.next_task_id + length events)
  unfolding steps step schedule on_scheduled
  next-steps [] s room = (omega arith, omega arith)
  next-steps (scheduling task ∷ events) s room =
      let (a, b) = next-steps events (step (scheduling task) s) (omega (arith, room)) in
      (omega (arith, room, a), omega (arith, room, b))
  next-steps (delivery other ∷ events) s room =
      let (a, b) = next-steps events (step (delivery other) s) (omega (arith, room)) in
      (omega (arith, room, a), omega (arith, room, b))

  gone_after :
      (task_id : ℕ) (events : List (Event T)) (s : DymScheduler T)
      → task_id < s.next_task_id
      → s.next_task_id + length events < 2 ^ 64
      → (on_scheduled task_id (steps events (on_scheduled task_id s).1)).0 ≡ none
  unfolding on_scheduled
  gone_after task_id events s lt room =
      (gone_steps task_id events (on_scheduled task_id s).1 room
        (find-delete task_id s.tasks, lt)).0

  -- While fewer than 2 ^ 64 ids have been given out, a scheduled task runs exactly once: the first
  -- delivery of the id that `Schedule` committed runs it, whatever has been scheduled and delivered
  -- before, and a later delivery of the id runs nothing, whatever comes in between.
  pub on_scheduled-schedule :
      (task : T) (events later : List (Event T)) (s : DymScheduler T)
      → s.next_task_id + suc (length events + length later) < 2 ^ 64
      → Avoids (schedule task s).0 events
      → ((on_scheduled (schedule task s).0 (steps events (schedule task s).1)).0 ≡ some task)
        × ((on_scheduled (schedule task s).0 (
              steps later
                (on_scheduled (schedule task s).0 (steps events (schedule task s).1)).1)).0
            ≡ none)
  unfolding schedule on_scheduled
  on_scheduled-schedule task events later s room avoids =
      let (_, bound) = next-steps events (schedule task s).1 (omega (arith, room)) in
      let (kept, lt) =
        Holds-steps s.next_task_id (some task) events (schedule task s).1 (omega (arith, room))
          avoids (find-put s.next_task_id task s.tasks, omega (arith, room)) in
      (
        kept,
        gone_after s.next_task_id later (steps events (schedule task s).1) lt
            (omega (arith, room, bound)),
      )

  -- No id from the next one on has a task.
  abbrev IsFresh : DymScheduler T → Type ℓ
  IsFresh s = (task_id : ℕ) → s.next_task_id ≤ task_id → find task_id s.tasks ≡ none

  IsFresh-step :
      (e : Event T) (s : DymScheduler T)
      → s.next_task_id + 1 < 2 ^ 64
      → IsFresh s
      → IsFresh (step e s)
  unfolding step schedule on_scheduled
  IsFresh-step (scheduling task) s room h task_id le =
      find-put_other s.next_task_id task_id task s.tasks (λ q. apart q)
      ∙ h task_id (omega (arith, le, room))
    where
      apart : task_id ≡ s.next_task_id → ⊥
      apart q = omega (arith, le, q, room)
  IsFresh-step (delivery other) s room h task_id le =
      find-delete-none other task_id s.tasks (h task_id le)

  IsFresh-steps :
      (events : List (Event T)) (s : DymScheduler T)
      → s.next_task_id + length events < 2 ^ 64
      → IsFresh s
      → IsFresh (steps events s)
  unfolding steps step schedule on_scheduled
  IsFresh-steps [] s room h = h
  IsFresh-steps (scheduling task ∷ events) s room h =
      IsFresh-steps events (step (scheduling task) s) (omega (arith, room))
        (IsFresh-step (scheduling task) s (omega (arith, room)) h)
  IsFresh-steps (delivery other ∷ events) s room h =
      IsFresh-steps events (step (delivery other) s) (omega (arith, room))
        (IsFresh-step (delivery other) s (omega (arith, room)) h)

  -- After fewer than 2 ^ 64 events on a new scheduler, no id from the next one on has a task, so that
  -- `Schedule` overwrites no pending task.
  pub find-steps :
      (scheduler_ptr : ℕ) (events : List (Event T)) (task_id : ℕ)
      → length events < 2 ^ 64
      → (steps events (new_dym_scheduler scheduler_ptr)).next_task_id ≤ task_id
      → find task_id (steps events (new_dym_scheduler scheduler_ptr)).tasks ≡ none
  unfolding new_dym_scheduler find
  find-steps scheduler_ptr events task_id room le =
      IsFresh-steps events (new_dym_scheduler scheduler_ptr) (omega (arith, room)) (λ id q. refl)
        task_id le
