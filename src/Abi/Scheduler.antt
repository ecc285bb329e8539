-- ===== src/Abi/Scheduler.antt =====
-- abi/abi.h: the flag callback and the scheduler callbacks of a filter and of its configuration. The
-- pointer to a scheduler is a number.
use luwes.Base.{ℕ}
use luwes.Abi.Buffer.{Buffer}

pub record FlagCallbacks (S : Type 0) : Type 0 where
  pub add_custom_flag : S → Buffer → S

pub record SchedulerCallbacks (S : Type 0) : Type 0 where
  pub filter_scheduler_new : S → ℕ × S
  pub filter_scheduler_commit : S → ℕ → ℕ → S
  pub filter_scheduler_delete : S → ℕ → S
  pub filter_config_scheduler_new : S → ℕ × S
  pub filter_config_scheduler_delete : S → ℕ → S
  pub filter_config_scheduler_commit : S → ℕ → ℕ → S
