-- ===== src/Abi/Metrics.antt =====
-- abi/abi.h: the metrics callbacks, on the state `S` of the configuration or of the stream. The id
-- behind an out pointer is a result; an array of labels is a list.
use luwes.Base.{ℕ, List}
use luwes.Abi.Buffer.{Buffer}
use luwes.Abi.Common.{MetricsResult}

pub record MetricsCallbacks (S : Type 0) : Type 0 where
  pub config_define_counter : S → Buffer → List Buffer → MetricsResult × ℕ × S
  pub increment_counter : S → ℕ → List Buffer → ℕ → MetricsResult × S
  pub config_define_gauge : S → Buffer → List Buffer → MetricsResult × ℕ × S
  pub increment_gauge : S → ℕ → List Buffer → ℕ → MetricsResult × S
  pub decrement_gauge : S → ℕ → List Buffer → ℕ → MetricsResult × S
  pub set_gauge : S → ℕ → List Buffer → ℕ → MetricsResult × S
  pub config_define_histogram : S → Buffer → List Buffer → MetricsResult × ℕ × S
  pub record_histogram_value : S → ℕ → List Buffer → ℕ → MetricsResult × S
