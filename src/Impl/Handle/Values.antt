-- ===== src/Impl/Handle/Values.antt =====
-- The methods of `dymHttpFilterHandle` of abi_impl/internal.go on attributes, filter state and
-- metrics, on the host's state `S` of the stream.
use luwes.Base.{ℕ, ◌≡◌, ap, ◌∙◌, Bool, true, false, List}
use luwes.Base.Bytes.{Bytes}
use luwes.Abi.Buffer.{Buffer, view}
use luwes.Abi.Attribute.{AttributeId}
use luwes.Abi.Common.{MetricsResult}
use luwes.Abi.FilterState.{FilterStateCallbacks, FilterStateLaws}
use luwes.Abi.Metrics.{MetricsCallbacks}
use luwes.Abi.Route.{AttributeCallbacks}
use luwes.Impl.Buffers.{
  string_to_module_buffer, bytes_to_module_buffer, string_array_to_module_buffer_slice,
  buffer_bytes-bytes_to_module_buffer,
}
use luwes.Impl.Metadata.{or_zero, or_empty, unless_empty}
use luwes.Impl.Metadata.Laws.{text_answer, unless_empty-view}

-- `to_float` is Go's conversion of a `uint64` to the bits of a `float64`.
module _ {S : Type 0} (host : AttributeCallbacks S) (to_float : ℕ → ℕ) where
  unfoldable pub get_attribute_number : AttributeId → S → Bool × ℕ
  get_attribute_number attribute_id s =
      let (found, value) = or_zero 0 (host.filter_get_attribute_int s attribute_id) in
      (found, (elim found as (λ _. ℕ) [ true ↦ to_float value | false ↦ 0 ]))

  unfoldable pub get_attribute_string : AttributeId → S → Bool × Buffer
  get_attribute_string attribute_id s =
      unless_empty (host.filter_get_attribute_string s attribute_id)

  unfoldable pub get_attribute_bool : AttributeId → S → Bool × Bool
  get_attribute_bool attribute_id s = or_zero false (host.filter_get_attribute_bool s attribute_id)

  unfoldable pub clear_route_cache : S → S
  clear_route_cache s = host.clear_route_cache s

module _ {S : Type 0} (host : FilterStateCallbacks S) (nil_data : Bool) where
  unfoldable pub get_filter_state_typed : Bytes → S → Bool × Buffer
  unfolding string_to_module_buffer
  get_filter_state_typed key s =
      or_empty (host.get_filter_state_typed s (string_to_module_buffer nil_data key))

  unfoldable pub get_filter_state : Bytes → S → Bool × Buffer
  unfolding string_to_module_buffer
  get_filter_state key s =
      unless_empty (host.get_filter_state_bytes s (string_to_module_buffer nil_data key))

  -- The result of the callback is dropped.
  unfoldable pub set_filter_state : Bytes → Bytes → S → S
  unfolding string_to_module_buffer bytes_to_module_buffer
  set_filter_state key value s =
      (host.set_filter_state_bytes s (string_to_module_buffer nil_data key)
        (bytes_to_module_buffer nil_data value)).1

  unfoldable pub set_filter_state_typed : Bytes → Bytes → S → Bool × S
  unfolding string_to_module_buffer bytes_to_module_buffer
  set_filter_state_typed key value s =
      host.set_filter_state_typed s (string_to_module_buffer nil_data key)
        (bytes_to_module_buffer nil_data value)

  -- On a host that keeps what abi.h documents and takes the value, `GetFilterState` reads a non-empty
  -- value that `SetFilterState` has stored, and reports an empty one as not found.
  pub get_filter_state-set_filter_state :
      (law : FilterStateLaws host) (key value : Bytes) (s : S)
      → (host.set_filter_state_bytes s
          (string_to_module_buffer nil_data key)
          (bytes_to_module_buffer nil_data value)).0
        ≡ true
      → get_filter_state key (set_filter_state key value s) ≡ text_answer value
  unfolding get_filter_state set_filter_state
  get_filter_state-set_filter_state law key value s taken =
      ap unless_empty (
        law.bytes_kept s (string_to_module_buffer nil_data key)
          (bytes_to_module_buffer nil_data value) taken
        ∙ ap (λ b. (true, view b)) (buffer_bytes-bytes_to_module_buffer nil_data value))
      ∙ unless_empty-view value

module _ {S : Type 0} (host : MetricsCallbacks S) (nil_data : Bool) where
  unfoldable pub define_histogram : Bytes → List Bytes → S → ℕ × MetricsResult × S
  unfolding string_to_module_buffer string_array_to_module_buffer_slice
  define_histogram name tag_keys s =
      let (answer, metric_id, s') =
        host.config_define_histogram s (string_to_module_buffer nil_data name)
          (string_array_to_module_buffer_slice nil_data tag_keys) in
      (metric_id, answer, s')

  unfoldable pub define_gauge : Bytes → List Bytes → S → ℕ × MetricsResult × S
  unfolding string_to_module_buffer string_array_to_module_buffer_slice
  define_gauge name tag_keys s =
      let (answer, metric_id, s') =
        host.config_define_gauge s (string_to_module_buffer nil_data name)
          (string_array_to_module_buffer_slice nil_data tag_keys) in
      (metric_id, answer, s')

  unfoldable pub define_counter : Bytes → List Bytes → S → ℕ × MetricsResult × S
  unfolding string_to_module_buffer string_array_to_module_buffer_slice
  define_counter name tag_keys s =
      let (answer, metric_id, s') =
        host.config_define_counter s (string_to_module_buffer nil_data name)
          (string_array_to_module_buffer_slice nil_data tag_keys) in
      (metric_id, answer, s')

  unfoldable pub record_histogram_value : ℕ → ℕ → List Bytes → S → MetricsResult × S
  unfolding string_array_to_module_buffer_slice
  record_histogram_value id value tags_values s =
      host.record_histogram_value s id (string_array_to_module_buffer_slice nil_data tags_values)
        value

  unfoldable pub set_gauge_value : ℕ → ℕ → List Bytes → S → MetricsResult × S
  unfolding string_array_to_module_buffer_slice
  set_gauge_value id value tags_values s =
      host.set_gauge s id (string_array_to_module_buffer_slice nil_data tags_values) value

  unfoldable pub increment_gauge_value : ℕ → ℕ → List Bytes → S → MetricsResult × S
  unfolding string_array_to_module_buffer_slice
  increment_gauge_value id value tags_values s =
      host.increment_gauge s id (string_array_to_module_buffer_slice nil_data tags_values) value

  unfoldable pub decrement_gauge_value : ℕ → ℕ → List Bytes → S → MetricsResult × S
  unfolding string_array_to_module_buffer_slice
  decrement_gauge_value id value tags_values s =
      host.decrement_gauge s id (string_array_to_module_buffer_slice nil_data tags_values) value

  unfoldable pub increment_counter_value : ℕ → ℕ → List Bytes → S → MetricsResult × S
  unfolding string_array_to_module_buffer_slice
  increment_counter_value id value tags_values s =
      host.increment_counter s id (string_array_to_module_buffer_slice nil_data tags_values) value
