-- ===== src/Impl/Metadata.antt =====
-- The metadata methods of `dymHttpFilterHandle` of abi_impl/internal.go, over the metadata callbacks
-- of a host. An `UnsafeEnvoyBuffer` is a buffer, and a `float64` its 64-bit pattern.
pub mod Laws
use luwes.Base.{ℕ, Bool, true, false, List, [], ◌∷◌, if◌then◌else◌, ◌==◌}
use luwes.Base.Bytes.{Bytes}
use luwes.Abi.Buffer.{Buffer, null}
use luwes.Abi.Common.{MetadataSource}
use luwes.Abi.Metadata.{MetadataCallbacks, MetadataNames, MetadataLists}
use luwes.Impl.Buffers.{string_to_module_buffer, is_empty}

-- Go's number types that `SetMetadata` tells apart.
pub data NumberKind : Type 0 where
  uint uint8 uint16 uint32 uint64 int int8 int16 int32 int64 float32 float64 : NumberKind

-- A value of type `any`; a number by its bits.
pub data GoValue : Type 0 where
  number : NumberKind → ℕ → GoValue
  boolean : Bool → GoValue
  text : Bytes → GoValue
  another : GoValue

-- `!bool(ret)`, with the zero value for a failure.
abbrev pub or_zero {ℓ} : {A : Type ℓ} → A → Bool × A → Bool × A
or_zero zero_value (true, a) = (true, a)
or_zero zero_value (false, a) = (false, zero_value)

-- An empty view is an answer without its pointer.
abbrev pub or_empty : Bool × Buffer → Bool × Buffer
or_empty (true, b) = (true, (if is_empty b then null else b))
or_empty (false, b) = (false, null)

-- `!bool(ret) || valueView.ptr == nil || valueView.length == 0`.
abbrev pub unless_empty : Bool × Buffer → Bool × Buffer
unless_empty (true, b) = elim (is_empty b) as (λ _. Bool × Buffer) [
  | true ↦ (false, null)
  | false ↦ (true, b)
]
unless_empty (false, b) = (false, null)

-- `to_double` is Go's conversion of the number to a `float64`.
module _ {S : Type 0} (host : MetadataCallbacks S) (nil_data : Bool)
    (to_double : NumberKind → ℕ → ℕ) where
  unfoldable pub get_metadata_string : S → MetadataSource → Bytes → Bytes → Bool × Buffer
  unfolding string_to_module_buffer
  get_metadata_string s source metadata_namespace key = unless_empty (
      host.get_metadata_string s source (string_to_module_buffer nil_data metadata_namespace)
        (string_to_module_buffer nil_data key))

  unfoldable pub get_metadata_number : S → MetadataSource → Bytes → Bytes → Bool × ℕ
  unfolding string_to_module_buffer
  get_metadata_number s source metadata_namespace key = or_zero 0 (
      host.get_metadata_number s source (string_to_module_buffer nil_data metadata_namespace)
        (string_to_module_buffer nil_data key))

  unfoldable pub get_metadata_bool : S → MetadataSource → Bytes → Bytes → Bool × Bool
  unfolding string_to_module_buffer
  get_metadata_bool s source metadata_namespace key = or_zero false (
      host.get_metadata_bool s source (string_to_module_buffer nil_data metadata_namespace)
        (string_to_module_buffer nil_data key))

  unfoldable pub set_metadata : S → Bytes → Bytes → GoValue → S
  unfolding string_to_module_buffer
  set_metadata s metadata_namespace key (number kind v) =
      host.set_dynamic_metadata_number s (string_to_module_buffer nil_data metadata_namespace)
        (string_to_module_buffer nil_data key) (to_double kind v)
  set_metadata s metadata_namespace key (boolean v) =
      host.set_dynamic_metadata_bool s (string_to_module_buffer nil_data metadata_namespace)
        (string_to_module_buffer nil_data key) v
  set_metadata s metadata_namespace key (text v) =
      host.set_dynamic_metadata_string s (string_to_module_buffer nil_data metadata_namespace)
        (string_to_module_buffer nil_data key) (string_to_module_buffer nil_data v)
  set_metadata s metadata_namespace key another = s

-- The array that the host fills, where it says that it has.
abbrev pub if_filled : Bool × List Buffer → List Buffer
if_filled (true, buffers) = buffers
if_filled (false, buffers) = []

module _ {S : Type 0} (host : MetadataNames S) (nil_data : Bool) where
  unfoldable pub get_metadata_keys : S → MetadataSource → Bytes → List Buffer
  unfolding string_to_module_buffer
  get_metadata_keys s source metadata_namespace =
      let ns = string_to_module_buffer nil_data metadata_namespace in
      if host.get_metadata_keys_count s source ns == 0
      then []
      else if_filled (host.get_metadata_keys s source ns)

  unfoldable pub get_metadata_namespaces : S → MetadataSource → List Buffer
  get_metadata_namespaces s source =
      if host.get_metadata_namespaces_count s source == 0
      then []
      else if_filled (host.get_metadata_namespaces s source)

module _ {S : Type 0} (host : MetadataLists S) (nil_data : Bool) where
  unfoldable pub add_metadata_list_number : S → Bytes → Bytes → ℕ → Bool × S
  unfolding string_to_module_buffer
  add_metadata_list_number s metadata_namespace key value =
      host.add_dynamic_metadata_list_number s (string_to_module_buffer nil_data metadata_namespace)
        (string_to_module_buffer nil_data key) value

  unfoldable pub add_metadata_list_string : S → Bytes → Bytes → Bytes → Bool × S
  unfolding string_to_module_buffer
  add_metadata_list_string s metadata_namespace key value =
      host.add_dynamic_metadata_list_string s (string_to_module_buffer nil_data metadata_namespace)
        (string_to_module_buffer nil_data key) (string_to_module_buffer nil_data value)

  unfoldable pub add_metadata_list_bool : S → Bytes → Bytes → Bool → Bool × S
  unfolding string_to_module_buffer
  add_metadata_list_bool s metadata_namespace key value =
      host.add_dynamic_metadata_list_bool s (string_to_module_buffer nil_data metadata_namespace)
        (string_to_module_buffer nil_data key) value

  unfoldable pub get_metadata_list_size : S → MetadataSource → Bytes → Bytes → Bool × ℕ
  unfolding string_to_module_buffer
  get_metadata_list_size s source metadata_namespace key = or_zero 0 (
      host.get_metadata_list_size s source (string_to_module_buffer nil_data metadata_namespace)
        (string_to_module_buffer nil_data key))

  unfoldable pub get_metadata_list_number : S → MetadataSource → Bytes → Bytes → ℕ → Bool × ℕ
  unfolding string_to_module_buffer
  get_metadata_list_number s source metadata_namespace key index = or_zero 0 (
      host.get_metadata_list_number s source (string_to_module_buffer nil_data metadata_namespace)
        (string_to_module_buffer nil_data key) index)

  unfoldable pub get_metadata_list_string : S → MetadataSource → Bytes → Bytes → ℕ → Bool × Buffer
  unfolding string_to_module_buffer
  get_metadata_list_string s source metadata_namespace key index = or_empty (
      host.get_metadata_list_string s source (string_to_module_buffer nil_data metadata_namespace)
        (string_to_module_buffer nil_data key) index)

  unfoldable pub get_metadata_list_bool : S → MetadataSource → Bytes → Bytes → ℕ → Bool × Bool
  unfolding string_to_module_buffer
  get_metadata_list_bool s source metadata_namespace key index = or_zero false (
      host.get_metadata_list_bool s source (string_to_module_buffer nil_data metadata_namespace)
        (string_to_module_buffer nil_data key) index)
