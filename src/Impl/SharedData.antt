-- ===== src/Impl/SharedData.antt =====
-- `SetData`, `GetData` and `clearData` of `dymHttpFilterHandle` of abi_impl/internal.go. `V` is the
-- type `any` of the data; the address of a new wrapper is Go's allocator's, an argument. `format_uint`
-- and `parse_uint` are `strconv.FormatUint` and `strconv.ParseUint` in base 10, for 64 bits.
pub mod Laws
use luwes.Base.{ℕ, Bool, true, false, Option, none, some, List, [], ◌∷◌, ◌++◌}
use luwes.Base.Bytes.{Bytes}
use luwes.Abi.Buffer.{Buffer, buffer_bytes}
use luwes.Abi.Common.{MetadataSource}
use luwes.Abi.Metadata.{MetadataCallbacks}
use luwes.Impl.Manager.{Manager, record_item, remove_item, search}
use luwes.Impl.Metadata.{NumberKind, GoValue, get_metadata_string, set_metadata}

-- "composer.shared_data".
abbrev pub shared_data_namespace : Bytes
shared_data_namespace =
    99 ∷ 111 ∷ 109 ∷ 112 ∷ 111 ∷ 115 ∷ 101 ∷ 114 ∷ 46 ∷ 115 ∷ 104 ∷ 97 ∷ 114 ∷ 101 ∷ 100 ∷ 95 ∷ 100
    ∷ 97 ∷ 116 ∷ 97 ∷ []

-- The host's state, the handle's `recordedSharedData` and the `sharedDataManager` of all handles.
pub record SharedData {ℓ} (S : Type 0) (V : Type ℓ) : Type ℓ where
  pub host_state : S
  pub recorded_shared_data : List ℕ
  pub shared_data_manager : Manager V

module _ {ℓ} {V : Type ℓ} where
  abbrev pub search_parsed : Option ℕ → Manager V → Option V
  search_parsed none m = none
  search_parsed (some pointer) m = search pointer m

  abbrev pub search_text : (Bytes → Option ℕ) → Bool × Buffer → Manager V → Option V
  search_text parse_uint (false, b) m = none
  search_text parse_uint (true, b) m = search_parsed (parse_uint (buffer_bytes b)) m

  -- `clearData` on the manager.
  unfoldable pub clear_all : List ℕ → Manager V → Manager V
  unfolding remove_item
  clear_all [] m = m
  clear_all (pointer ∷ pointers) m = clear_all pointers (remove_item pointer m)

module _ {ℓ} {V : Type ℓ} {S : Type 0} (host : MetadataCallbacks S) (nil_data : Bool)
    (to_double : NumberKind → ℕ → ℕ) (format_uint : ℕ → Bytes) (parse_uint : Bytes → Option ℕ) where
  unfoldable pub get_data : Bytes → SharedData S V → Option V
  unfolding get_metadata_string search
  get_data key d =
      search_text parse_uint
        (get_metadata_string host nil_data to_double d.host_state MetadataSource.dynamic
          shared_data_namespace key)
        d.shared_data_manager

  unfoldable pub set_data : ℕ → Bytes → V → SharedData S V → SharedData S V
  unfolding set_metadata record_item
  set_data address key value d = record {
    host_state =
        set_metadata host nil_data to_double d.host_state shared_data_namespace key
          (GoValue.text (format_uint address));
    recorded_shared_data = d.recorded_shared_data ++ (address ∷ []);
    shared_data_manager = record_item address value d.shared_data_manager;
  }

  unfoldable pub clear_data : SharedData S V → SharedData S V
  unfolding clear_all
  clear_data d = record d {
    shared_data_manager = clear_all d.recorded_shared_data d.shared_data_manager;
  }
