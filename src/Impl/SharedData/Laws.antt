-- ===== src/Impl/SharedData/Laws.antt =====
-- The shared data over a host that keeps what abi.h documents, where `ParseUint` reads back what
-- `FormatUint` writes.
use luwes.Base.{
  ℕ, ◌≡◌, ◌≢◌, sym, ap, ◌∙◌, Bool, true, false, Option, none, some, List, [], ◌∷◌, ◌++◌, length,
}
use luwes.Base.Bytes.{Bytes}
use luwes.Abi.Buffer.{Buffer, buffer_bytes}
use luwes.Abi.Common.{MetadataSource}
use luwes.Abi.Metadata.{MetadataCallbacks, MetadataLaws, text_of}
use luwes.Impl.Buffers.{string_to_module_buffer, buffer_bytes-string_to_module_buffer}
use luwes.Impl.Manager.{Manager, num_manager_shards, record_item, remove_item, search}
use luwes.Impl.Manager.Laws.{
  search-record_item, search-record_item_other, search-remove_item, search-remove_item-none,
  length-record_item, length-remove_item,
}
use luwes.Impl.Metadata.{NumberKind, unless_empty, get_metadata_string, set_metadata}
use luwes.Impl.Metadata.Laws.{get_metadata-set_metadata, text_answer}
use luwes.Impl.SharedData.{
  SharedData, search_parsed, search_text, shared_data_namespace, get_data, set_data, clear_data,
  clear_all,
}

module _ {ℓ} {V : Type ℓ} where
  pub clear_all-none :
      (ps : List ℕ) (k : ℕ) (m : Manager V)
      → length m ≡ num_manager_shards
      → search k m ≡ none
      → search k (clear_all ps m) ≡ none
  unfolding clear_all
  clear_all-none [] k m e h = h
  clear_all-none (p ∷ ps) k m e h =
      clear_all-none ps k (remove_item p m) (length-remove_item p m ∙ e)
        (search-remove_item-none p k m e h)

  -- What has been recorded last is cleared with the others.
  search-clear_all :
      (ps : List ℕ) (k : ℕ) (m : Manager V)
      → length m ≡ num_manager_shards
      → search k (clear_all (ps ++ (k ∷ [])) m) ≡ none
  unfolding clear_all
  search-clear_all [] k m e = search-remove_item k m e
  search-clear_all (p ∷ ps) k m e =
      search-clear_all ps k (remove_item p m) (length-remove_item p m ∙ e)

  module _ (parse_uint : Bytes → Option ℕ) (address : ℕ) (value w : V) (m : Manager V)
      (e : length m ≡ num_manager_shards) (fresh : search address m ≡ none) where
    none-≢-some : none ≡ some w → ⊥
    none-≢-some q = cc

    parsed_kept :
        (o : Option ℕ)
        → search_parsed o m ≡ some w
        → search_parsed o (record_item address value m) ≡ some w
    parsed_kept none h = h
    parsed_kept (some p) h = search-record_item_other address p value m e apart ∙ h
      where
        apart : p ≢ address
        apart q = none-≢-some (sym fresh ∙ ap (λ k. search k m) (sym q) ∙ h)

    text_kept :
        (r : Bool × Buffer)
        → search_text parse_uint r m ≡ some w
        → search_text parse_uint r (record_item address value m) ≡ some w
    text_kept (false, b) h = h
    text_kept (true, b) h = parsed_kept (parse_uint (buffer_bytes b)) h

module _ {ℓ} {V : Type ℓ} {S : Type 0} (host : MetadataCallbacks S) (law : MetadataLaws host)
    (nil_data : Bool) (to_double : NumberKind → ℕ → ℕ) (format_uint : ℕ → Bytes)
    (parse_uint : Bytes → Option ℕ) (parse_empty : parse_uint [] ≡ none) (address : ℕ)
    (parse-format : parse_uint (format_uint address) ≡ some address) (key : Bytes) (value : V)
    (d : SharedData S V) (sharded : length d.shared_data_manager ≡ num_manager_shards) where
  abbrev after : SharedData S V
  after = set_data host nil_data to_double format_uint parse_uint address key value d

  found_text :
      (b : Bytes)
      → parse_uint b ≡ some address
      → (m : Manager V) → search_text parse_uint (text_answer b) m ≡ search address m
  found_text [] h m = elim (never (sym parse_empty ∙ h)) [ ]
    where
      never : none ≡ some address → ⊥
      never q = cc
  found_text (c ∷ b) h m = ap (λ o. search_parsed o m) h

  stored_text :
      get_metadata_string host nil_data to_double after.host_state MetadataSource.dynamic
        shared_data_namespace key
      ≡ text_answer (format_uint address)
  unfolding set_data
  stored_text =
      (get_metadata-set_metadata host law nil_data to_double d.host_state shared_data_namespace key
        NumberKind.uint64 0 true (format_uint address)).2

  -- On a host that keeps what abi.h documents, where `ParseUint` reads the address back and refuses
  -- an empty text, `GetData` gets what `SetData` has stored; once `clearData` has run it gets nothing.
  pub get_data-set_data :
      (get_data host nil_data to_double format_uint parse_uint key
          (set_data host nil_data to_double format_uint parse_uint address key value d)
        ≡ some value)
      × (get_data host nil_data to_double format_uint parse_uint key (
            clear_data host nil_data to_double format_uint parse_uint
              (set_data host nil_data to_double format_uint parse_uint address key value d))
          ≡ none)
  unfolding get_data set_data clear_data
  get_data-set_data = (
    got (record_item address value d.shared_data_manager)
        ∙ search-record_item address value d.shared_data_manager sharded,
    got (clear_all (d.recorded_shared_data ++ (address ∷ [])) kept)
        ∙ search-clear_all d.recorded_shared_data address kept
            (length-record_item address value d.shared_data_manager ∙ sharded),
  )
    where
      kept : Manager V
      kept = record_item address value d.shared_data_manager

      got :
          (m : Manager V)
          → search_text parse_uint
              (get_metadata_string host nil_data to_double after.host_state MetadataSource.dynamic
                shared_data_namespace key)
              m
            ≡ search address m
      got m =
          ap (λ r. search_text parse_uint r m) stored_text
          ∙ found_text (format_uint address) parse-format m

  -- On a host that keeps what abi.h documents, `SetData` under a new address leaves what `GetData`
  -- gets under another key.
  pub get_data-set_data_other :
      (other : Bytes) (w : V)
      → key ≢ other
      → search address d.shared_data_manager ≡ none
      → get_data host nil_data to_double format_uint parse_uint other d ≡ some w
      → get_data host nil_data to_double format_uint parse_uint other
          (set_data host nil_data to_double format_uint parse_uint address key value d)
        ≡ some w
  unfolding get_data set_data set_metadata get_metadata_string
  get_data-set_data_other other w ne fresh h =
      ap (λ r. search_text parse_uint (unless_empty r) kept) same_text
      ∙ text_kept parse_uint address value w d.shared_data_manager sharded fresh
          (unless_empty (
            host.get_metadata_string d.host_state MetadataSource.dynamic
              (sent shared_data_namespace) (sent other)))
          h
    where
      kept : Manager V
      kept = record_item address value d.shared_data_manager

      sent : Bytes → Buffer
      sent b = string_to_module_buffer nil_data b

      same_text :
          host.get_metadata_string after.host_state MetadataSource.dynamic
            (sent shared_data_namespace)
            (sent other)
          ≡ host.get_metadata_string d.host_state MetadataSource.dynamic
              (sent shared_data_namespace)
              (sent other)
      same_text =
          law.get_text after.host_state MetadataSource.dynamic (sent shared_data_namespace)
            (sent other)
          ∙ ap text_of (
              law.set_text_other d.host_state (sent shared_data_namespace) (sent key)
                (sent (format_uint address)) (buffer_bytes (sent other))
                (λ q. ne (
                  sym (buffer_bytes-string_to_module_buffer nil_data key)
                  ∙ q
                  ∙ buffer_bytes-string_to_module_buffer nil_data other)))
          ∙ sym (
              law.get_text d.host_state MetadataSource.dynamic (sent shared_data_namespace)
                (sent other))
