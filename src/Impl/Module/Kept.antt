-- ===== src/Impl/Module/Kept.antt =====
-- What an event on a filter does to the managers of abi_impl/internal.go: an address stays recorded
-- until its filter is destroyed, and stays away until a filter is created under it.
use luwes.Base.{
  ℕ, ◌≡◌, ◌∙◌, subst, Bool, true, false, Bool-cases, inl, inr, Option, none, some, List, [], ◌∷◌,
  ◌||◌, length, ◌==◌, ==_iff, refl,
}
use luwes.Abi.Hooks.{StreamHook}
use luwes.Impl.Manager.{Manager, num_manager_shards, record_item, remove_item, search}
use luwes.Impl.Manager.Laws.{
  search-record_item, search-record_item_other, search-remove_item_other, search-remove_item-none,
  length-record_item, length-remove_item, apart_of,
}
use luwes.Impl.SharedData.{clear_all}
use luwes.Impl.Handle.{Reference, Handle}
use luwes.Impl.Handle.Quiet.{any}
use luwes.Impl.Module.{
  Managers, ManagerEvent, on_filter_new_managers, manage_hook, manage, manage_all,
}

-- The events that remove an address, and those that record it.
abbrev pub destroys : ℕ → ManagerEvent → Bool
destroys address (ManagerEvent.stream_hook StreamHook.destroy other h) = address == other
destroys address event = false

abbrev pub creates : ℕ → ManagerEvent → Bool
creates address (ManagerEvent.filter_new other) = address == other
creates address event = false

abbrev pub IsSharded : Managers → Type 0
IsSharded ms =
    (length ms.plugin_manager ≡ num_manager_shards)
    × (length ms.shared_data_manager ≡ num_manager_shards)

length-clear_all :
    (pointers : List ℕ) (m : Manager Reference) → length (clear_all pointers m) ≡ length m
unfolding clear_all
length-clear_all [] m = refl
length-clear_all (p ∷ pointers) m =
    length-clear_all pointers (remove_item p m) ∙ length-remove_item p m

-- What an event does to the managers: it keeps their shards, the record of an address that it does
-- not destroy, and the absence of one that it does not create.
abbrev Kept : ℕ → ManagerEvent → Managers → Managers → Type 0
Kept address event ms ms' =
    (IsSharded ms → IsSharded ms')
    × (IsSharded ms
        → destroys address event ≡ false
        → search address ms.plugin_manager ≡ some address
        → search address ms'.plugin_manager ≡ some address)
    × (IsSharded ms
        → creates address event ≡ false
        → search address ms.plugin_manager ≡ none
        → search address ms'.plugin_manager ≡ none)

filter_new-Kept :
    (address other : ℕ) (ms : Managers)
    → Kept address (ManagerEvent.filter_new other) ms (on_filter_new_managers other ms)
unfolding on_filter_new_managers
filter_new-Kept address other ms = (
  λ s. (length-record_item other other ms.plugin_manager ∙ s.0, s.1),
  λ s d h. elim (Bool-cases (address == other)) [
    | inl same ↦ recorded s.0 ((==_iff address other).0 same)
    | inr differ ↦
        search-record_item_other other address other ms.plugin_manager s.0
          (apart_of address other differ)
        ∙ h
  ],
  λ s c h.
      search-record_item_other other address other ms.plugin_manager s.0 (apart_of address other c)
      ∙ h,
)
  where
    recorded :
        length ms.plugin_manager ≡ num_manager_shards
        → address ≡ other
        → search address (record_item other other ms.plugin_manager) ≡ some address
    recorded s e =
        subst (λ a. search address (record_item a a ms.plugin_manager) ≡ some address) e
          (search-record_item address address ms.plugin_manager s)

same-Kept : (address : ℕ) (event : ManagerEvent) (ms : Managers) → Kept address event ms ms
same-Kept address event ms = (λ s. s, λ s d h. h, λ s c h. h)

destroy-Kept :
    (address other : ℕ) (h : Handle) (ms : Managers) (b : Bool)
    → h.stream_destoried ≡ b
    → Kept address
        (ManagerEvent.stream_hook StreamHook.destroy other h)
        ms
        (manage_hook StreamHook.destroy other h ms)
unfolding manage_hook
destroy-Kept address other h ms true e =
    rw e (same-Kept address (ManagerEvent.stream_hook StreamHook.destroy other h) ms)
destroy-Kept address other h ms false e = rw e (
  λ s. (length-remove_item other ms.plugin_manager ∙ s.0, s.1),
  λ s d k.
      search-remove_item_other other address ms.plugin_manager s.0 (apart_of address other d) ∙ k,
  λ s c k. search-remove_item-none other address ms.plugin_manager s.0 k,
)

complete-Kept :
    (address other : ℕ) (h : Handle) (ms : Managers) (plugin : Option Reference)
    → h.plugin ≡ plugin
    → Kept address
        (ManagerEvent.stream_hook StreamHook.stream_complete other h)
        ms
        (manage_hook StreamHook.stream_complete other h ms)
unfolding manage_hook
complete-Kept address other h ms none e =
    rw e (same-Kept address (ManagerEvent.stream_hook StreamHook.stream_complete other h) ms)
complete-Kept address other h ms (some p) e = rw e (
  λ s. (s.0, length-clear_all h.recorded_shared_data ms.shared_data_manager ∙ s.1),
  λ s d k. k,
  λ s c k. k,
)

hook-Kept :
    (address other : ℕ) (hook : StreamHook) (h : Handle) (ms : Managers)
    → Kept address (ManagerEvent.stream_hook hook other h) ms (manage_hook hook other h ms)
unfolding manage_hook
hook-Kept address other (StreamHook.request_headers end_of_stream) h ms =
    same-Kept address (ManagerEvent.stream_hook (StreamHook.request_headers end_of_stream) other h)
      ms
hook-Kept address other (StreamHook.request_body end_of_stream) h ms =
    same-Kept address (ManagerEvent.stream_hook (StreamHook.request_body end_of_stream) other h) ms
hook-Kept address other StreamHook.request_trailers h ms =
    same-Kept address (ManagerEvent.stream_hook StreamHook.request_trailers other h) ms
hook-Kept address other (StreamHook.response_headers end_of_stream) h ms =
    same-Kept address (ManagerEvent.stream_hook (StreamHook.response_headers end_of_stream) other h)
      ms
hook-Kept address other (StreamHook.response_body end_of_stream) h ms =
    same-Kept address (ManagerEvent.stream_hook (StreamHook.response_body end_of_stream) other h) ms
hook-Kept address other StreamHook.response_trailers h ms =
    same-Kept address (ManagerEvent.stream_hook StreamHook.response_trailers other h) ms
hook-Kept address other StreamHook.stream_complete h ms =
    complete-Kept address other h ms h.plugin refl
hook-Kept address other StreamHook.destroy h ms =
    destroy-Kept address other h ms h.stream_destoried refl

manage-Kept :
    (address : ℕ) (event : ManagerEvent) (ms : Managers) → Kept address event ms (manage event ms)
unfolding manage
manage-Kept address (ManagerEvent.filter_new other) ms = filter_new-Kept address other ms
manage-Kept address (ManagerEvent.stream_hook hook other h) ms = hook-Kept address other hook h ms

any-first : (b c : Bool) → (b || c) ≡ false → b ≡ false
any-first true c e = e
any-first false c e = refl

any-rest : (b c : Bool) → (b || c) ≡ false → c ≡ false
any-rest true c e = cc
any-rest false c e = e

pub manage_all-IsSharded :
    (events : List ManagerEvent) (ms : Managers) → IsSharded ms → IsSharded (manage_all events ms)
unfolding manage_all
manage_all-IsSharded [] ms s = s
manage_all-IsSharded (event ∷ events) ms s =
    manage_all-IsSharded events (manage event ms) ((manage-Kept 0 event ms).0 s)

pub manage_all-recorded :
    (address : ℕ) (events : List ManagerEvent) (ms : Managers)
    → IsSharded ms
    → any (destroys address) events ≡ false
    → search address ms.plugin_manager ≡ some address
    → search address (manage_all events ms).plugin_manager ≡ some address
unfolding manage_all
manage_all-recorded address [] ms s d h = h
manage_all-recorded address (event ∷ events) ms s d h =
    let (sharded, recorded, absent) = manage-Kept address event ms in
    manage_all-recorded address events (manage event ms) (sharded s)
      (any-rest (destroys address event) (any (destroys address) events) d)
      (recorded s (any-first (destroys address event) (any (destroys address) events) d) h)

pub manage_all-absent :
    (address : ℕ) (events : List ManagerEvent) (ms : Managers)
    → IsSharded ms
    → any (creates address) events ≡ false
    → search address ms.plugin_manager ≡ none
    → search address (manage_all events ms).plugin_manager ≡ none
unfolding manage_all
manage_all-absent address [] ms s c h = h
manage_all-absent address (event ∷ events) ms s c h =
    let (sharded, recorded, absent) = manage-Kept address event ms in
    manage_all-absent address events (manage event ms) (sharded s)
      (any-rest (creates address event) (any (creates address) events) c)
      (absent s (any-first (creates address event) (any (creates address) events) c) h)
