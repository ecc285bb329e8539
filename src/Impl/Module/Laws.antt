-- ===== src/Impl/Module/Laws.antt =====
-- A handle is in the managers of abi_impl/internal.go while its filter lives.
use luwes.Base.{ℕ, ◌≡◌, ap, ◌∙◌, false, none, some, List, [], ◌∷◌, ◌++◌, length}
use luwes.Abi.Hooks.{StreamHook}
use luwes.Impl.Manager.{Manager, num_manager_shards, remove_item, search}
use luwes.Impl.Manager.Laws.{
  search-record_item, search-remove_item, length-record_item, length-remove_item,
}
use luwes.Impl.SharedData.{clear_all}
use luwes.Impl.SharedData.Laws.{clear_all-none}
use luwes.Impl.Handle.{Reference, Handle}
use luwes.Impl.Handle.Quiet.{any}
use luwes.Impl.Module.{Managers, ManagerEvent, on_filter_new_managers, manage_hook, manage_all}
use luwes.Impl.Module.Kept.{
  IsSharded, destroys, creates, manage_all-IsSharded, manage_all-recorded, manage_all-absent,
}

search-clear_all_of :
    (ps qs : List ℕ) (k : ℕ) (m : Manager Reference)
    → length m ≡ num_manager_shards
    → search k (clear_all (ps ++ (k ∷ qs)) m) ≡ none
unfolding clear_all
search-clear_all_of [] qs k m e =
    clear_all-none qs k (remove_item k m) (length-remove_item k m ∙ e) (search-remove_item k m e)
search-clear_all_of (p ∷ ps) qs k m e =
    search-clear_all_of ps qs k (remove_item p m) (length-remove_item p m ∙ e)

new-recorded :
    (address : ℕ) (ms : Managers)
    → IsSharded ms
    → IsSharded (on_filter_new_managers address ms)
      × (search address (on_filter_new_managers address ms).plugin_manager ≡ some address)
unfolding on_filter_new_managers
new-recorded address ms s = (
  (length-record_item address address ms.plugin_manager ∙ s.0, s.1),
  search-record_item address address ms.plugin_manager s.0,
)

destroyed :
    (address : ℕ) (h : Handle) (ms : Managers)
    → IsSharded ms
    → h.stream_destoried ≡ false
    → IsSharded (manage_hook StreamHook.destroy address h ms)
      × (search address (manage_hook StreamHook.destroy address h ms).plugin_manager ≡ none)
unfolding manage_hook
destroyed address h ms s d = rw d (
  (length-remove_item address ms.plugin_manager ∙ s.0, s.1),
  search-remove_item address ms.plugin_manager s.0,
)

completed :
    (address p pointer : ℕ) (before after : List ℕ) (h : Handle) (ms : Managers)
    → IsSharded ms
    → h.plugin ≡ some p
    → h.recorded_shared_data ≡ before ++ (pointer ∷ after)
    → search pointer (manage_hook StreamHook.stream_complete address h ms).shared_data_manager
      ≡ none
unfolding manage_hook
completed address p pointer before after h ms s q r = rw q (
    ap (λ l. search pointer (clear_all l ms.shared_data_manager)) r
    ∙ search-clear_all_of before after pointer ms.shared_data_manager s.1)

-- On managers of 32 shards: a filter that `on_http_filter_new` has made is found under its address
-- after any hooks of any streams, its own completion among them, and any other new filters, as long
-- as none destroys it; `destroy` on its handle, which had not been destroyed, removes it; and it is
-- not found again, whatever follows, until a filter is made under its address. At any time between,
-- `stream_complete` on a handle with a plugin removes every address that `SetData` has recorded.
pub module_lem :
    (address p pointer : ℕ) (before after : List ℕ) (h : Handle) (during later : List ManagerEvent)
    (ms : Managers)
    → IsSharded ms
    → any (destroys address) during ≡ false
    → any (creates address) later ≡ false
    → h.stream_destoried ≡ false
    → h.plugin ≡ some p
    → h.recorded_shared_data ≡ before ++ (pointer ∷ after)
    → let alive = manage_all during (on_filter_new_managers address ms) in
      (search address alive.plugin_manager ≡ some address)
      × (search address
            (manage_all later (manage_hook StreamHook.destroy address h alive)).plugin_manager
          ≡ none)
      × (search pointer (manage_hook StreamHook.stream_complete address h alive).shared_data_manager
          ≡ none)
module_lem address p pointer before after h during later ms s no_destroy no_create d q r =
    let (fresh, found) = new-recorded address ms s in
    let alive = manage_all during (on_filter_new_managers address ms) in
    let sharded = manage_all-IsSharded during (on_filter_new_managers address ms) fresh in
    let (left, gone) = destroyed address h alive sharded d in
    (
      manage_all-recorded address during (on_filter_new_managers address ms) fresh no_destroy found,
      manage_all-absent address later (manage_hook StreamHook.destroy address h alive) left
          no_create gone,
      completed address p pointer before after h alive sharded q r,
    )
