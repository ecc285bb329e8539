-- ===== src/Impl/Manager.antt =====
-- `manager` of abi_impl/internal.go, the map from addresses to recorded objects. An address is a
-- number; each operation holds the lock of its shard, so that calls are a sequence of operations.
pub mod Laws
use luwes.Base.{ℕ, zero, suc, ◌%◌, Option, List, [], ◌∷◌, replicate}
use luwes.Impl.GoMap.{GoMap, put, find, delete}

abbrev pub num_manager_shards : ℕ
num_manager_shards = 32

-- The array of maps.
abbrev pub Manager {ℓ} : Type ℓ → Type ℓ
Manager A = List (GoMap A)

module _ {ℓ} {A : Type ℓ} where
  unfoldable pub shard : ℕ → Manager A → GoMap A
  shard i [] = []
  shard zero (m ∷ ms) = m
  shard (suc i) (m ∷ ms) = shard i ms

  unfoldable pub update_shard : ℕ → (GoMap A → GoMap A) → Manager A → Manager A
  update_shard i f [] = []
  update_shard zero f (m ∷ ms) = f m ∷ ms
  update_shard (suc i) f (m ∷ ms) = m ∷ update_shard i f ms

  unfoldable pub new_manager : Manager A
  new_manager = replicate num_manager_shards []

  unfoldable pub record_item : ℕ → A → Manager A → Manager A
  unfolding update_shard put
  record_item pointer item m = update_shard (pointer % num_manager_shards) (put pointer item) m

  unfoldable pub search : ℕ → Manager A → Option A
  unfolding shard find
  search key m = find key (shard (key % num_manager_shards) m)

  unfoldable pub remove_item : ℕ → Manager A → Manager A
  unfolding update_shard delete
  remove_item pointer m = update_shard (pointer % num_manager_shards) (delete pointer) m

-- The calls that change a manager.
pub data Operation {ℓ} (A : Type ℓ) : Type ℓ where
  recording : ℕ → A → Operation A
  removal : ℕ → Operation A

module _ {ℓ} {A : Type ℓ} where
  unfoldable pub perform : Operation A → Manager A → Manager A
  unfolding record_item remove_item
  perform (recording pointer item) m = record_item pointer item m
  perform (removal pointer) m = remove_item pointer m

  unfoldable pub perform_all : List (Operation A) → Manager A → Manager A
  unfolding perform
  perform_all [] m = m
  perform_all (op ∷ ops) m = perform_all ops (perform op m)
