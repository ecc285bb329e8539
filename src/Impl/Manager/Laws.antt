-- ===== src/Impl/Manager/Laws.antt =====
-- The sharded manager is one map.
use luwes.Base.{
  ℕ, zero, suc, ◌%◌, ◌<◌, ◌≡◌, ◌≢◌, refl, sym, ap, subst, ◌∙◌, Bool-cases, inl, inr, none, some,
  List, [], ◌∷◌, length, length-replicate, replicate, arith, ◌==◌, ==_iff, false,
}
use luwes.Impl.GoMap.{
  GoMap, put, find, delete, find-put, find-put_other, find-delete, find-delete_other,
}
use luwes.Impl.Manager.{
  Manager, num_manager_shards, shard, update_shard, new_manager, record_item, search, remove_item,
  Operation, recording, removal, perform, perform_all,
}

pub apart_of : (k p : ℕ) → (k == p) ≡ false → k ≢ p
apart_of k p d q = ground (arith, q, d)

module _ {ℓ} {A : Type ℓ} where
  length-update_shard :
      (i : ℕ) (f : GoMap A → GoMap A) (m : Manager A) → length (update_shard i f m) ≡ length m
  unfolding update_shard
  length-update_shard i f [] = refl
  length-update_shard zero f (s ∷ m) = refl
  length-update_shard (suc i) f (s ∷ m) = ap suc (length-update_shard i f m)

  shard-update_shard :
      (i : ℕ) (f : GoMap A → GoMap A) (m : Manager A)
      → i < length m
      → shard i (update_shard i f m) ≡ f (shard i m)
  unfolding shard update_shard
  shard-update_shard i f [] h = absurd (omega (arith, h))
  shard-update_shard zero f (s ∷ m) h = refl
  shard-update_shard (suc i) f (s ∷ m) h = shard-update_shard i f m (omega (arith, h))

  shard-update_shard_other :
      (i j : ℕ) (f : GoMap A → GoMap A) (m : Manager A)
      → j ≢ i
      → shard j (update_shard i f m) ≡ shard j m
  unfolding shard update_shard
  shard-update_shard_other i j f [] ne = refl
  shard-update_shard_other zero zero f (s ∷ m) ne = absurd (ne refl)
  shard-update_shard_other zero (suc j) f (s ∷ m) ne = refl
  shard-update_shard_other (suc i) zero f (s ∷ m) ne = refl
  shard-update_shard_other (suc i) (suc j) f (s ∷ m) ne =
      shard-update_shard_other i j f m (λ e. ne (ap suc e))

  in_range : (k : ℕ) (m : Manager A) → length m ≡ 32 → k % num_manager_shards < length m
  in_range k m e = omega (arith, e)

  -- A change of one shard that leaves a key alone there leaves its search alone.
  search_apart :
      (p k : ℕ) (f : GoMap A → GoMap A) (m : Manager A)
      → length m ≡ 32
      → ((s : GoMap A) → find k (f s) ≡ find k s)
      → search k (update_shard (p % num_manager_shards) f m) ≡ search k m
  unfolding search
  search_apart p k f m e alone = elim (Bool-cases ((k % 32) == (p % 32))) [
    | inl same ↦
        ap (λ i. find k (shard (k % 32) (update_shard i f m)))
          (sym ((==_iff (k % 32) (p % 32)).0 same))
        ∙ ap (find k) (shard-update_shard (k % 32) f m (in_range k m e))
        ∙ alone (shard (k % 32) m)
    | inr differ ↦
        ap (find k)
          (shard-update_shard_other (p % 32) (k % 32) f m (apart_of (k % 32) (p % 32) differ))
  ]

  search-here :
      (p : ℕ) (f : GoMap A → GoMap A) (m : Manager A)
      → length m ≡ 32
      → search p (update_shard (p % num_manager_shards) f m)
        ≡ find p (f (shard (p % num_manager_shards) m))
  unfolding search
  search-here p f m e = ap (find p) (shard-update_shard (p % 32) f m (in_range p m e))

  -- The manager answers as a flat map does.
  abbrev Agrees : Manager A → GoMap A → Type ℓ
  Agrees m flat = (length m ≡ 32) × ((k : ℕ) → search k m ≡ find k flat)

  -- The operation on one map.
  abbrev pub perform_flat : Operation A → GoMap A → GoMap A
  perform_flat (recording pointer item) flat = put pointer item flat
  perform_flat (removal pointer) flat = delete pointer flat

  abbrev pub perform_all_flat : List (Operation A) → GoMap A → GoMap A
  perform_all_flat [] flat = flat
  perform_all_flat (op ∷ ops) flat = perform_all_flat ops (perform_flat op flat)

  -- A change under one key of one shard is the same change of the flat map.
  Agrees-update_shard :
      (p : ℕ) (f : GoMap A → GoMap A) (m : Manager A) (flat : GoMap A)
      → ((s s' : GoMap A) → find p (f s) ≡ find p (f s'))
      → ((k : ℕ) → k ≢ p → (s : GoMap A) → find k (f s) ≡ find k s)
      → Agrees m flat
      → Agrees (update_shard (p % num_manager_shards) f m) (f flat)
  Agrees-update_shard p f m flat here alone (e, h) = (
    length-update_shard (p % 32) f m ∙ e,
    λ k. elim (Bool-cases (k == p)) [
      | inl same ↦
          subst (λ j. search j (update_shard (p % 32) f m) ≡ find j (f flat))
            (sym ((==_iff k p).0 same)) (search-here p f m e ∙ here (shard (p % 32) m) flat)
      | inr differ ↦
          search_apart p k f m e (alone k (apart_of k p differ))
          ∙ h k
          ∙ sym (alone k (apart_of k p differ) flat)
    ],
  )

  Agrees-perform :
      (op : Operation A) (m : Manager A) (flat : GoMap A)
      → Agrees m flat
      → Agrees (perform op m) (perform_flat op flat)
  unfolding perform record_item remove_item
  Agrees-perform (recording p item) m flat h =
      Agrees-update_shard p (put p item) m flat
        (λ s s'. find-put p item s ∙ sym (find-put p item s'))
        (λ k ne s. find-put_other p k item s ne) h
  Agrees-perform (removal p) m flat h =
      Agrees-update_shard p (delete p) m flat (λ s s'. find-delete p s ∙ sym (find-delete p s'))
        (λ k ne s. find-delete_other p k s ne) h

  Agrees-perform_all :
      (ops : List (Operation A)) (m : Manager A) (flat : GoMap A)
      → Agrees m flat
      → Agrees (perform_all ops m) (perform_all_flat ops flat)
  unfolding perform_all
  Agrees-perform_all [] m flat h = h
  Agrees-perform_all (op ∷ ops) m flat h =
      Agrees-perform_all ops (perform op m) (perform_flat op flat) (Agrees-perform op m flat h)

  nothing_in : (n i k : ℕ) → find {A = A} k (shard i (replicate n [])) ≡ none
  unfolding find shard
  nothing_in zero i k = refl
  nothing_in (suc n) zero k = refl
  nothing_in (suc n) (suc i) k = nothing_in n i k

  -- After any sequence of `record` and `remove` on a new manager, `search` finds under every address
  -- what the same sequence leaves in one map without shards.
  pub search-perform_all :
      (ops : List (Operation A)) (key : ℕ)
      → search key (perform_all ops new_manager) ≡ find key (perform_all_flat ops [])
  unfolding search new_manager find
  search-perform_all ops key =
      (Agrees-perform_all ops new_manager []
          (length-replicate {A = GoMap A} 32 [], λ k. nothing_in 32 (k % 32) k)).1
        key

  pub search-record_item :
      (p : ℕ) (item : A) (m : Manager A)
      → length m ≡ num_manager_shards
      → search p (record_item p item m) ≡ some item
  unfolding record_item
  search-record_item p item m e =
      search-here p (put p item) m e ∙ find-put p item (shard (p % num_manager_shards) m)

  pub search-record_item_other :
      (p k : ℕ) (item : A) (m : Manager A)
      → length m ≡ num_manager_shards
      → k ≢ p
      → search k (record_item p item m) ≡ search k m
  unfolding record_item
  search-record_item_other p k item m e ne =
      search_apart p k (put p item) m e (λ s. find-put_other p k item s ne)

  pub search-remove_item :
      (p : ℕ) (m : Manager A) → length m ≡ num_manager_shards → search p (remove_item p m) ≡ none
  unfolding remove_item
  search-remove_item p m e =
      search-here p (delete p) m e ∙ find-delete p (shard (p % num_manager_shards) m)

  -- A removal leaves what is not there.
  pub search-remove_item-none :
      (p k : ℕ) (m : Manager A)
      → length m ≡ num_manager_shards
      → search k m ≡ none
      → search k (remove_item p m) ≡ none
  unfolding remove_item
  search-remove_item-none p k m e h = elim (Bool-cases (k == p)) [
    | inl same ↦
        subst (λ j. search j (remove_item p m) ≡ none) (sym ((==_iff k p).0 same))
          (search-remove_item p m e)
    | inr differ ↦ removed (apart_of k p differ)
  ]
    where
      removed : k ≢ p → search k (remove_item p m) ≡ none
      removed ne = search_apart p k (delete p) m e (λ s. find-delete_other p k s ne) ∙ h

  pub search-remove_item_other :
      (p k : ℕ) (m : Manager A)
      → length m ≡ num_manager_shards
      → k ≢ p
      → search k (remove_item p m) ≡ search k m
  unfolding remove_item
  search-remove_item_other p k m e ne =
      search_apart p k (delete p) m e (λ s. find-delete_other p k s ne)

  pub length-record_item :
      (p : ℕ) (item : A) (m : Manager A) → length (record_item p item m) ≡ length m
  unfolding record_item
  length-record_item p item m = length-update_shard (p % num_manager_shards) (put p item) m

  pub length-remove_item : (p : ℕ) (m : Manager A) → length (remove_item p m) ≡ length m
  unfolding remove_item
  length-remove_item p m = length-update_shard (p % num_manager_shards) (delete p) m
