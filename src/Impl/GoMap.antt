-- ===== src/Impl/GoMap.antt =====
-- Go's maps of abi_impl/internal.go with integers as keys: an absent key reads as nil.
use luwes.Base.{ℕ, ◌≡◌, ◌≢◌, refl, Option, none, some, List, [], ◌∷◌, if◌then◌else◌, ◌==◌, arith}

abbrev pub GoMap {ℓ} : Type ℓ → Type ℓ
GoMap A = List (ℕ × A)

module _ {ℓ} {A : Type ℓ} where
  unfoldable pub find : ℕ → GoMap A → Option A
  find k [] = none
  find k ((j, a) ∷ m) = let rest = find k m in if k == j then some a else rest

  unfoldable pub delete : ℕ → GoMap A → GoMap A
  delete k [] = []
  delete k ((j, a) ∷ m) = let rest = delete k m in if k == j then rest else (j, a) ∷ rest

  unfoldable pub put : ℕ → A → GoMap A → GoMap A
  unfolding delete
  put k a m = (k, a) ∷ delete k m

  pub find-delete : (k : ℕ) (m : GoMap A) → find k (delete k m) ≡ none
  unfolding find delete
  find-delete k [] = refl
  find-delete k ((j, a) ∷ m) = ground (arith, find-delete k m)

  pub find-delete_other : (k l : ℕ) (m : GoMap A) → l ≢ k → find l (delete k m) ≡ find l m
  unfolding find delete
  find-delete_other k l [] ne = refl
  find-delete_other k l ((j, a) ∷ m) ne = ground (arith, find-delete_other k l m ne)

  pub find-delete-none : (k l : ℕ) (m : GoMap A) → find l m ≡ none → find l (delete k m) ≡ none
  unfolding find delete
  find-delete-none k l [] e = refl
  find-delete-none k l ((j, a) ∷ m) e = ground (arith, find-delete-none k l m, e)

  pub find-put : (k : ℕ) (a : A) (m : GoMap A) → find k (put k a m) ≡ some a
  unfolding find put
  find-put k a m = ground arith

  pub find-put_other : (k l : ℕ) (a : A) (m : GoMap A) → l ≢ k → find l (put k a m) ≡ find l m
  unfolding find put
  find-put_other k l a m ne = ground (arith, find-delete_other k l m ne)
