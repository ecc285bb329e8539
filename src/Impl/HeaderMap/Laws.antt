-- ===== src/Impl/HeaderMap/Laws.antt =====
-- `dymHeaderMap` over a host that keeps what abi.h documents.
use luwes.Base.{
  ℕ, zero, suc, ◌+◌, ◌-◌, ◌≤◌, ◌<◌, ◌≡◌, refl, sym, ap, ap₂, ◌∙◌, Bool, true, false, not, ◌||◌,
  List, [], ◌∷◌, map, length, length-drop, drop, take, take_all, arith, if◌then◌else◌,
}
use luwes.Base.Bytes.{Bytes}
use luwes.Abi.Buffer.{Buffer, null, view, buffer_bytes}
use luwes.Abi.Common.{HttpHeaderType}
use luwes.Abi.Headers.{HeaderCallbacks, HeaderLaws, value_at}
use luwes.Impl.Buffers.{
  string_to_module_buffer, clean, is_empty, buffer_bytes-string_to_module_buffer,
}
use luwes.Impl.HeaderMap.{get_single_header, get_loop, get_counted, get}

nothing_below : (i : ℕ) → i < 0 → ⊥
nothing_below i h = omega (arith, h)

-- The element at an index in range, and the elements from it on.
drop-value_at :
    (i : ℕ) (vs : List Bytes)
    → i < length vs
    → (v : Bytes) × (value_at i vs ≡ view v) × (drop i vs ≡ v ∷ drop (i + 1) vs)
drop-value_at i [] h = elim (nothing_below i h) [ ]
drop-value_at zero (v ∷ vs) h = (v, refl, refl)
drop-value_at (suc i) (v ∷ vs) h =
    let (w, e, d) = drop-value_at i vs (omega (arith, h)) in
    (w, e, d ∙ sym (ap (λ n. w ∷ drop n (v ∷ vs)) (step i)))
  where
    step : (i : ℕ) → suc i + 1 ≡ suc (i + 1)
    step i = omega arith

less_one : (n : ℕ) → suc (suc n) - 1 ≡ suc n
less_one n = omega arith

empty_of_length : (vs : List Bytes) → length vs ≡ 0 → vs ≡ []
empty_of_length [] e = refl
empty_of_length (v ∷ vs) e = elim (nothing_below (length vs) (omega (arith, e))) [ ]

branch_count :
    (c : Bool) (x y : Buffer) (n : ℕ) → (if◌then◌else◌ {A = Buffer × ℕ} c (x, n) (y, n)).1 ≡ n
branch_count true x y n = refl
branch_count false x y n = refl

branch_value :
    (ret : Bool) (b : Buffer) (n : ℕ)
    → ret ≡ true
    → (if◌then◌else◌ {A = Buffer × ℕ} (not ret || is_empty b) (null, n) (b, n)).0 ≡ clean b
branch_value true null n e = refl
branch_value true (view []) n e = refl
branch_value true (view (c ∷ s)) n e = refl
branch_value false b n e = cc

-- What a caller of `Get` sees of a value.
abbrev pub shown : Bytes → Buffer
shown v = clean (view v)

module _ {S : Type 0} (host : HeaderCallbacks S) (law : HeaderLaws host) (nil_data : Bool) (s : S)
    (t : HttpHeaderType) (key : Bytes) where
  abbrev vs : List Bytes
  vs = law.values s t key

  value-is :
      (i : ℕ) → (host.get_header s t (string_to_module_buffer nil_data key) i).1 ≡ value_at i vs
  value-is i =
      law.get_header_value s t (string_to_module_buffer nil_data key) i
      ∙ ap (λ k. value_at i (law.values s t k)) (buffer_bytes-string_to_module_buffer nil_data key)

  abbrev answer : ℕ → Bool × Buffer × ℕ
  answer i = host.get_header s t (string_to_module_buffer nil_data key) i

  same_key :
      length (law.values s t (buffer_bytes (string_to_module_buffer nil_data key))) ≡ length vs
  same_key = ap (λ k. length (law.values s t k)) (buffer_bytes-string_to_module_buffer nil_data key)

  single_count : (i : ℕ) → (get_single_header host nil_data s t key i).1 ≡ length vs
  unfolding get_single_header
  single_count i =
      branch_count (not (answer i).0 || is_empty (answer i).1) null (answer i).1 (answer i).2
      ∙ law.get_header_count s t (string_to_module_buffer nil_data key) i
      ∙ same_key

  single_value :
      (i : ℕ)
      → i < length vs
      → (get_single_header host nil_data s t key i).0 ≡ clean (value_at i vs)
  unfolding get_single_header
  single_value i h =
      branch_value (answer i).0 (answer i).1 (answer i).2 (
        law.get_header_found s t (string_to_module_buffer nil_data key) i
          (omega (arith, h, same_key)))
      ∙ ap clean (value-is i)

  loop_values :
      (i n : ℕ)
      → i + n ≤ length vs
      → get_loop host nil_data s t key i n ≡ map shown (take n (drop i vs))
  unfolding get_loop
  loop_values i zero h = refl
  loop_values i (suc n) h =
      let (v, e, d) = drop-value_at i vs (omega (arith, h)) in
      ap₂ ◌∷◌ (single_value i (omega (arith, h)) ∙ ap clean e)
        (loop_values (i + 1) n (omega (arith, h)))
      ∙ sym (ap (λ l. map shown (take (suc n) l)) d)

  -- `Get`, on a number of values that the host has.
  get_some :
      (n : ℕ)
      → length vs ≡ suc n
      → (get_single_header host nil_data s t key 0).0 ∷ get_loop host nil_data s t key 1 n
        ≡ map shown vs
  get_some n e =
      let (v, at0, d) = drop-value_at 0 vs (omega (arith, e)) in
      ap₂ ◌∷◌ (single_value 0 (omega (arith, e)) ∙ ap clean at0)
        (loop_values 1 n (omega (arith, e)))
      ∙ ap (λ l. shown v ∷ map shown l)
          (take_all n (drop 1 vs) (omega (arith, length-drop 1 vs, e)))
      ∙ sym (ap (map shown) d)

  counted_many :
      (n : ℕ) (first : Buffer)
      → get_counted host nil_data s t key first (suc (suc n))
        ≡ first ∷ get_loop host nil_data s t key 1 (suc (suc n) - 1)
  unfolding get_counted
  counted_many n first = ground arith

  counted_values :
      (n : ℕ)
      → length vs ≡ n
      → get_counted host nil_data s t key (get_single_header host nil_data s t key 0).0 n
        ≡ map shown vs
  unfolding get_counted get_loop
  counted_values zero e = sym (ap (map shown) (empty_of_length vs e))
  counted_values (suc zero) e = get_some 0 e
  counted_values (suc (suc n)) e =
      counted_many n (get_single_header host nil_data s t key 0).0
      ∙ ap (λ k. (get_single_header host nil_data s t key 0).0 ∷ get_loop host nil_data s t key 1 k)
          (less_one n)
      ∙ get_some (suc n) e

  -- `Get` on a host that keeps what abi.h documents: all values of the key, in the host's order, an
  -- empty one as a null buffer.
  pub get_all_values : get host nil_data s t key ≡ map shown vs
  unfolding get
  get_all_values =
      ap (get_counted host nil_data s t key (get_single_header host nil_data s t key 0).0)
        (single_count 0)
      ∙ counted_values (length vs) refl
