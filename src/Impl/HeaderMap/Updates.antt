-- ===== src/Impl/HeaderMap/Updates.antt =====
-- `Set`, `Remove` and the interface of `dymHeaderMap`, over a host that keeps what abi.h documents.
use luwes.Base.{
  ℕ, suc, ◌<◌, ◌≡◌, refl, sym, ap, ap₂, ◌∙◌, Bool, true, false, not, ◌&&◌, ◌||◌, Option, none, some,
  List, [], ◌∷◌, map, length, arith, if◌then◌else◌, ◌==◌,
}
use luwes.Base.Bytes.{Bytes}
use luwes.Abi.Buffer.{Buffer, null, view, HttpHeader, buffer_bytes}
use luwes.Abi.Common.{HttpHeaderType}
use luwes.Abi.Headers.{HeaderCallbacks, HeaderLaws, value_at, set_values}
use luwes.Impl.Buffers.{
  string_to_module_buffer, null_module_buffer, is_empty, buffer_bytes-string_to_module_buffer,
}
use luwes.Impl.HeaderMap.{
  found, filled, is_null, get, get_one, get_single_header, get_one_into, get_all, set, remove,
  as_header_map,
}
use luwes.Impl.HeaderMap.Laws.{get_all_values, shown}

-- The first of the values of a key.
abbrev pub first : List Bytes → Option Bytes
first [] = none
first (v ∷ vs) = some v

-- What `GetOne` shows of them: an empty value is shown as none.
abbrev shown_first : List Bytes → Buffer
shown_first [] = null
shown_first (v ∷ vs) = shown v

abbrev counted_single : Bool → Buffer → ℕ → Buffer × ℕ
counted_single ret b n = if not ret || is_empty b then (null, n) else (b, n)

first_shown :
    (vs : List Bytes) (ret : Bool) (b : Buffer) (n : ℕ)
    → b ≡ value_at 0 vs
    → (0 < length vs → ret ≡ true)
    → (counted_single ret b n).0 ≡ shown_first vs
first_shown [] true b n e h = ap (λ x. (counted_single true x n).0) e
first_shown [] false b n e h = refl
first_shown ([] ∷ vs) ret b n e h = ap₂ (λ r x. (counted_single r x n).0) (h (omega arith)) e
first_shown ((c ∷ v) ∷ vs) ret b n e h = ap₂ (λ r x. (counted_single r x n).0) (h (omega arith)) e

abbrev shown_header : Bytes × Bytes → HttpHeader
shown_header h = (view h.0, view h.1)

found_null : (ret : Bool) → found (ret && not (is_null null), null) ≡ none
found_null true = refl
found_null false = refl

found_first :
    (vs : List Bytes) (ret : Bool) (b : Buffer)
    → b ≡ value_at 0 vs
    → (0 < length vs → ret ≡ true)
    → found (ret && not (is_null b), b) ≡ first vs
found_first [] ret b e h = ap (λ x. found (ret && not (is_null x), x)) e ∙ found_null ret
found_first (v ∷ vs) ret b e h = ap₂ (λ r x. found (r && not (is_null x), x)) (h (omega arith)) e

counted_all :
    (headers : List HttpHeader) (n : ℕ)
    → n ≡ length headers
    → (if n == 0 then [] else filled n (true, headers)) ≡ headers
counted_all [] n e = ground arith
counted_all (h ∷ headers) n e = ground arith

length-map : {A B : Type 0} → (f : A → B) (l : List A) → length (map f l) ≡ length l
length-map f [] = refl
length-map f (a ∷ l) = ap suc (length-map f l)

bytes_of_views :
    (l : List (Bytes × Bytes))
    → map (λ (h : HttpHeader). (buffer_bytes h.0, buffer_bytes h.1)) (map shown_header l) ≡ l
bytes_of_views [] = refl
bytes_of_views (h ∷ l) = ap (◌∷◌ h) (bytes_of_views l)

module _ {S : Type 0} (host : HeaderCallbacks S) (law : HeaderLaws host) (nil_data : Bool) (s : S)
    (t : HttpHeaderType) where
  -- What sahl sees of the headers of a host that keeps what abi.h documents: of a key the first of
  -- its values, and all headers in their order.
  pub as_header_map_lem :
      (key : Bytes)
      → ((as_header_map host nil_data s t).get_one_into key ≡ first (law.values s t key))
        × ((as_header_map host nil_data s t).get_all ≡ law.all s t)
  unfolding as_header_map get_one_into get_all
  as_header_map_lem key = (
    single,
    ap (map (λ (h : HttpHeader). (buffer_bytes h.0, buffer_bytes h.1))) every
        ∙ bytes_of_views (law.all s t),
  )
    where
      single : found (get_one_into host nil_data s t key) ≡ first (law.values s t key)
      single =
          let k = string_to_module_buffer nil_data key in
          let e = ap (law.values s t) (buffer_bytes-string_to_module_buffer nil_data key) in
          found_first (law.values s t (buffer_bytes k)) (host.get_header s t k 0).0
            (host.get_header s t k 0).1 (law.get_header_value s t k 0)
            (law.get_header_found s t k 0)
          ∙ ap first e

      every : get_all host nil_data s t ≡ map shown_header (law.all s t)
      every =
          ap₂ (λ n r. if n == 0 then [] else filled n r) (law.size_is s t) (law.headers_are s t)
          ∙ counted_all (map shown_header (law.all s t)) (length (law.all s t))
              (sym (length-map shown_header (law.all s t)))

module _ {S : Type 0} (host : HeaderCallbacks S) (law : HeaderLaws host) (nil_data : Bool) (s : S)
    (t : HttpHeaderType) where
  -- What every getter of `dymHeaderMap` finds under a key that has so many values.
  abbrev Finds : S → Bytes → List Bytes → Type 0
  Finds s₁ key vs =
      (get host nil_data s₁ t key ≡ map shown vs)
      × (get_one host nil_data s₁ t key ≡ shown_first vs)
      × ((as_header_map host nil_data s₁ t).get_one_into key ≡ first vs)

  single_header :
      (s₁ : S) (key : Bytes) → get_one host nil_data s₁ t key ≡ shown_first (law.values s₁ t key)
  unfolding get_one get_single_header
  single_header s₁ key =
      let k = string_to_module_buffer nil_data key in
      first_shown (law.values s₁ t (buffer_bytes k)) (host.get_header s₁ t k 0).0
        (host.get_header s₁ t k 0).1 (host.get_header s₁ t k 0).2 (law.get_header_value s₁ t k 0)
        (law.get_header_found s₁ t k 0)
      ∙ ap (λ b. shown_first (law.values s₁ t b))
          (buffer_bytes-string_to_module_buffer nil_data key)

  values-Finds :
      (s₁ : S) (key : Bytes) (vs : List Bytes) → law.values s₁ t key ≡ vs → Finds s₁ key vs
  values-Finds s₁ key vs e = (
    get_all_values host law nil_data s₁ t key ∙ ap (map shown) e,
    single_header s₁ key ∙ ap shown_first e,
    (as_header_map_lem host law nil_data s₁ t key).0 ∙ ap first e,
  )

  values_same :
      (key : Bytes) (b : Buffer)
      → (host.set_header s t (string_to_module_buffer nil_data key) b).0 ≡ true
      → law.values (host.set_header s t (string_to_module_buffer nil_data key) b).1 t key
        ≡ set_values b
  values_same key b ok =
      sym (
        ap (law.values (host.set_header s t (string_to_module_buffer nil_data key) b).1 t)
          (buffer_bytes-string_to_module_buffer nil_data key))
      ∙ law.set_header_same s t (string_to_module_buffer nil_data key) b ok

  -- On a host that keeps what abi.h documents and on which the two calls succeed: after `Set` of a
  -- non-empty value, `Get`, `GetOne` and `GetOneInto` find it under its key, `Get` nothing else; and
  -- after `Remove` they find nothing under the key.
  pub get-set :
      (key : Bytes) (c : ℕ) (v : Bytes)
      → (host.set_header s t
          (string_to_module_buffer nil_data key)
          (string_to_module_buffer nil_data (c ∷ v))).0
        ≡ true
      → (host.set_header s t (string_to_module_buffer nil_data key) null_module_buffer).0 ≡ true
      → let after_set = set host nil_data s t key (c ∷ v) in
        let after_remove = remove host nil_data s t key in
        (get host nil_data after_set t key ≡ view (c ∷ v) ∷ [])
        × (get_one host nil_data after_set t key ≡ view (c ∷ v))
        × ((as_header_map host nil_data after_set t).get_one_into key ≡ some (c ∷ v))
        × (get host nil_data after_remove t key ≡ [])
        × (get_one host nil_data after_remove t key ≡ null)
        × ((as_header_map host nil_data after_remove t).get_one_into key ≡ none)
  unfolding set remove string_to_module_buffer null_module_buffer
  get-set key c v set_ok remove_ok =
      let (all, one, into) =
        values-Finds (set host nil_data s t key (c ∷ v)) key ((c ∷ v) ∷ [])
          (values_same key (view (c ∷ v)) set_ok) in
      let (all', one', into') =
        values-Finds (remove host nil_data s t key) key [] (values_same key null remove_ok) in
      (all, one, into, all', one', into')
