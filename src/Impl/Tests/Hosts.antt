-- ===== src/Impl/Tests/Hosts.antt =====
-- Hosts that keep what abi.h documents of headers, bodies and metadata.
use luwes.Base.{
  ℕ, ◌<◌, ◌≡◌, ◌≢◌, refl, sym, ap, ◌∙◌, Bool, true, false, Option, none, some, List, [], ◌∷◌, ◌++◌,
  map, length, drop, if◌then◌else◌, ◌==◌, ltb, arith, append-nil, append_assoc, Bool-cases, inl,
  inr,
}
use luwes.Base.Bytes.{Bytes, bytes_eq, lookup, insert, lookup-insert, bytes_eq_refl, eq_of_bytes_eq}
use luwes.Abi.Buffer.{view, buffer_bytes}
use luwes.Abi.Http.{HttpBodyType}
use luwes.Abi.Headers.{HeaderCallbacks, HeaderLaws, value_at, set_values}
use luwes.Abi.Body.{BodyCallbacks, BodyLaws, concat}
use luwes.Abi.Metadata.{
  MetadataCallbacks, MetadataLaws, MetadataValue, text_of, number_of, boolean_of,
}

bytes_eq_other : (k j : Bytes) → k ≢ j → bytes_eq k j ≡ false
bytes_eq_other k j ne = elim (Bool-cases (bytes_eq k j)) [
  | inl e ↦ absurd (ne (eq_of_bytes_eq k j e))
  | inr e ↦ e
]

-- The state of a host with one set of headers: the values of each key.
abbrev pub Values : Type 0
Values = List (Bytes × List Bytes)

module _ {A : Type 0} where
  pub lookup-insert_same :
      (k : Bytes) (v : A) (m : List (Bytes × A)) → lookup k (insert k v m) ≡ some v
  lookup-insert_same k v m =
      lookup-insert k k v m ∙ ap (λ b. if b then some v else lookup k m) (bytes_eq_refl k)

  pub lookup-insert_other :
      (k j : Bytes) (v : A) (m : List (Bytes × A)) → k ≢ j → lookup j (insert k v m) ≡ lookup j m
  lookup-insert_other k j v m ne =
      lookup-insert k j v m ∙ ap (λ b. if b then some v else lookup j m) (bytes_eq_other k j ne)

abbrev pub or_none {ℓ} : {A : Type ℓ} → Option (List A) → List A
or_none none = []
or_none (some l) = l

abbrev pub values_of : Values → Bytes → List Bytes
values_of s key = or_none (lookup key s)

abbrev pub pairs_of : Values → List (Bytes × Bytes)
pairs_of [] = []
pairs_of ((key, vs) ∷ s) = map (λ v. (key, v)) vs ++ pairs_of s

abbrev pub header_host : HeaderCallbacks Values
header_host = record {
  get_header = λ s t key i. (
    ltb i (length (values_of s (buffer_bytes key))),
    value_at i (values_of s (buffer_bytes key)),
    length (values_of s (buffer_bytes key)),
  );
  get_headers_size = λ s t. length (pairs_of s);
  get_headers = λ s t. (true, map (λ h. (view h.0, view h.1)) (pairs_of s));
  add_header = λ s t key value.
      (true, insert (buffer_bytes key) (values_of s (buffer_bytes key) ++ set_values value) s);
  set_header = λ s t key value. (true, insert (buffer_bytes key) (set_values value) s);
}

pub ltb-true : (i n : ℕ) → i < n → ltb i n ≡ true
ltb-true i n h = ground (arith, h)

unfoldable pub header_laws : HeaderLaws header_host
header_laws = record {
  values = λ s t key. values_of s key;
  all = λ s t. pairs_of s;
  get_header_count = λ s t key i. refl;
  get_header_value = λ s t key i. refl;
  get_header_found = λ s t key i h. ltb-true i (length (values_of s (buffer_bytes key))) h;
  size_is = λ s t. refl;
  headers_are = λ s t. refl;
  set_header_same =
      λ s t key value ok. ap or_none (lookup-insert_same (buffer_bytes key) (set_values value) s);
}

-- The bodies by their numbers.
abbrev pub body_number : HttpBodyType → ℕ
body_number HttpBodyType.received_request_body = 0
body_number HttpBodyType.buffered_request_body = 1
body_number HttpBodyType.received_response_body = 2
body_number HttpBodyType.buffered_response_body = 3

abbrev pub Bodies : Type 0
Bodies = HttpBodyType → List Bytes

abbrev pub put_body : HttpBodyType → List Bytes → Bodies → Bodies
put_body t chunks s u = if body_number u == body_number t then chunks else s u

pub put_body_same :
    (t : HttpBodyType) (chunks : List Bytes) (s : Bodies) → put_body t chunks s t ≡ chunks
put_body_same HttpBodyType.received_request_body chunks s = refl
put_body_same HttpBodyType.buffered_request_body chunks s = refl
put_body_same HttpBodyType.received_response_body chunks s = refl
put_body_same HttpBodyType.buffered_response_body chunks s = refl

pub concat-append : (xs ys : List Bytes) → concat (xs ++ ys) ≡ concat xs ++ concat ys
concat-append [] ys = refl
concat-append (x ∷ xs) ys =
    ap (λ b. x ++ b) (concat-append xs ys) ∙ sym (append_assoc x (concat xs) (concat ys))

-- A body without chunks is unavailable: it cannot be read, appended to or drained.
abbrev pub has_chunks : List Bytes → Bool
has_chunks [] = false
has_chunks (c ∷ chunks) = true

pub no_chunks_without : (chunks : List Bytes) → has_chunks chunks ≡ false → chunks ≡ []
no_chunks_without [] e = refl
no_chunks_without (c ∷ chunks) e = cc

-- An available body is changed.
abbrev pub changed_if : Bool → Bodies → Bodies → Bool × Bodies
changed_if true new s = (true, new)
changed_if false new s = (false, s)

abbrev pub body_host : BodyCallbacks Bodies
body_host = record {
  get_body_size = λ s t. length (concat (s t));
  get_body_chunks = λ s t. (has_chunks (s t), map view (s t));
  get_body_chunks_size = λ s t. length (s t);
  append_body =
      λ s t more. changed_if (has_chunks (s t)) (put_body t (s t ++ (buffer_bytes more ∷ [])) s) s;
  drain_body = λ s t n. changed_if (has_chunks (s t)) (put_body t (drop n (concat (s t)) ∷ []) s) s;
  received_buffered_request_body = λ s. false;
  received_buffered_response_body = λ s. false;
}

unfoldable pub body_laws : BodyLaws body_host
body_laws = record {
  chunks = λ s t. s t;
  is_available = λ s t. has_chunks (s t);
  unavailable_is_empty = λ s t e. no_chunks_without (s t) e;
  size_is = λ s t. refl;
  count_is = λ s t. refl;
  chunks_are = λ s t e. ap (λ b. (b, map view (s t))) e;
  append_bytes = λ s t more e.
      ap (λ b. concat ((changed_if b (put_body t (s t ++ (buffer_bytes more ∷ [])) s) s).1 t)) e
      ∙ ap concat (put_body_same t (s t ++ (buffer_bytes more ∷ [])) s)
      ∙ concat-append (s t) (buffer_bytes more ∷ [])
      ∙ ap (λ b. concat (s t) ++ b) (append-nil (buffer_bytes more));
  drain_bytes = λ s t n e.
      ap (λ b. concat ((changed_if b (put_body t (drop n (concat (s t)) ∷ []) s) s).1 t)) e
      ∙ ap concat (put_body_same t (drop n (concat (s t)) ∷ []) s)
      ∙ append-nil (drop n (concat (s t)));
}

-- The values of each key, by namespace; one set for all sources.
abbrev pub Metadata : Type 0
Metadata = List (Bytes × List (Bytes × MetadataValue))

abbrev pub metadata_value : Metadata → Bytes → Bytes → Option MetadataValue
metadata_value s ns key = lookup key (or_none (lookup ns s))

abbrev pub put_metadata : Metadata → Bytes → Bytes → MetadataValue → Metadata
put_metadata s ns key v = insert ns (insert key v (or_none (lookup ns s))) s

abbrev pub metadata_host : MetadataCallbacks Metadata
metadata_host = record {
  set_dynamic_metadata_number =
      λ s ns key v. put_metadata s (buffer_bytes ns) (buffer_bytes key) (MetadataValue.number v);
  get_metadata_number =
      λ s m ns key. number_of (metadata_value s (buffer_bytes ns) (buffer_bytes key));
  set_dynamic_metadata_string = λ s ns key v.
      put_metadata s (buffer_bytes ns) (buffer_bytes key) (MetadataValue.text (buffer_bytes v));
  get_metadata_string =
      λ s m ns key. text_of (metadata_value s (buffer_bytes ns) (buffer_bytes key));
  set_dynamic_metadata_bool =
      λ s ns key v. put_metadata s (buffer_bytes ns) (buffer_bytes key) (MetadataValue.boolean v);
  get_metadata_bool =
      λ s m ns key. boolean_of (metadata_value s (buffer_bytes ns) (buffer_bytes key));
}

pub put_metadata_same :
    (s : Metadata) (ns key : Bytes) (v : MetadataValue)
    → metadata_value (put_metadata s ns key v) ns key ≡ some v
put_metadata_same s ns key v =
    ap (λ o. lookup key (or_none o))
      (lookup-insert_same ns (insert key v (or_none (lookup ns s))) s)
    ∙ lookup-insert_same key v (or_none (lookup ns s))

pub put_metadata_other :
    (s : Metadata) (ns key other : Bytes) (v : MetadataValue)
    → key ≢ other
    → metadata_value (put_metadata s ns key v) ns other ≡ metadata_value s ns other
put_metadata_other s ns key other v ne =
    ap (λ o. lookup other (or_none o))
      (lookup-insert_same ns (insert key v (or_none (lookup ns s))) s)
    ∙ lookup-insert_other key other v (or_none (lookup ns s)) ne

unfoldable pub metadata_laws : MetadataLaws metadata_host
metadata_laws = record {
  value = λ s m ns key. metadata_value s ns key;
  get_text = λ s m ns key. refl;
  get_number = λ s m ns key. refl;
  get_boolean = λ s m ns key. refl;
  set_text = λ s ns key v.
      put_metadata_same s (buffer_bytes ns) (buffer_bytes key)
        (MetadataValue.text (buffer_bytes v));
  set_text_other = λ s ns key v other ne.
      put_metadata_other s (buffer_bytes ns) (buffer_bytes key) other
        (MetadataValue.text (buffer_bytes v)) ne;
  set_number = λ s ns key v.
      put_metadata_same s (buffer_bytes ns) (buffer_bytes key) (MetadataValue.number v);
  set_boolean = λ s ns key v.
      put_metadata_same s (buffer_bytes ns) (buffer_bytes key) (MetadataValue.boolean v);
}
