-- ===== src/Sahl/Request.antt =====
-- `Request` and `Header` of sahl/request.go. A header map of the host is a parameter: what it
-- answers to `GetOneInto`, `none` where the key is not found.
use luwes.Base.{
  ℕ, ◌≡◌, refl, sym, ◌∙◌, Option, none, some, List, [], ◌∷◌, arith, ◌⊎◌, inl, inr, Option-cases,
}
use luwes.Base.Bytes.{Bytes, ascii, eq_of_bytes_eq, lookup, insert, lookup-insert}
use luwes.Sahl.Host.{Pair}
use luwes.Sahl.Text.{ascii_to_lower}

pub record HeaderMap : Type 0 where
  pub get_one_into : Bytes → Option Bytes
  pub get_all : List Pair

-- The cache has lower-case keys.
pub record Header : Type 0 where
  pub hm : HeaderMap
  pub cache : List (Bytes × Bytes)

-- A buffer of length 0 counts as absent.
abbrev pub nonempty : Option Bytes → Option Bytes
nonempty none = none
nonempty (some []) = none
nonempty (some (c ∷ v)) = some (c ∷ v)

abbrev fetched : Bytes → Header → Option Bytes → Bytes × Header
fetched lower h none = ([], h)
fetched lower h (some v) = (v, record h { cache = insert lower v h.cache })

abbrev cached_or : Option Bytes → Bytes × Header → Header → Bytes × Header
cached_or (some v) miss h = (v, h)
cached_or none miss h = miss

-- `Header.Get`: the value, and the header with its cache.
unfoldable pub get : Bytes → Header → Bytes × Header
unfolding ascii_to_lower lookup insert
get key h =
    let lower = ascii_to_lower key in
    cached_or (lookup lower h.cache) (fetched lower h (nonempty (h.hm.get_one_into lower))) h

-- `Header.Peek`: the value, if the key is present.
unfoldable pub peek : Bytes → Header → Option Bytes
unfolding ascii_to_lower lookup
peek key h =
    let lower = ascii_to_lower key in
    elim (lookup lower h.cache) [ some v ↦ some v | none ↦ nonempty (h.hm.get_one_into lower) ]

-- `Header.reset`.
unfoldable pub header_reset : HeaderMap → Header → Header
header_reset hm h = record { hm = hm; cache = [] }

pub record Request : Type 0 where
  pub header : Header
  pub method : Bytes
  pub path : Bytes
  pub host : Bytes
  pub filter_name : Bytes
  pub handle : ℕ

abbrev pub or_empty : Option Bytes → Bytes
or_empty none = []
or_empty (some v) = v

-- `Request.reset`, of a request from the pool.
unfoldable pub request_reset : HeaderMap → ℕ → Bytes → Request → Request
unfolding header_reset
request_reset hm handle name r = record {
  header = header_reset hm r.header;
  method = or_empty (hm.get_one_into (ascii ":method"));
  path = or_empty (hm.get_one_into (ascii ":path"));
  host = or_empty (hm.get_one_into (ascii ":authority"));
  filter_name = name;
  handle = handle;
}

-- The cache holds what the host's map answers.
abbrev pub IsCoherent : Header → Type 0
IsCoherent h = (k v : Bytes) → lookup k h.cache ≡ some v → nonempty (h.hm.get_one_into k) ≡ some v

-- What the host's map says of a key, in any case.
abbrev pub answer : Bytes → Header → Option Bytes
answer key h = nonempty (h.hm.get_one_into (ascii_to_lower key))

peek-answer : (key : Bytes) (h : Header) → IsCoherent h → peek key h ≡ answer key h
unfolding peek
peek-answer key h c = elim (Option-cases (lookup (ascii_to_lower key) h.cache)) [
  | inl e ↦ rw (e, peek)
  | inr (v, e) ↦ rw (e, peek) (sym (c (ascii_to_lower key) v e))
]

-- The header after a value has been fetched and stored.
module _ (lower v : Bytes) (h : Header) (c : IsCoherent h)
    (e : nonempty (h.hm.get_one_into lower) ≡ some v) where
  abbrev stored : Header
  stored = record h { cache = insert lower v h.cache }

  stored-IsCoherent : IsCoherent stored
  stored-IsCoherent k w l =
      ground (arith, lookup-insert lower k v h.cache, eq_of_bytes_eq lower k, c k w)

  peek-stored : (other : Bytes) → peek other stored ≡ peek other h
  peek-stored other = peek-answer other stored stored-IsCoherent ∙ sym (peek-answer other h c)

-- A call of `Get` either leaves the header, or fetches the value that `Peek` shows and stores it.
abbrev GetCases : Bytes → Header → Type 0
GetCases key h =
    (get key h ≡ (or_empty (peek key h), h))
    ⊎ ((v : Bytes) × (answer key h ≡ some v)
        × (peek key h ≡ some v)
        × (get key h ≡ (v, record h { cache = insert (ascii_to_lower key) v h.cache })))

get-cases : (key : Bytes) (h : Header) → GetCases key h
unfolding get peek
get-cases key h = elim (Option-cases (lookup (ascii_to_lower key) h.cache)) [
  | inl e ↦ elim (Option-cases (answer key h)) [
    | inl absent ↦ inl (ground (arith, e, absent))
    | inr (v, found) ↦ inr (v, found, ground (arith, e, found), ground (arith, e, found))
  ]
  | inr (v, e) ↦ inl (ground (arith, e))
]

-- `Get` returns what `Peek` shows, with "" for a missing key; afterwards `Peek` shows of every key
-- what it showed before, and the cache still agrees with the host's map.
pub get_lem :
    (key other : Bytes) (h : Header)
    → IsCoherent h
    → ((get key h).0 ≡ or_empty (peek key h))
      × (peek other (get key h).1 ≡ peek other h)
      × IsCoherent (get key h).1
get_lem key other h c = elim (get-cases key h) [
  | inl e ↦ rw e (refl, refl, c)
  | inr (v, found, shown, e) ↦
      rw (e, shown)
        (
          refl,
          peek-stored (ascii_to_lower key) v h c found other,
          stored-IsCoherent (ascii_to_lower key) v h c found,
        )
]

-- A reset header agrees with the map that it is given, whatever the pooled one held.
pub header_reset-IsCoherent : (hm : HeaderMap) (h : Header) → IsCoherent (header_reset hm h)
unfolding header_reset lookup
header_reset-IsCoherent hm h k v e = cc
