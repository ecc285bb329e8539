-- ===== src/Abi/Headers.antt =====
-- abi/abi.h: the header and trailer callbacks. `S` is the state of the stream that the filter
-- pointer stands for; a callback that can change it returns it. What the caller leaves room for is a
-- result: the value and the number of values of a key, or the array of all headers.
use luwes.Base.{ℕ, zero, suc, ◌<◌, ◌≡◌, Bool, true, List, [], ◌∷◌, map, length}
use luwes.Base.Bytes.{Bytes}
use luwes.Abi.Buffer.{Buffer, null, view, HttpHeader, buffer_bytes}
use luwes.Abi.Common.{HttpHeaderType}

pub record HeaderCallbacks (S : Type 0) : Type 0 where
  pub get_header : S → HttpHeaderType → Buffer → ℕ → Bool × Buffer × ℕ
  pub get_headers_size : S → HttpHeaderType → ℕ
  pub get_headers : S → HttpHeaderType → Bool × List HttpHeader
  pub add_header : S → HttpHeaderType → Buffer → Buffer → Bool × S
  pub set_header : S → HttpHeaderType → Buffer → Buffer → Bool × S

-- The element at an index, and a null buffer out of range.
abbrev pub value_at : ℕ → List Bytes → Buffer
value_at i [] = null
value_at zero (v ∷ vs) = view v
value_at (suc i) (v ∷ vs) = value_at i vs

-- The values of a key after a set: none for a null value.
abbrev pub set_values : Buffer → List Bytes
set_values null = []
set_values (view v) = v ∷ []

-- What abi.h documents of the callbacks: the values of a key are counted and indexed from 0, the
-- size is the length of the array, and a set that succeeds leaves its value as the only one of its
-- key, or none, if the value is null. What a set does to other keys, or where it fails, is open, and
-- so is which spellings of a key are one key.
pub record HeaderLaws {S : Type 0} (host : HeaderCallbacks S) : Type 0 where
  pub values : S → HttpHeaderType → Bytes → List Bytes
  pub all : S → HttpHeaderType → List (Bytes × Bytes)
  pub get_header_count :
      (s : S) (t : HttpHeaderType) (key : Buffer) (i : ℕ)
      → (host.get_header s t key i).2 ≡ length (values s t (buffer_bytes key))
  pub get_header_value :
      (s : S) (t : HttpHeaderType) (key : Buffer) (i : ℕ)
      → (host.get_header s t key i).1 ≡ value_at i (values s t (buffer_bytes key))
  pub get_header_found :
      (s : S) (t : HttpHeaderType) (key : Buffer) (i : ℕ)
      → i < length (values s t (buffer_bytes key))
      → (host.get_header s t key i).0 ≡ true
  pub size_is : (s : S) (t : HttpHeaderType) → host.get_headers_size s t ≡ length (all s t)
  pub headers_are :
      (s : S) (t : HttpHeaderType)
      → host.get_headers s t ≡ (true, map (λ h. (view h.0, view h.1)) (all s t))
  pub set_header_same :
      (s : S) (t : HttpHeaderType) (key value : Buffer)
      → (host.set_header s t key value).0 ≡ true
      → values (host.set_header s t key value).1 t (buffer_bytes key) ≡ set_values value
