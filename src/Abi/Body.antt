-- ===== src/Abi/Body.antt =====
-- abi/abi.h: the body callbacks, on the state `S` of the stream.
use luwes.Base.{ℕ, ◌≡◌, Bool, true, false, List, [], ◌∷◌, ◌++◌, map, length, drop}
use luwes.Base.Bytes.{Bytes}
use luwes.Abi.Buffer.{Buffer, view, buffer_bytes}
use luwes.Abi.Http.{HttpBodyType}

pub record BodyCallbacks (S : Type 0) : Type 0 where
  pub get_body_size : S → HttpBodyType → ℕ
  pub get_body_chunks : S → HttpBodyType → Bool × List Buffer
  pub get_body_chunks_size : S → HttpBodyType → ℕ
  pub append_body : S → HttpBodyType → Buffer → Bool × S
  pub drain_body : S → HttpBodyType → ℕ → Bool × S
  pub received_buffered_request_body : S → Bool
  pub received_buffered_response_body : S → Bool

abbrev pub concat : List Bytes → Bytes
concat [] = []
concat (c ∷ chunks) = c ++ concat chunks

-- What abi.h documents of the callbacks: a body may be unavailable, and then has no bytes and no
-- chunks; of an available one, its chunks, and what an append and a drain do to its bytes. What they
-- do where the body is unavailable is open.
pub record BodyLaws {S : Type 0} (host : BodyCallbacks S) : Type 0 where
  pub chunks : S → HttpBodyType → List Bytes
  pub is_available : S → HttpBodyType → Bool
  pub unavailable_is_empty : (s : S) (t : HttpBodyType) → is_available s t ≡ false → chunks s t ≡ []
  pub size_is : (s : S) (t : HttpBodyType) → host.get_body_size s t ≡ length (concat (chunks s t))
  pub count_is : (s : S) (t : HttpBodyType) → host.get_body_chunks_size s t ≡ length (chunks s t)
  pub chunks_are :
      (s : S) (t : HttpBodyType)
      → is_available s t ≡ true
      → host.get_body_chunks s t ≡ (true, map view (chunks s t))
  pub append_bytes :
      (s : S) (t : HttpBodyType) (more : Buffer)
      → is_available s t ≡ true
      → concat (chunks (host.append_body s t more).1 t) ≡ concat (chunks s t) ++ buffer_bytes more
  pub drain_bytes :
      (s : S) (t : HttpBodyType) (n : ℕ)
      → is_available s t ≡ true
      → concat (chunks (host.drain_body s t n).1 t) ≡ drop n (concat (chunks s t))
