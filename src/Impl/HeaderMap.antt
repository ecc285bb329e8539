-- ===== src/Impl/HeaderMap.antt =====
-- `dymHeaderMap` of abi_impl/internal.go, over the header callbacks of a host: `s` is the stream of
-- its plugin pointer and `t` its header type. An `UnsafeEnvoyBuffer` is a buffer.
pub mod Laws
pub mod Updates
use luwes.Base.{
  ℕ, zero, suc, ◌+◌, ◌-◌, Bool, true, false, not, ◌&&◌, ◌||◌, Option, none, some, List, [], ◌∷◌,
  map, replicate, if◌then◌else◌, ◌==◌,
}
use luwes.Base.Bytes.{Bytes}
use luwes.Abi.Buffer.{Buffer, null, view, HttpHeader, buffer_bytes}
use luwes.Abi.Common.{HttpHeaderType}
use luwes.Abi.Headers.{HeaderCallbacks}
use luwes.Impl.Buffers.{string_to_module_buffer, null_module_buffer, clean, is_empty}
use luwes.Sahl.Request.{HeaderMap}

abbrev pub is_null : Buffer → Bool
is_null null = true
is_null (view s) = false

-- A result and its buffer, as an optional value.
abbrev pub found : Bool × Buffer → Option Bytes
found (true, out) = some (buffer_bytes out)
found (false, out) = none

-- The result of `get_headers` is dropped: on a failure the array keeps its zero values.
abbrev pub filled : ℕ → Bool × List HttpHeader → List HttpHeader
filled n (true, headers) = headers
filled n (false, headers) = replicate n (null, null)

module _ {S : Type 0} (host : HeaderCallbacks S) (nil_data : Bool) (s : S)
    (t : HttpHeaderType) where
  -- The value, and what the host stores as the number of values.
  unfoldable pub get_single_header : Bytes → ℕ → Buffer × ℕ
  unfolding string_to_module_buffer
  get_single_header key index =
      let (ret, value_view, value_count) =
        host.get_header s t (string_to_module_buffer nil_data key) index in
      if not ret || is_empty value_view then (null, value_count) else (value_view, value_count)

  -- The loop of `Get`, for so many more values.
  unfoldable pub get_loop : Bytes → ℕ → ℕ → List Buffer
  unfolding get_single_header
  get_loop key i zero = []
  get_loop key i (suc n) = (get_single_header key i).0 ∷ get_loop key (i + 1) n

  -- `Get` after its first value, by the number of values.
  unfoldable pub get_counted : Bytes → Buffer → ℕ → List Buffer
  unfolding get_loop
  get_counted key first_value value_count =
      if value_count == 0
      then []
      else if value_count == 1
      then first_value ∷ []
      else first_value ∷ get_loop key 1 (value_count - 1)

  unfoldable pub get : Bytes → List Buffer
  unfolding get_single_header get_counted
  get key = get_counted key (get_single_header key 0).0 (get_single_header key 0).1

  unfoldable pub get_one : Bytes → Buffer
  unfolding get_single_header
  get_one key = (get_single_header key 0).0

  -- The result, and the buffer that the caller owns.
  unfoldable pub get_one_into : Bytes → Bool × Buffer
  unfolding string_to_module_buffer
  get_one_into key =
      let (ret, out, value_count) = host.get_header s t (string_to_module_buffer nil_data key) 0 in
      (ret && not (is_null out), out)

  unfoldable pub get_all : List HttpHeader
  get_all =
      let header_count = host.get_headers_size s t in
      if header_count == 0 then [] else filled header_count (host.get_headers s t)

  unfoldable pub set : Bytes → Bytes → S
  unfolding string_to_module_buffer
  set key value =
      (host.set_header s t (string_to_module_buffer nil_data key)
        (string_to_module_buffer nil_data value)).1

  unfoldable pub add : Bytes → Bytes → S
  unfolding string_to_module_buffer
  add key value =
      (host.add_header s t (string_to_module_buffer nil_data key)
        (string_to_module_buffer nil_data value)).1

  unfoldable pub remove : Bytes → S
  unfolding string_to_module_buffer null_module_buffer
  remove key = (host.set_header s t (string_to_module_buffer nil_data key) null_module_buffer).1

  -- What sahl asks of a header map: `GetOneInto` with a fresh buffer, and `GetAll`.
  unfoldable pub as_header_map : HeaderMap
  unfolding get_one_into get_all
  as_header_map = record {
    get_one_into = λ key. found (get_one_into key);
    get_all = map (λ h. (buffer_bytes h.0, buffer_bytes h.1)) get_all;
  }
