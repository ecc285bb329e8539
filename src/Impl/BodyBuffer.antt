-- ===== src/Impl/BodyBuffer.antt =====
-- `dymBodyBuffer` of abi_impl/internal.go over the body callbacks of a host, and what reads and
-- rewrites bodies through it: shared/utility/utility.go and sahl/request.go, sahl/writer.go.
pub mod Laws
use luwes.Base.{
  ℕ, zero, suc, Bool, true, false, List, [], ◌∷◌, ◌++◌, replicate, if◌then◌else◌, ◌==◌,
}
use luwes.Base.Bytes.{Bytes}
use luwes.Abi.Buffer.{Buffer, null, view, buffer_bytes}
use luwes.Abi.Body.{BodyCallbacks}
use luwes.Abi.Http.{HttpBodyType}
use luwes.Sahl.Host.{HostCall}
use luwes.Impl.Buffers.{bytes_to_module_buffer}

-- The result of `get_body_chunks` is dropped: on a failure the array keeps its zero values.
abbrev pub filled_chunks : ℕ → Bool × List Buffer → List Buffer
filled_chunks n (true, chunks) = chunks
filled_chunks n (false, chunks) = replicate n null

-- The loop over the chunks, that copies each to the end of the body.
unfoldable pub append_chunks : Bytes → List Buffer → Bytes
append_chunks body [] = body
append_chunks body (chunk ∷ chunks) = append_chunks (body ++ buffer_bytes chunk) chunks

module _ {S : Type 0} (host : BodyCallbacks S) (nil_data : Bool) where
  unfoldable pub get_chunks : S → HttpBodyType → List Buffer
  get_chunks s t =
      let size = host.get_body_chunks_size s t in
      if size == 0 then [] else filled_chunks size (host.get_body_chunks s t)

  unfoldable pub get_size : S → HttpBodyType → ℕ
  get_size s t = host.get_body_size s t

  unfoldable pub append : S → HttpBodyType → Bytes → S
  unfolding bytes_to_module_buffer
  append s t [] = s
  append s t (c ∷ bytes) = (host.append_body s t (bytes_to_module_buffer nil_data (c ∷ bytes))).1

  unfoldable pub drain : S → HttpBodyType → ℕ → S
  drain s t size = (host.drain_body s t size).1

  -- The received body is read only if it is not the buffered one.
  unfoldable pub get_body_content : S → HttpBodyType → HttpBodyType → Bool → Bytes
  unfolding append_chunks get_chunks
  get_body_content s buffered_body received_body is_buffered =
      let body = append_chunks [] (get_chunks s buffered_body) in
      if is_buffered then body else append_chunks body (get_chunks s received_body)

  unfoldable pub read_whole_request_body : S → Bytes
  unfolding get_body_content
  read_whole_request_body s =
      get_body_content s HttpBodyType.buffered_request_body HttpBodyType.received_request_body
        (host.received_buffered_request_body s)

  unfoldable pub read_whole_response_body : S → Bytes
  unfolding get_body_content
  read_whole_response_body s =
      get_body_content s HttpBodyType.buffered_response_body HttpBodyType.received_response_body
        (host.received_buffered_response_body s)

  -- `readBody` of sahl, which has the tests the other way round.
  unfoldable pub read_body : S → Bytes
  unfolding append_chunks get_chunks
  read_body s =
      let body = append_chunks [] (get_chunks s HttpBodyType.buffered_request_body) in
      if host.received_buffered_request_body s
      then body
      else append_chunks body (get_chunks s HttpBodyType.received_request_body)

  -- The calls that sahl's writer makes on the buffered response body, performed on it; its other
  -- calls leave the body as it is.
  unfoldable pub on_response_body_call : HostCall → S → S
  unfolding append drain
  on_response_body_call (HostCall.body_drain size) s =
      drain s HttpBodyType.buffered_response_body size
  on_response_body_call (HostCall.body_append bytes) s =
      append s HttpBodyType.buffered_response_body bytes
  on_response_body_call _ s = s

  unfoldable pub on_response_body_calls : List HostCall → S → S
  unfolding on_response_body_call
  on_response_body_calls [] s = s
  on_response_body_calls (call ∷ calls) s =
      on_response_body_calls calls (on_response_body_call call s)
