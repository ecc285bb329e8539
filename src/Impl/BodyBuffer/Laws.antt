-- ===== src/Impl/BodyBuffer/Laws.antt =====
-- `dymBodyBuffer` and its readers over a host that keeps what abi.h documents.
use luwes.Base.{
  ℕ, ◌≡◌, refl, sym, ap, ap₂, ◌∙◌, Bool, true, false, List, [], ◌∷◌, ◌++◌, map, length, drop, some,
  append-nil, append_assoc, arith, Bool-cases, inl, inr, if◌then◌else◌, ◌==◌,
}
use luwes.Base.Bytes.{Bytes}
use luwes.Abi.Buffer.{Buffer, view}
use luwes.Abi.Body.{BodyCallbacks, BodyLaws, concat}
use luwes.Abi.Http.{HttpBodyType}
use luwes.Sahl.Writer.{set_response_body, append_response_body}
use luwes.Impl.Buffers.{bytes_to_module_buffer}
use luwes.Impl.BodyBuffer.{
  filled_chunks, append_chunks, get_chunks, get_size, append, drain, get_body_content,
  read_whole_request_body, read_whole_response_body, read_body, on_response_body_call,
  on_response_body_calls,
}

append_chunks-view :
    (body : Bytes) (chunks : List Bytes)
    → append_chunks body (map view chunks) ≡ body ++ concat chunks
unfolding append_chunks
append_chunks-view body [] = sym (append-nil body)
append_chunks-view body (c ∷ chunks) =
    append_chunks-view (body ++ c) chunks ∙ append_assoc body c (concat chunks)

counted_chunks :
    (chunks : List Bytes) (n : ℕ)
    → n ≡ length chunks
    → (if n == 0 then [] else filled_chunks n (true, map view chunks)) ≡ map view chunks
counted_chunks [] n e = ground arith
counted_chunks (c ∷ chunks) n e = ground arith

no_chunks :
    (n : ℕ) (r : Bool × List Buffer) → n ≡ 0 → (if n == 0 then [] else filled_chunks n r) ≡ []
no_chunks n r e = ground (arith, e)

drop_all : (s : Bytes) → drop (length s) s ≡ []
drop_all [] = refl
drop_all (c ∷ s) = drop_all s

module _ {S : Type 0} (host : BodyCallbacks S) (law : BodyLaws host) (nil_data : Bool) where
  -- The bytes of a body.
  abbrev pub content : S → HttpBodyType → Bytes
  content s t = concat (law.chunks s t)

  get_chunks-are :
      (s : S) (t : HttpBodyType) → get_chunks host nil_data s t ≡ map view (law.chunks s t)
  unfolding get_chunks
  get_chunks-are s t = elim (Bool-cases (law.is_available s t)) [
    | inl available ↦
        ap₂ (λ n r. if n == 0 then [] else filled_chunks n r) (law.count_is s t)
          (law.chunks_are s t available)
        ∙ counted_chunks (law.chunks s t) (length (law.chunks s t)) refl
    | inr unavailable ↦
        let none_left = law.unavailable_is_empty s t unavailable in
        no_chunks (host.get_body_chunks_size s t) (host.get_body_chunks s t)
          (law.count_is s t ∙ ap length none_left)
        ∙ sym (ap (map view) none_left)
  ]

  append_chunks-get_chunks :
      (body : Bytes) (s : S) (t : HttpBodyType)
      → append_chunks body (get_chunks host nil_data s t) ≡ body ++ content s t
  append_chunks-get_chunks body s t =
      ap (append_chunks body) (get_chunks-are s t) ∙ append_chunks-view body (law.chunks s t)

  -- On a host that keeps what abi.h documents, the body that is read is the buffered body, followed
  -- by the received one unless the host says that they are one.
  pub get_body_content_lem :
      (s : S) (buffered_body received_body : HttpBodyType) (is_buffered : Bool)
      → get_body_content host nil_data s buffered_body received_body is_buffered
        ≡ content s buffered_body ++ (if is_buffered then [] else content s received_body)
  unfolding get_body_content
  get_body_content_lem s buffered_body received_body true =
      append_chunks-get_chunks [] s buffered_body ∙ sym (append-nil (content s buffered_body))
  get_body_content_lem s buffered_body received_body false =
      append_chunks-get_chunks (append_chunks [] (get_chunks host nil_data s buffered_body)) s
        received_body
      ∙ ap (λ b. b ++ content s received_body) (append_chunks-get_chunks [] s buffered_body)

  content-append :
      (s : S) (t : HttpBodyType) (more : Bytes)
      → law.is_available s t ≡ true
      → content (append host nil_data s t more) t ≡ content s t ++ more
  unfolding append bytes_to_module_buffer
  content-append s t [] available = sym (append-nil (content s t))
  content-append s t (c ∷ more) available = law.append_bytes s t (view (c ∷ more)) available

  content-drain_all :
      (s : S) (t : HttpBodyType)
      → law.is_available s t ≡ true
      → content (drain host nil_data s t (get_size host nil_data s t)) t ≡ []
  unfolding drain get_size
  content-drain_all s t available =
      law.drain_bytes s t (host.get_body_size s t) available
      ∙ ap (λ n. drop n (content s t)) (law.size_is s t)
      ∙ drop_all (content s t)

  -- On a host that keeps what abi.h documents, and on which the buffered response body is available
  -- before sahl's `SetResponseBody`, after its drain and after it: after `SetResponseBody` and then
  -- any `AppendResponseBody`, the buffered response body is the new body followed by what was
  -- appended, also where one of them is empty. No condition on the filter's mode or on the end of
  -- the stream is needed.
  pub set_response_body_lem :
      (s : S) (new_body more : Bytes)
      → law.is_available s HttpBodyType.buffered_response_body ≡ true
      → law.is_available
          (drain host nil_data s HttpBodyType.buffered_response_body
            (get_size host nil_data s HttpBodyType.buffered_response_body))
          HttpBodyType.buffered_response_body
        ≡ true
      → law.is_available
          (on_response_body_calls host nil_data
            (set_response_body
              (some (get_size host nil_data s HttpBodyType.buffered_response_body))
              new_body)
            s)
          HttpBodyType.buffered_response_body
        ≡ true
      → content
          (on_response_body_calls host nil_data
            (set_response_body
                (some (get_size host nil_data s HttpBodyType.buffered_response_body))
                new_body
              ++ append_response_body (some (length new_body)) more)
            s)
          HttpBodyType.buffered_response_body
        ≡ new_body ++ more
  unfolding set_response_body append_response_body on_response_body_calls on_response_body_call
  set_response_body_lem s new_body more before drained_available after =
      let t = HttpBodyType.buffered_response_body in
      let drained = drain host nil_data s t (get_size host nil_data s t) in
      content-append (append host nil_data drained t new_body) t more after
      ∙ ap (λ b. b ++ more)
          (content-append drained t new_body drained_available
            ∙ ap (λ b. b ++ new_body) (content-drain_all s t before))

  -- On a host that keeps what abi.h documents, `readBody` of sahl reads the buffered request body,
  -- followed by the received one unless the host says that they are one; so does
  -- `ReadWholeRequestBody`, and `ReadWholeResponseBody` with the response bodies.
  pub read_body_lem :
      (s : S)
      → (read_body host nil_data s
          ≡ content s HttpBodyType.buffered_request_body
            ++ (if host.received_buffered_request_body s
                then []
                else content s HttpBodyType.received_request_body))
        × (read_whole_request_body host nil_data s ≡ read_body host nil_data s)
        × (read_whole_response_body host nil_data s
            ≡ content s HttpBodyType.buffered_response_body
              ++ (if host.received_buffered_response_body s
                  then []
                  else content s HttpBodyType.received_response_body))
  unfolding read_body read_whole_request_body read_whole_response_body get_body_content
  read_body_lem s = (
    get_body_content_lem s HttpBodyType.buffered_request_body HttpBodyType.received_request_body
        (host.received_buffered_request_body s),
    refl,
    get_body_content_lem s HttpBodyType.buffered_response_body HttpBodyType.received_response_body
        (host.received_buffered_response_body s),
  )
