-- ===== src/Impl/Handle/Reuse.antt =====
-- The pool of handles of abi_impl/internal.go, and the numbers that `reset` gives.
use luwes.Base.{ℕ, ◌≡◌, refl, ◌∙◌, false, none, some, List, arith}
use luwes.Abi.Common.{HttpHeaderType, http_header_type_code}
use luwes.Abi.Http.{HttpBodyType, http_body_type_code}
use luwes.Abi.Hooks.{StreamHook}
use luwes.Impl.Handle.{
  Handle, zero_handle, ready, Operation, cleared, reset, new_dym_stream_plugin_handle,
}
use luwes.Impl.Handle.Hooks.{destroyed, on_stream_hook}

reset_ready :
    (host_plugin_ptr : ℕ) (h : Handle)
    → h.plugin ≡ none
    → h.scheduler ≡ none
    → reset host_plugin_ptr h ≡ ready (cleared host_plugin_ptr zero_handle)
unfolding reset cleared
reset_ready host_plugin_ptr h p s = ground (arith, p, s)

-- The handle that `destroy` returns to the pool is taken from it without a panic, and as a new one:
-- nothing of the destroyed stream is left, whatever its handle held and `OnDestroy` did.
pub new_dym_stream_plugin_handle-destroy :
    (host_plugin_ptr : ℕ) (during : List Operation) (h : Handle)
    → h.stream_destoried ≡ false
    → (new_dym_stream_plugin_handle host_plugin_ptr
          (some (on_stream_hook StreamHook.destroy during h).1)
        ≡ new_dym_stream_plugin_handle host_plugin_ptr none)
      × (new_dym_stream_plugin_handle host_plugin_ptr none
          ≡ ready (cleared host_plugin_ptr zero_handle))
unfolding new_dym_stream_plugin_handle on_stream_hook destroyed
new_dym_stream_plugin_handle-destroy host_plugin_ptr during h e = (
  reset_ready host_plugin_ptr (destroyed during h).1 (ground (arith, e)) (ground (arith, e))
      ∙ fresh,
  reset_ready host_plugin_ptr zero_handle refl refl,
)
  where
    fresh : ready (cleared host_plugin_ptr zero_handle) ≡ reset host_plugin_ptr zero_handle
    fresh = refl

-- The numbers of the header maps and bodies of a cleared handle are those of their types in abi.h.
pub cleared_types :
    (host_plugin_ptr : ℕ) (h : Handle)
    → let c = cleared host_plugin_ptr h in
      (c.request_header_map.header_type ≡ http_header_type_code HttpHeaderType.request_header)
      × (c.request_trailer_map.header_type ≡ http_header_type_code HttpHeaderType.request_trailer)
      × (c.response_header_map.header_type ≡ http_header_type_code HttpHeaderType.response_header)
      × (c.response_trailer_map.header_type ≡ http_header_type_code HttpHeaderType.response_trailer)
      × (c.received_request_body.buffer_type
          ≡ http_body_type_code HttpBodyType.received_request_body)
      × (c.buffered_request_body.buffer_type
          ≡ http_body_type_code HttpBodyType.buffered_request_body)
      × (c.received_response_body.buffer_type
          ≡ http_body_type_code HttpBodyType.received_response_body)
      × (c.buffered_response_body.buffer_type
          ≡ http_body_type_code HttpBodyType.buffered_response_body)
unfolding cleared http_header_type_code http_body_type_code
cleared_types host_plugin_ptr h = (refl, refl, refl, refl, refl, refl, refl, refl)
