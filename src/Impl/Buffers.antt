-- ===== src/Impl/Buffers.antt =====
-- The conversion helpers of abi_impl/internal.go. A Go string or slice is the list of its bytes; the
-- pointer of an empty one is unspecified, so whether it is nil is a parameter.
use luwes.Base.{Bool, true, false, List, [], ◌∷◌, map, if◌then◌else◌, ◌≡◌, refl}
use luwes.Base.Bytes.{Bytes}
use luwes.Abi.Buffer.{Buffer, null, view, HttpHeader, buffer_bytes}
use luwes.Sahl.Host.{Pair}

unfoldable pub null_module_buffer : Buffer
null_module_buffer = null

unfoldable pub string_to_module_buffer : Bool → Bytes → Buffer
string_to_module_buffer nil_data [] = if nil_data then null else view []
string_to_module_buffer nil_data (c ∷ s) = view (c ∷ s)

unfoldable pub bytes_to_module_buffer : Bool → Bytes → Buffer
bytes_to_module_buffer nil_data [] = if nil_data then null else view []
bytes_to_module_buffer nil_data (c ∷ s) = view (c ∷ s)

unfoldable pub string_array_to_module_buffer_slice : Bool → List Bytes → List Buffer
unfolding string_to_module_buffer
string_array_to_module_buffer_slice nil_data strs = map (string_to_module_buffer nil_data) strs

unfoldable pub headers_to_module_http_header_slice : Bool → List Pair → List HttpHeader
unfolding string_to_module_buffer
headers_to_module_http_header_slice nil_data headers =
    map (λ h. (string_to_module_buffer nil_data h.0, string_to_module_buffer nil_data h.1)) headers

-- `!bool(ret) || valueView.ptr == nil || valueView.length == 0`: what an empty answer is.
abbrev pub clean : Buffer → Buffer
clean (view []) = null
clean b = b

abbrev pub is_empty : Buffer → Bool
is_empty null = true
is_empty (view []) = true
is_empty (view (c ∷ s)) = false

pub buffer_bytes-string_to_module_buffer :
    (nil_data : Bool) (s : Bytes) → buffer_bytes (string_to_module_buffer nil_data s) ≡ s
unfolding string_to_module_buffer
buffer_bytes-string_to_module_buffer true [] = refl
buffer_bytes-string_to_module_buffer false [] = refl
buffer_bytes-string_to_module_buffer nil_data (c ∷ s) = refl

pub buffer_bytes-bytes_to_module_buffer :
    (nil_data : Bool) (s : Bytes) → buffer_bytes (bytes_to_module_buffer nil_data s) ≡ s
unfolding bytes_to_module_buffer
buffer_bytes-bytes_to_module_buffer true [] = refl
buffer_bytes-bytes_to_module_buffer false [] = refl
buffer_bytes-bytes_to_module_buffer nil_data (c ∷ s) = refl
