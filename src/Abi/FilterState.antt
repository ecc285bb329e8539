-- ===== src/Abi/FilterState.antt =====
-- abi/abi.h: the filter state callbacks, on the state `S` of the stream.
use luwes.Base.{◌≡◌, Bool, true}
use luwes.Abi.Buffer.{Buffer, view, buffer_bytes}

pub record FilterStateCallbacks (S : Type 0) : Type 0 where
  pub set_filter_state_bytes : S → Buffer → Buffer → Bool × S
  pub get_filter_state_bytes : S → Buffer → Bool × Buffer
  pub set_filter_state_typed : S → Buffer → Buffer → Bool × S
  pub get_filter_state_typed : S → Buffer → Bool × Buffer

-- What abi.h documents: bytes that have been set, which a read-only key refuses, are the bytes that
-- are got; and so for a typed object whose factory takes the bytes and that is serialized.
pub record FilterStateLaws {S : Type 0} (host : FilterStateCallbacks S) : Type 0 where
  pub bytes_kept :
      (s : S) (key value : Buffer)
      → (host.set_filter_state_bytes s key value).0 ≡ true
      → host.get_filter_state_bytes (host.set_filter_state_bytes s key value).1 key
        ≡ (true, view (buffer_bytes value))
