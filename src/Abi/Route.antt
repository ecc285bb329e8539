-- ===== src/Abi/Route.antt =====
-- abi/abi.h: the callbacks on the route, the attributes and the progress of a stream, on its state
-- `S`.
use luwes.Base.{ℕ, Bool}
use luwes.Abi.Buffer.{Buffer}
use luwes.Abi.Attribute.{AttributeId}

-- The route cache and the attributes; an integer attribute is 64 bits wide.
pub record AttributeCallbacks (S : Type 0) : Type 0 where
  pub clear_route_cache : S → S
  pub filter_get_attribute_string : S → AttributeId → Bool × Buffer
  pub filter_get_attribute_int : S → AttributeId → Bool × ℕ
  pub filter_get_attribute_bool : S → AttributeId → Bool × Bool

pub record ContinueCallbacks (S : Type 0) : Type 0 where
  pub filter_continue_decoding : S → S
  pub filter_continue_encoding : S → S
