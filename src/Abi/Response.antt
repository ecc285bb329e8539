-- ===== src/Abi/Response.antt =====
-- abi/abi.h: the callbacks that send a response, on the state `S` of the stream.
use luwes.Base.{ℕ, Bool, List}
use luwes.Abi.Buffer.{Buffer, HttpHeader}

pub record ResponseCallbacks (S : Type 0) : Type 0 where
  pub send_response : S → ℕ → List HttpHeader → Buffer → Buffer → S
  pub send_response_headers : S → List HttpHeader → Bool → S
  pub send_response_data : S → Buffer → Bool → S
  pub send_response_trailers : S → List HttpHeader → S
