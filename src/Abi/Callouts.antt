-- ===== src/Abi/Callouts.antt =====
-- abi/abi.h: the callbacks that start HTTP callouts and streams and send on them, of a filter, on the
-- state `S` of the stream. The id behind an out pointer is a result.
use luwes.Base.{ℕ, Bool, List}
use luwes.Abi.Buffer.{Buffer, HttpHeader}
use luwes.Abi.Common.{HttpCalloutInitResult}

pub record CalloutCallbacks (S : Type 0) : Type 0 where
  pub filter_http_callout :
      S → Buffer → List HttpHeader → Buffer → ℕ → HttpCalloutInitResult × ℕ × S
  pub filter_start_http_stream :
      S → Buffer → List HttpHeader → Buffer → Bool → ℕ → HttpCalloutInitResult × ℕ × S
  pub filter_reset_http_stream : S → ℕ → S
  pub stream_send_data : S → ℕ → Buffer → Bool → Bool × S
  pub stream_send_trailers : S → ℕ → List HttpHeader → Bool × S

-- The same callbacks of a filter's configuration.
pub record ConfigCalloutCallbacks (S : Type 0) : Type 0 where
  pub filter_config_http_callout :
      S → Buffer → List HttpHeader → Buffer → ℕ → HttpCalloutInitResult × ℕ × S
  pub filter_config_start_http_stream :
      S → Buffer → List HttpHeader → Buffer → Bool → ℕ → HttpCalloutInitResult × ℕ × S
  pub filter_config_reset_http_stream : S → ℕ → S
  pub filter_config_stream_send_data : S → ℕ → Buffer → Bool → Bool × S
  pub filter_config_stream_send_trailers : S → ℕ → List HttpHeader → Bool × S
