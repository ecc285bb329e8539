-- ===== src/Abi/Buffer.antt =====
-- abi/abi.h: the buffers that cross the interface, of either owner. A buffer is a null pointer, or
-- the bytes that it shows; a header is the buffers of its key and value.
use luwes.Base.{[]}
use luwes.Base.Bytes.{Bytes}

pub data Buffer : Type 0 where
  null : Buffer
  view : Bytes → Buffer

abbrev pub HttpHeader : Type 0
HttpHeader = Buffer × Buffer

-- The bytes that a receiver reads.
abbrev pub buffer_bytes : Buffer → Bytes
buffer_bytes null = []
buffer_bytes (view s) = s
