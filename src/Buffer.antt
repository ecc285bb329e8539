-- ===== src/Buffer.antt =====
-- buffer/buffer.go: the ring that keeps the last bytes of a stream, and the pair of a head and a
-- tail built on it. Slices are lists of bytes; `copy` and `slices.Reverse` are the language's.
pub mod Ring
pub mod HeadTail
mod Tests
