-- ===== src/Buffer/HeadTail.antt =====
-- `HeadTail` of buffer/buffer.go: the first bytes of a stream in a slab, the last in a ring.
pub mod Stream
use luwes.Base.{ℕ, ◌+◌, List, [], ◌∷◌, Option, none, some, ltb, if◌then◌else◌, take, replicate}
use luwes.Base.Bytes.{Bytes}
use luwes.Buffer.Ring.{Ring, new_ring, copy_at, write, ring_bytes, reset}

pub record HeadTail : Type 0 where
  pub head : Bytes
  pub head_n : ℕ
  pub head_size : ℕ
  pub tail : Ring

unfoldable pub new_head_tail : ℕ → ℕ → HeadTail
unfolding new_ring
new_head_tail head_size tail_size = record {
  head = replicate head_size 0;
  head_n = 0;
  head_size = head_size;
  tail = new_ring tail_size;
}

-- The first half of `Write`: the head slab takes what it has room for.
unfoldable pub write_head : HeadTail → Bytes → HeadTail
unfolding copy_at
write_head ht p =
    if ltb ht.head_n ht.head_size
    then (let (head, n) = copy_at ht.head ht.head_n p in
        record ht { head = head; head_n = ht.head_n + n })
    else ht

unfoldable pub head_tail_write : HeadTail → Bytes → Option HeadTail
unfolding write_head write
head_tail_write ht p = elim (write ht.tail p) [
  | none ↦ none
  | some tail ↦ some (record (write_head ht p) { tail = tail })
]

unfoldable pub head_tail_write_chunks : HeadTail → List Bytes → Option HeadTail
unfolding head_tail_write
head_tail_write_chunks ht [] = some ht
head_tail_write_chunks ht (c ∷ chunks) = elim (head_tail_write ht c) [
  | none ↦ none
  | some ht' ↦ head_tail_write_chunks ht' chunks
]

unfoldable pub head_bytes : HeadTail → Bytes
head_bytes ht = take ht.head_n ht.head

unfoldable pub tail_bytes : HeadTail → Bytes × HeadTail
unfolding ring_bytes
tail_bytes ht = let (b, rb) = ring_bytes ht.tail in (b, record ht { tail = rb })

unfoldable pub head_tail_reset : HeadTail → HeadTail
unfolding reset
head_tail_reset ht = record ht { head_n = 0; tail = reset ht.tail }
