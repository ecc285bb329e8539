-- ===== src/Buffer/Tests.antt =====
-- Runs of the ring and of the pair, and the theorems at concrete inputs.
use luwes.Base.{◌≡◌, refl, true, false, List, [], ◌∷◌, none, some, arith, take, last}
use luwes.Base.Bytes.{Bytes}
use luwes.Buffer.Ring.{Ring, new_ring, write_loop, write, write_chunks, ring_bytes}
use luwes.Buffer.Ring.Contents.{IsValid, contents}
use luwes.Buffer.Ring.Stream.{joined, ring_stream, no_room, write_loop-no_room}
use luwes.Buffer.Ring.Read.{ring_bytes_again}
use luwes.Buffer.HeadTail.{HeadTail, new_head_tail, head_tail_write_chunks, head_bytes, tail_bytes}
use luwes.Buffer.HeadTail.Stream.{head_tail_stream}

abbrev hello_world : List Bytes
hello_world = (104 ∷ 101 ∷ 108 ∷ 108 ∷ 111 ∷ 32 ∷ []) ∷ (119 ∷ 111 ∷ 114 ∷ 108 ∷ 100 ∷ []) ∷ []

-- The ring of size 4 after "hello" in two writes: it has gone round once.
abbrev wrapped : Ring
wrapped = record { slab = 111 ∷ 101 ∷ 108 ∷ 108 ∷ []; size = 4; pos = 1; full = true }

hello_wraps :
    write_chunks (new_ring 4) ((104 ∷ 101 ∷ []) ∷ (108 ∷ 108 ∷ 111 ∷ []) ∷ []) ≡ some wrapped
unfolding write_chunks new_ring
hello_wraps = refl

wrapped_bytes : (ring_bytes wrapped).0 ≡ 101 ∷ 108 ∷ 108 ∷ 111 ∷ []
unfolding ring_bytes
wrapped_bytes = refl

wrapped-IsValid : IsValid wrapped
wrapped-IsValid = omega arith

ring_stream_example :
    (rb : Ring) × (write_chunks (new_ring 5) hello_world ≡ some rb)
    × IsValid rb
    × (rb.size ≡ 5)
    × (contents rb ≡ last 5 (joined hello_world))
ring_stream_example = ring_stream 5 hello_world (omega arith)

head_tail_stream_example :
    (ht : HeadTail) × (head_tail_write_chunks (new_head_tail 4 5) hello_world ≡ some ht)
    × (head_bytes ht ≡ take 4 (joined hello_world))
    × ((tail_bytes ht).0 ≡ last 5 (joined hello_world))
head_tail_stream_example = head_tail_stream 4 5 hello_world (omega arith)

ring_bytes_again_example :
    ((ring_bytes wrapped).0 ≡ contents wrapped)
    × ((ring_bytes (ring_bytes wrapped).1).0 ≡ [])
    × (rb : Ring) × (write (ring_bytes wrapped).1 (33 ∷ []) ≡ some rb)
    × ((ring_bytes rb).0 ≡ 33 ∷ [])
ring_bytes_again_example = ring_bytes_again wrapped (33 ∷ []) wrapped-IsValid

write_loop-no_room_example : write_loop 1000 (no_room false) (33 ∷ []) ≡ none
write_loop-no_room_example = write_loop-no_room 1000 false 33 []
