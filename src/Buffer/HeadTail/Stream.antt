-- ===== src/Buffer/HeadTail/Stream.antt =====
-- A `HeadTail` after a stream: the first bytes in the head, the last in the tail.
use luwes.Base.{
  ℕ, ◌+◌, ◌-◌, ◌≤◌, ◌<◌, min, ◌≡◌, refl, sym, ap, ◌∙◌, List, [], ◌∷◌, ◌++◌, Option, some, arith,
  length, take, drop, last, length-append, length-take, length-drop, length-replicate, take_prefix,
  take_past, take-take-append, take-min, take-nil, drop-nil, last-last-append, append-nil,
  append_assoc,
}
use luwes.Base.Bytes.{Bytes}
use luwes.Buffer.Ring.{write, new_ring}
use luwes.Buffer.Ring.Contents.{IsValid, contents, ring_bytes_lem}
use luwes.Buffer.Ring.Stream.{Wrote, write-Wrote, joined, new_ring-IsValid}
use luwes.Buffer.HeadTail.{
  HeadTail, new_head_tail, write_head, head_tail_write, head_tail_write_chunks, head_bytes,
  tail_bytes,
}

-- What the pair holds after the bytes `s` of a stream.
pub record Saw (ht : HeadTail) (s : Bytes) : Type 0 where
  pub slab : length ht.head ≡ ht.head_size
  pub within : ht.head_n ≤ ht.head_size
  pub first : take ht.head_n ht.head ≡ take ht.head_size s
  pub ring : IsValid ht.tail
  pub latest : contents ht.tail ≡ last ht.tail.size s

module _ (ht : HeadTail) (p : Bytes) (slab : length ht.head ≡ ht.head_size) where
  abbrev filled : Bytes
  filled = take ht.head_n ht.head ++ take (min (length ht.head - ht.head_n) (length p)) p

  length-filled :
      ht.head_n ≤ ht.head_size
      → length filled ≡ ht.head_n + min (length ht.head - ht.head_n) (length p)
  length-filled h = omega (
    arith,
    slab,
    length-append (take ht.head_n ht.head) (take (min (length ht.head - ht.head_n) (length p)) p),
    length-take ht.head_n ht.head,
    length-take (min (length ht.head - ht.head_n) (length p)) p,
  )

  filled_lem : ht.head_n ≤ ht.head_size → filled ≡ take ht.head_size (take ht.head_n ht.head ++ p)
  filled_lem h =
      ap (λ l. take ht.head_n ht.head ++ l) (take-min (length ht.head - ht.head_n) p)
      ∙ sym (
          take_past ht.head_n (length ht.head - ht.head_n) (take ht.head_n ht.head) p
            (omega (arith, slab, length-take ht.head_n ht.head)))
      ∙ ap (λ k. take k (take ht.head_n ht.head ++ p)) (omega (arith, slab))

  head-write_head :
      ht.head_n ≤ ht.head_size
      → (length (write_head ht p).head ≡ ht.head_size)
        × ((write_head ht p).head_n ≤ ht.head_size)
        × (head_bytes (write_head ht p) ≡ take ht.head_size (take ht.head_n ht.head ++ p))
  unfolding write_head head_bytes
  head-write_head h = ground (
    arith,
    slab,
    filled_lem h,
    length-filled h,
    length-append filled (drop (ht.head_n + min (length ht.head - ht.head_n) (length p)) ht.head),
    length-drop (ht.head_n + min (length ht.head - ht.head_n) (length p)) ht.head,
    take_prefix (ht.head_n + min (length ht.head - ht.head_n) (length p)) filled
        (drop (ht.head_n + min (length ht.head - ht.head_n) (length p)) ht.head),
    take_prefix ht.head_size (take ht.head_n ht.head) p,
    length-take ht.head_n ht.head,
  )

tail-write_head : (ht : HeadTail) (p : Bytes) → (write_head ht p).tail ≡ ht.tail
unfolding write_head
tail-write_head ht p = ground arith

size-write_head : (ht : HeadTail) (p : Bytes) → (write_head ht p).head_size ≡ ht.head_size
unfolding write_head
size-write_head ht p = ground arith

-- What a call that was given the bytes `p` promises of the pair, after `s`.
abbrev pub Sees : HeadTail → Bytes → Option HeadTail → Type 0
Sees ht s r =
    (ht' : HeadTail) × (r ≡ some ht')
    × Saw ht' s
    × (ht'.head_size ≡ ht.head_size)
    × (ht'.tail.size ≡ ht.tail.size)

head_tail_write-Sees :
    (ht : HeadTail) (s p : Bytes) → Saw ht s → Sees ht (s ++ p) (head_tail_write ht p)
unfolding head_tail_write head_bytes
head_tail_write-Sees ht s p saw = grow (write-Wrote ht.tail p saw.ring)
  where
    grow : Wrote ht.tail p (write ht.tail p) → Sees ht (s ++ p) (head_tail_write ht p)
    grow (rb, e, v, z, c) =
        let h = head-write_head ht p saw.slab saw.within in
        (
          record (write_head ht p) { tail = rb },
          rw (e, head_tail_write),
          record {
            slab = h.0 ∙ sym (size-write_head ht p);
            within = rw (size-write_head ht p) h.1;
            first =
                h.2
                ∙ ap (λ l. take ht.head_size (l ++ p)) saw.first
                ∙ take-take-append ht.head_size s p
                ∙ ap (λ n. take n (s ++ p)) (sym (size-write_head ht p));
            ring = v;
            latest =
                c
                ∙ ap (λ l. last ht.tail.size (l ++ p)) saw.latest
                ∙ last-last-append ht.tail.size s p
                ∙ ap (λ n. last n (s ++ p)) (sym z);
          },
          size-write_head ht p,
          z,
        )

chunk-then :
    (ht : HeadTail) (s c : Bytes) (chunks : List Bytes)
    → Sees ht (s ++ c) (head_tail_write ht c)
    → ((ht' : HeadTail)
        → Saw ht' (s ++ c)
        → Sees ht' (s ++ c ++ joined chunks) (head_tail_write_chunks ht' chunks))
    → Sees ht (s ++ (c ++ joined chunks)) (head_tail_write_chunks ht (c ∷ chunks))
unfolding head_tail_write_chunks
chunk-then ht s c chunks (ht', e, saw, h, t) next = after (next ht' saw)
  where
    after :
        Sees ht' (s ++ c ++ joined chunks) (head_tail_write_chunks ht' chunks)
        → Sees ht (s ++ (c ++ joined chunks)) (head_tail_write_chunks ht (c ∷ chunks))
    after (ht'', e', saw', h', t') = (
      ht'',
      rw (e, head_tail_write_chunks) e',
      rw (← append_assoc s c (joined chunks)) saw',
      h' ∙ h,
      t' ∙ t,
    )

head_tail_write_chunks-Sees :
    (chunks : List Bytes) (ht : HeadTail) (s : Bytes)
    → Saw ht s
    → Sees ht (s ++ joined chunks) (head_tail_write_chunks ht chunks)
unfolding head_tail_write_chunks
head_tail_write_chunks-Sees [] ht s saw = (ht, refl, rw (append-nil s) saw, refl, refl)
head_tail_write_chunks-Sees (c ∷ chunks) ht s saw =
    chunk-then ht s c chunks (head_tail_write-Sees ht s c saw)
      (λ ht'. head_tail_write_chunks-Sees chunks ht' (s ++ c))

new_head_tail-Saw : (h t : ℕ) → 0 < t → Saw (new_head_tail h t) []
unfolding new_head_tail
new_head_tail-Saw h t pos = record {
  slab = length-replicate h 0;
  within = omega arith;
  first = sym (take-nil ℕ h);
  ring = new_ring-IsValid t pos;
  latest = sym (drop-nil ℕ (0 - t));
}

-- The stream theorem: a new pair whose tail has a size above zero takes any list of chunks; `Head`
-- then returns the first `h` bytes of their concatenation, and `Tail` the last `t`.
pub head_tail_stream :
    (h t : ℕ) (chunks : List Bytes)
    → 0 < t
    → (ht : HeadTail) × (head_tail_write_chunks (new_head_tail h t) chunks ≡ some ht)
      × (head_bytes ht ≡ take h (joined chunks))
      × ((tail_bytes ht).0 ≡ last t (joined chunks))
unfolding new_head_tail new_ring head_bytes tail_bytes
head_tail_stream h t chunks pos =
    read (head_tail_write_chunks-Sees chunks (new_head_tail h t) [] (new_head_tail-Saw h t pos))
  where
    read :
        Sees (new_head_tail h t) (joined chunks) (head_tail_write_chunks (new_head_tail h t) chunks)
        → (ht : HeadTail) × (head_tail_write_chunks (new_head_tail h t) chunks ≡ some ht)
          × (head_bytes ht ≡ take h (joined chunks))
          × ((tail_bytes ht).0 ≡ last t (joined chunks))
    read (ht, e, saw, zh, zt) = (
      ht,
      e,
      saw.first ∙ ap (λ n. take n (joined chunks)) zh,
      ring_bytes_lem ht.tail saw.ring ∙ saw.latest ∙ ap (λ n. last n (joined chunks)) zt,
    )
