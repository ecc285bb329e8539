-- ===== src/Buffer/Ring/Contents.antt =====
-- What a ring holds, oldest first, and one call of each method against it.
use luwes.Base.{
  ℕ, ◌+◌, ◌-◌, ◌≤◌, ◌<◌, min, ◌≡◌, refl, sym, ap, ◌∙◌, Bool, true, false, [], ◌++◌, reverse, ap₂,
  append-nil, append_assoc, arith, if◌then◌else◌, length, take, drop, last, length-append,
  length-take, length-drop, last_short, last_long, take_prefix, drop_prefix, take_all, drop_all,
  drop-append, length-reverse, drop-drop, take-append-drop,
}
use mathlib.Core.List.{reverse-append, reverse-reverse}
use luwes.Base.Bytes.{Bytes}
use luwes.Buffer.Ring.{Ring, write_round, ring_bytes, ring_len, reverse_range}

-- The storage has the ring's size, there is room for a byte, and the next index lies in range.
pub record IsValid (rb : Ring) : Type 0 where
  pub storage : length rb.slab ≡ rb.size
  pub room : rb.pos < rb.size

abbrev pub contents : Ring → Bytes
contents rb = if rb.full then drop rb.pos rb.slab ++ take rb.pos rb.slab else take rb.pos rb.slab

pub length-contents : (rb : Ring) → IsValid rb → length (contents rb) ≤ rb.size
length-contents rb v = ground (
  arith,
  v.storage,
  v.room,
  length-append (drop rb.pos rb.slab) (take rb.pos rb.slab),
  length-take rb.pos rb.slab,
  length-drop rb.pos rb.slab,
)

abbrev pub copied : Ring → Bytes → ℕ
copied rb p = min (length rb.slab - rb.pos) (length p)

-- The four cases of a round. The storage is `a ++ b`, split at `pos`, and `c` is what is copied
-- over the beginning of `b`.
module _ (a b c : Bytes) (size : ℕ) (whole : length a + length b ≡ size) where
  overlay : Bytes
  overlay = a ++ c ++ drop (length c) b

  filled : length b ≡ length c → overlay ≡ a ++ c
  unfolding overlay
  filled h = rw (drop_all (length c) b (omega arith), append-nil (a ++ c))

  wrap_full : length b ≡ length c → overlay ++ [] ≡ last size (b ++ a ++ c)
  wrap_full h =
      append-nil overlay
      ∙ filled h
      ∙ sym (
          last_long size (length c) (b ++ a ++ c)
            (omega (arith, length-append (b ++ a) c, length-append b a))
          ∙ ap (drop (length c)) (append_assoc b a c)
          ∙ drop_prefix (length c) b (a ++ c) h)

  wrap_fresh : length b ≡ length c → overlay ++ [] ≡ last size (a ++ c)
  wrap_fresh h =
      append-nil overlay
      ∙ filled h
      ∙ sym (last_short size (a ++ c) (omega (arith, length-append a c)))

  step_full :
      length c ≤ length b
      → drop (length a + length c) overlay ++ take (length a + length c) overlay
        ≡ last size (b ++ a ++ c)
  unfolding overlay
  step_full h =
      rw
        (
          drop_prefix (length a + length c) (a ++ c) (drop (length c) b) (length-append a c),
          take_prefix (length a + length c) (a ++ c) (drop (length c) b) (length-append a c),
        )
        (sym (
          last_long size (length c) (b ++ a ++ c)
            (omega (arith, length-append (b ++ a) c, length-append b a))
          ∙ ap (drop (length c)) (append_assoc b a c)
          ∙ drop-append (length c) b (a ++ c) h))

  step_fresh : length c ≤ length b → take (length a + length c) overlay ≡ last size (a ++ c)
  unfolding overlay
  step_fresh h =
      take_prefix (length a + length c) (a ++ c) (drop (length c) b) (length-append a c)
      ∙ sym (last_short size (a ++ c) (omega (arith, length-append a c)))

-- The same, over the numbers and the storage that the code computes.
module _ (a b c d : Bytes) (size pos n : ℕ) (before : length a ≡ pos)
    (whole : pos + length b ≡ size) (count : length c ≡ n) (fits : n ≤ length b)
    (copied : d ≡ a ++ c ++ drop n b) where
  splits : length a + length b ≡ size
  splits = omega arith

  overlaid : d ≡ overlay a b c size splits
  unfolding overlay
  overlaid = copied ∙ ap (λ k. a ++ c ++ drop k b) (sym count)

  cut : length a + length c ≡ pos + n
  cut = omega arith

  round_wraps :
      (full : Bool) → pos + n ≡ size → d ++ [] ≡ last size ((if full then b ++ a else a) ++ c)
  round_wraps true h = rw overlaid (wrap_full a b c size splits (omega arith))
  round_wraps false h = rw overlaid (wrap_fresh a b c size splits (omega arith))

  round_steps :
      (full : Bool)
      → (if full then drop (pos + n) d ++ take (pos + n) d else take (pos + n) d)
        ≡ last size ((if full then b ++ a else a) ++ c)
  round_steps true = rw (overlaid, ← cut) (step_full a b c size splits (omega arith))
  round_steps false = rw (overlaid, ← cut) (step_fresh a b c size splits (omega arith))

abbrev copy_slab : Ring → Bytes → Bytes
copy_slab rb p = take rb.pos rb.slab ++ take (copied rb p) p ++ drop (rb.pos + copied rb p) rb.slab

module _ (rb : Ring) (p : Bytes) (v : IsValid rb) where
  length-before : length (take rb.pos rb.slab) ≡ rb.pos
  length-before = omega (arith, length-take rb.pos rb.slab, v.storage, v.room)

  length-after : rb.pos + length (drop rb.pos rb.slab) ≡ rb.size
  length-after = omega (arith, length-drop rb.pos rb.slab, v.storage, v.room)

  length-copied : length (take (copied rb p) p) ≡ copied rb p
  length-copied = omega (arith, length-take (copied rb p) p)

  copied-le : copied rb p ≤ length (drop rb.pos rb.slab)
  copied-le = omega (arith, length-drop rb.pos rb.slab)

  copy_slab-split :
      copy_slab rb p
      ≡ take rb.pos rb.slab ++ take (copied rb p) p ++ drop (copied rb p) (drop rb.pos rb.slab)
  copy_slab-split =
      ap (λ l. take rb.pos rb.slab ++ take (copied rb p) p ++ l)
        (sym (drop-drop (copied rb p) rb.pos rb.slab))

  length-copy_slab : length (copy_slab rb p) ≡ rb.size
  length-copy_slab = omega (
    arith,
    length-append (take rb.pos rb.slab ++ take (copied rb p) p)
        (drop (rb.pos + copied rb p) rb.slab),
    length-append (take rb.pos rb.slab) (take (copied rb p) p),
    length-drop (rb.pos + copied rb p) rb.slab,
    length-before,
    length-copied,
    v.storage,
    v.room,
  )

  -- The ring stays valid.
  pub write_round-IsValid : IsValid (write_round rb p).0
  unfolding write_round
  write_round-IsValid = ground (arith, v.storage, v.room, length-copy_slab)

  pub size-write_round : (write_round rb p).0.size ≡ rb.size
  unfolding write_round
  size-write_round = ground arith

  -- What is left, and that a round makes progress.
  pub rest-write_round : (write_round rb p).1 ≡ drop (copied rb p) p
  unfolding write_round
  rest-write_round = ground arith

  -- A round keeps the last `size` bytes of what was there and what it has copied.
  pub write_round_lem :
      contents (write_round rb p).0 ≡ last rb.size (contents rb ++ take (copied rb p) p)
  unfolding write_round
  write_round_lem = ground (
    arith,
    round_wraps (take rb.pos rb.slab) (drop rb.pos rb.slab) (take (copied rb p) p) (copy_slab rb p)
        rb.size rb.pos (copied rb p) length-before length-after length-copied copied-le
        copy_slab-split rb.full,
    round_steps (take rb.pos rb.slab) (drop rb.pos rb.slab) (take (copied rb p) p) (copy_slab rb p)
        rb.size rb.pos (copied rb p) length-before length-after length-copied copied-le
        copy_slab-split rb.full,
    v.storage,
    v.room,
  )

-- `slices.Reverse` over the middle of three parts.
reverse_range_lem :
    (lo hi : ℕ) (u m w : Bytes)
    → length u ≡ lo
    → length m ≡ hi - lo
    → lo ≤ hi
    → reverse_range lo hi (u ++ (m ++ w)) ≡ u ++ reverse m ++ w
unfolding reverse_range
reverse_range_lem lo hi u m w hu hm h =
    rw (take_prefix lo u (m ++ w) hu, drop_prefix lo u (m ++ w) hu, take_prefix (hi - lo) m w hm)
      (ap (λ l. u ++ reverse m ++ l) (ends))
  where
    ends : drop hi (u ++ (m ++ w)) ≡ w
    ends =
        ap (drop hi) (sym (append_assoc u m w))
        ∙ drop_prefix hi (u ++ m) w (omega (arith, length-append u m))

-- The rotation of `Bytes`: three reversals swap the two parts of the storage.
rotation :
    (pos size : ℕ) (a b : Bytes)
    → length a ≡ pos
    → length a + length b ≡ size
    → reverse_range 0 size (reverse_range pos size (reverse_range 0 pos (a ++ b))) ≡ b ++ a
rotation pos size a b ha hs =
    ap (λ l. reverse_range 0 size (reverse_range pos size l)) first
    ∙ ap (reverse_range 0 size) second
    ∙ third
  where
    first : reverse_range 0 pos (a ++ b) ≡ reverse a ++ b
    first = reverse_range_lem 0 pos [] a b refl (omega arith) (omega arith)

    second : reverse_range pos size (reverse a ++ b) ≡ reverse a ++ reverse b
    second =
        ap (λ l. reverse_range pos size (reverse a ++ l)) (sym (append-nil b))
        ∙ reverse_range_lem pos size (reverse a) b [] (length-reverse a ∙ ha) (omega arith)
            (omega arith)
        ∙ append-nil (reverse a ++ reverse b)

    whole : length (reverse a ++ reverse b) ≡ size - 0
    whole = omega (arith, length-append (reverse a) (reverse b), length-reverse a, length-reverse b)

    third : reverse_range 0 size (reverse a ++ reverse b) ≡ b ++ a
    third =
        ap (reverse_range 0 size) (sym (append-nil (reverse a ++ reverse b)))
        ∙ reverse_range_lem 0 size [] (reverse a ++ reverse b) [] refl whole (omega arith)
        ∙ append-nil (reverse (reverse a ++ reverse b))
        ∙ reverse-append (reverse a) (reverse b)
        ∙ ap₂ ◌++◌ (reverse-reverse b) (reverse-reverse a)

module _ (rb : Ring) (v : IsValid rb) where
  rotated :
      reverse_range 0 rb.size (reverse_range rb.pos rb.size (reverse_range 0 rb.pos rb.slab))
      ≡ drop rb.pos rb.slab ++ take rb.pos rb.slab
  rotated =
      ap (λ l. reverse_range 0 rb.size (reverse_range rb.pos rb.size (reverse_range 0 rb.pos l)))
        (sym (take-append-drop rb.pos rb.slab))
      ∙ rotation rb.pos rb.size (take rb.pos rb.slab) (drop rb.pos rb.slab) (length-before rb [] v)
          (omega (arith, length-before rb [] v, length-after rb [] v))

  length-rotated : length (drop rb.pos rb.slab ++ take rb.pos rb.slab) ≤ rb.size
  length-rotated = omega (
    arith,
    length-append (drop rb.pos rb.slab) (take rb.pos rb.slab),
    length-before rb [] v,
    length-after rb [] v,
  )

  -- `Bytes` returns what the ring holds, oldest byte first.
  pub ring_bytes_lem : (ring_bytes rb).0 ≡ contents rb
  unfolding ring_bytes
  ring_bytes_lem =
      ground (
        arith,
        rotated,
        take_all rb.size (drop rb.pos rb.slab ++ take rb.pos rb.slab) length-rotated,
      )

  -- It leaves a ring that has not filled as it was, and empties one that has.
  pub ring_bytes-leaves :
      (IsValid (ring_bytes rb).1)
      × (contents (ring_bytes rb).1 ≡ (if rb.full then [] else contents rb))
  unfolding ring_bytes
  ring_bytes-leaves = ground (
    arith,
    v.storage,
    v.room,
    rotated,
    length-append (drop rb.pos rb.slab) (take rb.pos rb.slab),
    length-before rb [] v,
    length-after rb [] v,
  )

  -- `Len` of a valid ring is the number of bytes of its contents.
  pub ring_len_lem : ring_len rb ≡ length (contents rb)
  unfolding ring_len
  ring_len_lem = ground (
    arith,
    length-append (drop rb.pos rb.slab) (take rb.pos rb.slab),
    length-before rb [] v,
    length-after rb [] v,
  )
