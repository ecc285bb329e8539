-- ===== src/Buffer/Ring/Stream.antt =====
-- Whole writes: the loop of `Write` ends, and the ring holds the last bytes of all that was written.
use luwes.Base.{
  ℕ, zero, suc, ◌≤◌, ◌<◌, ◌≡◌, refl, sym, ap, ◌∙◌, Bool, true, List, [], ◌∷◌, ◌++◌, append-nil,
  append_assoc, Option, none, some, arith, length, take, drop, last, length-drop, length-replicate,
  last-last-append, last_short, take-append-drop,
}
use luwes.Base.Bytes.{Bytes}
use luwes.Buffer.Ring.{Ring, new_ring, write_round, write_loop, write, write_chunks}
use luwes.Buffer.Ring.Contents.{
  IsValid, contents, length-contents, copied, write_round-IsValid, size-write_round,
  rest-write_round, write_round_lem,
}

-- What a write promises: it returns a valid ring of the same size, which holds the last bytes.
abbrev pub Wrote : Ring → Bytes → Option Ring → Type 0
Wrote rb p r =
    (rb' : Ring) × (r ≡ some rb')
    × IsValid rb'
    × (rb'.size ≡ rb.size)
    × (contents rb' ≡ last rb.size (contents rb ++ p))

after_round :
    (rb : Ring) (p : Bytes) (v : IsValid rb) (r : Option Ring)
    → Wrote (write_round rb p).0 (write_round rb p).1 r
    → Wrote rb p r
after_round rb p v r (rb', e, v', s, c) = (rb', e, v', s ∙ size-write_round rb p v, c ∙ joined)
  where
    n : ℕ
    n = copied rb p

    joined :
        last (write_round rb p).0.size (contents (write_round rb p).0 ++ (write_round rb p).1)
        ≡ last rb.size (contents rb ++ p)
    joined =
        rw (size-write_round rb p v, rest-write_round rb p v, write_round_lem rb p v)
          (last-last-append rb.size (contents rb ++ take n p) (drop n p)
            ∙ ap (last rb.size) (
                append_assoc (contents rb) (take n p) (drop n p)
                ∙ ap (λ l. contents rb ++ l) (take-append-drop n p)))

-- A round consumes at least one byte.
length-rest :
    (rb : Ring) (x : ℕ) (p : Bytes) → IsValid rb → length (write_round rb (x ∷ p)).1 ≤ length p
length-rest rb x p v =
    rw (rest-write_round rb (x ∷ p) v)
      (omega (arith, length-drop (copied rb (x ∷ p)) (x ∷ p), v.storage, v.room))

write_loop-Wrote :
    (fuel : ℕ) (rb : Ring) (p : Bytes)
    → IsValid rb
    → length p ≤ fuel
    → Wrote rb p (write_loop fuel rb p)
unfolding write_loop
write_loop-Wrote fuel rb [] v h =
    (rb, refl, v, refl, sym (ap (last rb.size) (append-nil (contents rb)) ∙ unchanged))
  where
    unchanged : last rb.size (contents rb) ≡ contents rb
    unchanged = last_short rb.size (contents rb) (length-contents rb v)
write_loop-Wrote zero rb (x ∷ p) v h = absurd (omega arith)
write_loop-Wrote (suc fuel) rb (x ∷ p) v h =
    after_round rb (x ∷ p) v (write_loop (suc fuel) rb (x ∷ p)) (
      write_loop-Wrote fuel (write_round rb (x ∷ p)).0 (write_round rb (x ∷ p)).1
        (write_round-IsValid rb (x ∷ p) v) (omega (arith, length-rest rb x p v)))

-- `Write` on a ring with room returns, keeps the ring valid and its size, and the ring then holds
-- the last `size` bytes of what it held and what was written.
pub write-Wrote : (rb : Ring) (p : Bytes) → IsValid rb → Wrote rb p (write rb p)
unfolding write
write-Wrote rb p v = write_loop-Wrote (length p) rb p v (omega arith)

abbrev pub joined : List Bytes → Bytes
joined [] = []
joined (c ∷ chunks) = c ++ joined chunks

-- A write, and then another of what comes next.
Wrote-then :
    (rb rb' : Ring) (c d : Bytes) (r : Option Ring)
    → rb'.size ≡ rb.size
    → contents rb' ≡ last rb.size (contents rb ++ c)
    → Wrote rb' d r
    → Wrote rb (c ++ d) r
Wrote-then rb rb' c d r s k (rb'', e, v, s', k') = (rb'', e, v, s' ∙ s, k' ∙ both)
  where
    both : last rb'.size (contents rb' ++ d) ≡ last rb.size (contents rb ++ (c ++ d))
    both =
        rw (s, k)
          (last-last-append rb.size (contents rb ++ c) d
            ∙ ap (last rb.size) (append_assoc (contents rb) c d))

chunk-then :
    (rb : Ring) (c : Bytes) (chunks : List Bytes)
    → Wrote rb c (write rb c)
    → ((rb' : Ring) → IsValid rb' → Wrote rb' (joined chunks) (write_chunks rb' chunks))
    → Wrote rb (c ++ joined chunks) (write_chunks rb (c ∷ chunks))
unfolding write_chunks
chunk-then rb c chunks (rb', e, v', s, k) next =
    rw (e, write_chunks)
      (Wrote-then rb rb' c (joined chunks) (write_chunks rb' chunks) s k (next rb' v'))

-- `WriteChunks` does for a list of chunks what one `Write` of all their bytes does.
pub write_chunks-Wrote :
    (chunks : List Bytes) (rb : Ring)
    → IsValid rb
    → Wrote rb (joined chunks) (write_chunks rb chunks)
unfolding write_chunks
write_chunks-Wrote [] rb v =
    (rb, refl, v, refl, sym (ap (last rb.size) (append-nil (contents rb)) ∙ unchanged))
  where
    unchanged : last rb.size (contents rb) ≡ contents rb
    unchanged = last_short rb.size (contents rb) (length-contents rb v)
write_chunks-Wrote (c ∷ chunks) rb v =
    chunk-then rb c chunks (write-Wrote rb c v) (write_chunks-Wrote chunks)

pub new_ring-IsValid : (size : ℕ) → 0 < size → IsValid (new_ring size)
unfolding new_ring
new_ring-IsValid size h = record { storage = length-replicate size 0; room = h }

-- The stream theorem: a new ring of a size above zero takes any list of chunks, and then holds the
-- last `size` bytes of their concatenation.
pub ring_stream :
    (size : ℕ) (chunks : List Bytes)
    → 0 < size
    → (rb : Ring) × (write_chunks (new_ring size) chunks ≡ some rb)
      × IsValid rb
      × (rb.size ≡ size)
      × (contents rb ≡ last size (joined chunks))
unfolding new_ring
ring_stream size chunks h = write_chunks-Wrote chunks (new_ring size) (new_ring-IsValid size h)

-- A ring without room, as `NewRing(0)` makes it and after a round on it.
abbrev pub no_room : Bool → Ring
no_room full = record { slab = []; size = 0; pos = 0; full = full }

write_round-no_room :
    (full : Bool) (x : ℕ) (p : Bytes) → write_round (no_room full) (x ∷ p) ≡ (no_room true, x ∷ p)
unfolding write_round
write_round-no_room full x p = ground arith

-- On a ring of size 0 the loop of `Write` never ends on a text that is not empty: whatever the fuel,
-- it runs out.
pub write_loop-no_room :
    (fuel : ℕ) (full : Bool) (x : ℕ) (p : Bytes) → write_loop fuel (no_room full) (x ∷ p) ≡ none
unfolding write_loop
write_loop-no_room zero full x p = refl
write_loop-no_room (suc fuel) full x p =
    ap (λ s. write_loop fuel s.0 s.1) (write_round-no_room full x p)
    ∙ write_loop-no_room fuel true x p
