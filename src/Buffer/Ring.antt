-- ===== src/Buffer/Ring.antt =====
-- `Ring` of buffer/buffer.go, with its methods. A method returns the ring after the call.
pub mod Contents
pub mod Stream
pub mod Read
use luwes.Base.{
  ℕ, zero, suc, ◌+◌, ◌-◌, min, Bool, true, false, not, List, [], ◌∷◌, ◌++◌, reverse, Option, none,
  some, leb, if◌then◌else◌, length, take, drop, replicate,
}
use luwes.Base.Bytes.{Bytes}

-- The field `data` is `slab` here, since the word is reserved.
pub record Ring : Type 0 where
  pub slab : Bytes
  pub size : ℕ
  pub pos : ℕ
  pub full : Bool

unfoldable pub new_ring : ℕ → Ring
new_ring size = record { slab = replicate size 0; size = size; pos = 0; full = false }

-- `copy(dst[at:], src)`: the new `dst` and the number of bytes copied.
unfoldable pub copy_at : Bytes → ℕ → Bytes → Bytes × ℕ
copy_at dst at src =
    let n = min (length dst - at) (length src) in
    (take at dst ++ take n src ++ drop (at + n) dst, n)

-- One round of the loop of `Write`: the ring after it, and what is left of `p`.
unfoldable pub write_round : Ring → Bytes → Ring × Bytes
unfolding copy_at
write_round rb p =
    let (slab, n) = copy_at rb.slab rb.pos p in
    let pos = rb.pos + n in
    if leb rb.size pos
    then (record rb { slab = slab; pos = 0; full = true }, drop n p)
    else (record rb { slab = slab; pos = pos }, drop n p)

-- The loop of `Write`, for at most so many rounds; `none` means that it still runs.
unfoldable pub write_loop : ℕ → Ring → Bytes → Option Ring
write_loop fuel rb [] = some rb
write_loop zero rb (x ∷ p) = none
write_loop (suc fuel) rb (x ∷ p) = let (rb', p') = write_round rb (x ∷ p) in write_loop fuel rb' p'

-- A round copies at least one byte into a ring that has room for one, so `len(p)` rounds are enough.
unfoldable pub write : Ring → Bytes → Option Ring
unfolding write_loop write_round
write rb p = write_loop (length p) rb p

unfoldable pub write_chunks : Ring → List Bytes → Option Ring
unfolding write
write_chunks rb [] = some rb
write_chunks rb (c ∷ chunks) = elim (write rb c) [
  | none ↦ none
  | some rb' ↦ write_chunks rb' chunks
]

-- `slices.Reverse(data[lo:hi])`, in place.
unfoldable pub reverse_range : ℕ → ℕ → Bytes → Bytes
reverse_range lo hi xs = take lo xs ++ reverse (take (hi - lo) (drop lo xs)) ++ drop hi xs

-- `Bytes`: what it returns, and the ring that it leaves.
unfoldable pub ring_bytes : Ring → Bytes × Ring
unfolding reverse_range
ring_bytes rb =
    let r = reverse_range 0 rb.pos rb.slab in
    let s = reverse_range rb.pos rb.size r in
    let t = reverse_range 0 rb.size s in
    if not rb.full
    then (take rb.pos rb.slab, rb)
    else (take rb.size t, record rb { slab = t; pos = 0; full = false })

unfoldable pub reset : Ring → Ring
reset rb = record rb { pos = 0; full = false }

unfoldable pub ring_len : Ring → ℕ
ring_len rb = if rb.full then rb.size else rb.pos
