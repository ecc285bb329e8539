-- ===== src/Buffer/Ring/Read.antt =====
-- Reading a ring with `Bytes`, and what a later read or write finds.
use luwes.Base.{◌≡◌, ap, ◌∙◌, [], ◌++◌, some, arith, if◌then◌else◌, last}
use luwes.Base.Bytes.{Bytes}
use luwes.Buffer.Ring.{Ring, ring_bytes, write}
use luwes.Buffer.Ring.Contents.{IsValid, contents, ring_bytes_lem, ring_bytes-leaves}
use luwes.Buffer.Ring.Stream.{Wrote, write-Wrote}

size-ring_bytes : (rb : Ring) → (ring_bytes rb).1.size ≡ rb.size
unfolding ring_bytes
size-ring_bytes rb = ground arith

-- What `Bytes` leaves behind: all of a ring that has not filled, nothing of one that has.
abbrev pub left_over : Ring → Bytes
left_over rb = if rb.full then [] else contents rb

-- On a valid ring `Bytes` returns the bytes held. A second `Bytes` returns them again only if the
-- ring had not filled, and returns nothing if it had; a write of `p` in between returns, and the
-- ring then holds the last bytes of what was left over and `p`.
pub ring_bytes_again :
    (rb : Ring) (p : Bytes)
    → IsValid rb
    → ((ring_bytes rb).0 ≡ contents rb)
      × ((ring_bytes (ring_bytes rb).1).0 ≡ left_over rb)
      × (rb' : Ring) × (write (ring_bytes rb).1 p ≡ some rb')
      × ((ring_bytes rb').0 ≡ last rb.size (left_over rb ++ p))
ring_bytes_again rb p v = after (write-Wrote (ring_bytes rb).1 p (ring_bytes-leaves rb v).0)
  where
    after :
        Wrote (ring_bytes rb).1 p (write (ring_bytes rb).1 p)
        → ((ring_bytes rb).0 ≡ contents rb)
          × ((ring_bytes (ring_bytes rb).1).0 ≡ left_over rb)
          × (rb' : Ring) × (write (ring_bytes rb).1 p ≡ some rb')
          × ((ring_bytes rb').0 ≡ last rb.size (left_over rb ++ p))
    after (rb', e, v', s, c) = (
      ring_bytes_lem rb v,
      ring_bytes_lem (ring_bytes rb).1 (ring_bytes-leaves rb v).0 ∙ (ring_bytes-leaves rb v).1,
      rb',
      e,
      ring_bytes_lem rb' v'
          ∙ c
          ∙ ap (λ n. last n (contents (ring_bytes rb).1 ++ p)) (size-ring_bytes rb)
          ∙ ap (λ l. last rb.size (l ++ p)) (ring_bytes-leaves rb v).1,
    )
