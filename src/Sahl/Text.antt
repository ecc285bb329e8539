-- ===== src/Sahl/Text.antt =====
-- The text helpers of sahl/request.go and sahl/response.go.
use luwes.Base.{
  ℕ, ◌+◌, ◌-◌, ◌*◌, ◌%◌, ◌^◌, ◌≤◌, ◌<◌, ◌≡◌, refl, sym, ap, ap₂, ◌∙◌, Bool, true, false, ◌&&◌, [],
  ◌∷◌, ◌++◌, map, arith, leb, ltb, ℤ, pos, negsuc, if◌then◌else◌,
}
use luwes.Base.Bytes.{Bytes}

unfoldable pub is_upper : ℕ → Bool
is_upper c = leb b'A' c && leb c b'Z'

-- `b[j] += 'a' - 'A'`, on a byte.
unfoldable pub lower_byte : ℕ → ℕ
unfolding is_upper
lower_byte c = if is_upper c then (c + 32) % 256 else c

-- The inner loop of `asciiToLower`, from the first upper-case letter on.
unfoldable pub lower_rest : Bytes → Bytes
unfolding lower_byte
lower_rest [] = []
lower_rest (c ∷ s) = lower_byte c ∷ lower_rest s

-- The outer loop: a text with no upper-case letter is returned as it is.
unfoldable pub ascii_to_lower : Bytes → Bytes
unfolding lower_rest
ascii_to_lower [] = []
ascii_to_lower (c ∷ s) = if is_upper c then lower_rest (c ∷ s) else c ∷ ascii_to_lower s

unfoldable pub is_digit : ℕ → Bool
is_digit c = leb b'0' c && leb c b'9'

-- The loop of `parseStatus`. `n` is a Go `int`, as its 64-bit pattern, which `as_int` reads.
unfoldable pub parse_from : ℕ → Bytes → ℕ
unfolding is_digit
parse_from n [] = n
parse_from n (c ∷ s) =
    let rest = parse_from ((n * 10 + (c - b'0')) % 2 ^ 64) s in if is_digit c then rest else n

-- The value of a signed 64-bit `int`, from its pattern.
abbrev pub as_int : ℕ → ℤ
as_int n = if ltb n (2 ^ 63) then pos n else negsuc (2 ^ 64 - 1 - n)

unfoldable pub parse_status : Bytes → ℕ
unfolding parse_from
parse_status s = parse_from 0 s

lower_rest_lem : (s : Bytes) → lower_rest s ≡ map lower_byte s
unfolding lower_rest
lower_rest_lem [] = refl
lower_rest_lem (c ∷ s) = ap (λ l. lower_byte c ∷ l) (lower_rest_lem s)

-- The early return and the two loops do what lowering each byte does.
pub ascii_to_lower_lem : (s : Bytes) → ascii_to_lower s ≡ map lower_byte s
unfolding ascii_to_lower
ascii_to_lower_lem [] = refl
ascii_to_lower_lem (c ∷ s) = ground (arith, ascii_to_lower_lem s, lower_rest_lem s)

lower_byte_twice : (c : ℕ) → lower_byte (lower_byte c) ≡ lower_byte c
unfolding lower_byte
lower_byte_twice c = ground arith

-- Lowering twice is lowering once, so a cached key is found again.
pub ascii_to_lower_twice : (s : Bytes) → ascii_to_lower (ascii_to_lower s) ≡ ascii_to_lower s
ascii_to_lower_twice s =
    ascii_to_lower_lem (ascii_to_lower s)
    ∙ ap (map lower_byte) (ascii_to_lower_lem s)
    ∙ twice s
    ∙ sym (ascii_to_lower_lem s)
  where
    twice : (s : Bytes) → map lower_byte (map lower_byte s) ≡ map lower_byte s
    twice [] = refl
    twice (c ∷ s) = ap₂ ◌∷◌ (lower_byte_twice c) (twice s)

abbrev pub AllDigits : Bytes → Type 0
AllDigits [] = Unit {0}
AllDigits (c ∷ s) = (is_digit c ≡ true) × AllDigits s

-- The number that digits stand for, read from the left after a value.
abbrev pub decimal : ℕ → Bytes → ℕ
decimal n [] = n
decimal n (c ∷ s) = decimal (n * 10 + (c - b'0')) s

-- What stands behind the digits: nothing, or a byte that is no digit.
abbrev pub Stops : Bytes → Type 0
Stops [] = Unit {0}
Stops (c ∷ s) = is_digit c ≡ false

decimal-ge : (n : ℕ) (ds : Bytes) → n ≤ decimal n ds
decimal-ge n [] = omega arith
decimal-ge n (c ∷ ds) = omega (arith, decimal-ge (n * 10 + (c - b'0')) ds)

parse_from_lem :
    (n : ℕ) (ds rest : Bytes)
    → AllDigits ds
    → Stops rest
    → decimal n ds < 2 ^ 64
    → parse_from n (ds ++ rest) ≡ decimal n ds
unfolding parse_from
parse_from_lem n [] [] d s k = refl
parse_from_lem n [] (c ∷ rest) d s k = rw s
parse_from_lem n (c ∷ ds) rest d s k =
    let fits : (n * 10 + (c - b'0')) % 2 ^ 64 ≡ n * 10 + (c - b'0') =
      omega (arith, decimal-ge (n * 10 + (c - b'0')) ds) in
    rw (d.0, fits) (parse_from_lem (n * 10 + (c - b'0')) ds rest d.1 s k)

as_int-pos : (n m : ℕ) → n ≡ m → m < 2 ^ 63 → as_int n ≡ pos m
as_int-pos n m e k = ground (arith, e, k)

-- `parseStatus` reads the digits at the front of a text as a decimal number, up to the first other
-- byte or the end, if that number is below 2 ^ 63: the signed `int` that it returns is the number.
pub parse_status_lem :
    (ds rest : Bytes)
    → AllDigits ds
    → Stops rest
    → decimal 0 ds < 2 ^ 63
    → as_int (parse_status (ds ++ rest)) ≡ pos (decimal 0 ds)
unfolding parse_status
parse_status_lem ds rest d s k =
    as_int-pos (parse_from 0 (ds ++ rest)) (decimal 0 ds)
      (parse_from_lem 0 ds rest d s (omega (arith, k))) k
