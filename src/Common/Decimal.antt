-- ===== src/Common/Decimal.antt =====
-- `usize::to_string`, that it loses nothing, and `ilog10`, which says how long it is.
use Prim.Native.Nat.{ℕ, zero, suc, ◌+◌, ◌-◌, ◌*◌, ◌/◌, ◌%◌, ◌<◌, ◌≤◌}
use mathlib.Core.Path.{◌≡◌, sym, ap, ◌∙◌}
use mathlib.Core.List.{[], ◌∷◌}
use native.Mathlib.Omega.{arith}
use rust_factory.Common.Tests.{ltb, if◌then◌else◌}
use rust_factory.Common.Lists.{Bytes, All, length}

emit : ℕ → ℕ → Bytes → Bytes
emit zero n out = out
emit (suc fuel) n out =
    let rest = emit fuel (n / 10) ((b'0' + n % 10) ∷ out) in
    if ltb n 10 then (b'0' + n) ∷ out else rest

-- `n + 1` rounds are enough: each one divides by ten.
unfoldable pub decimal : ℕ → Bytes
unfolding emit
decimal n = emit (suc n) n []

read : ℕ → Bytes → ℕ
read n [] = n
read n (c ∷ rest) = read (n * 10 + (c - b'0')) rest

read-emit : (fuel n : ℕ) (out : Bytes) → n < fuel → read 0 (emit fuel n out) ≡ read n out
unfolding emit read
read-emit zero n out h = absurd (omega arith)
read-emit (suc fuel) n out h = ground (arith, read-emit fuel (n / 10) ((b'0' + n % 10) ∷ out))

pub decimal-injective : (n m : ℕ) → decimal n ≡ decimal m → n ≡ m
unfolding decimal read
decimal-injective n m h =
    sym (read-emit (suc n) n [] (omega arith))
    ∙ ap (read 0) h
    ∙ read-emit (suc m) m [] (omega arith)

abbrev pub IsDigit : ℕ → Type 0
IsDigit c = (b'0' ≤ c) × (c ≤ b'9')

emit-IsDigit : (fuel n : ℕ) (out : Bytes) → All IsDigit out → All IsDigit (emit fuel n out)
unfolding emit
emit-IsDigit zero n out h = h
emit-IsDigit (suc fuel) n out h = ground (arith, emit-IsDigit fuel (n / 10) ((b'0' + n % 10) ∷ out))

pub decimal-IsDigit : (n : ℕ) → All IsDigit (decimal n)
unfolding decimal
decimal-IsDigit n = emit-IsDigit (suc n) n [] tt

tens : ℕ → ℕ → ℕ
tens zero n = 0
tens (suc fuel) n = let rest = tens fuel (n / 10) in if ltb n 10 then 0 else rest + 1

-- `n.ilog10()` of a number that is not zero.
unfoldable pub ilog10 : ℕ → ℕ
unfolding tens
ilog10 n = tens (suc n) n

length-emit :
    (fuel n : ℕ) (out : Bytes) → n < fuel → length (emit fuel n out) ≡ tens fuel n + 1 + length out
unfolding emit tens
length-emit zero n out h = absurd (omega arith)
length-emit (suc fuel) n out h = ground (arith, length-emit fuel (n / 10) ((b'0' + n % 10) ∷ out))

pub length-decimal : (n : ℕ) → length (decimal n) ≡ ilog10 n + 1
unfolding decimal ilog10
length-decimal n = omega (arith, length-emit (suc n) n [] (omega arith))

tens-bound : (fuel n : ℕ) → tens fuel n ≤ n
unfolding tens
tens-bound zero n = omega arith
tens-bound (suc fuel) n = ground (arith, tens-bound fuel (n / 10))

pub decimal_short : (n : ℕ) → length (decimal n) ≤ n + 1
unfolding ilog10
decimal_short n = omega (arith, length-decimal n, tens-bound (suc n) n)
