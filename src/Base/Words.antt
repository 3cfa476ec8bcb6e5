-- ===== src/Base/Words.antt =====
-- Machine words and text. A word is held as a number with its wrap-around written out, an `i32` as
-- its bit pattern, an `f32` as its IEEE 754 pattern, and a text as its Unicode scalar values.
use Prim.Native.Char.{code}
use Prim.Native.Nat.{ℕ, zero, suc, ◌+◌, ◌-◌, ◌*◌, ◌/◌, ◌%◌, ◌^◌}
use Prim.Native.String.{String}
use mathlib.Core.Bool.{Bool, true, false, ◌&&◌}
use mathlib.Core.List.{List, [], ◌∷◌, ◌++◌}
use llm_worker.Base.Tests.{ltb, leb, ◌==◌, if◌then◌else◌}
use llm_worker.Base.Int.{ℤ, pos, negsuc}

abbrev pub u32 : ℕ → ℕ
u32 n = n % 2 ^ 32

abbrev pub u64 : ℕ → ℕ
u64 n = n % 2 ^ 64

-- `fetch_sub(1)` and `fetch_add(1)` on an `AtomicUsize`, which wrap.
abbrev pub decrement : ℕ → ℕ
decrement n = (n + (2 ^ 64 - 1)) % 2 ^ 64

abbrev pub increment : ℕ → ℕ
increment n = (n + 1) % 2 ^ 64

-- `u32::saturating_mul`
abbrev pub saturating_mul : ℕ → ℕ → ℕ
saturating_mul a b = if ltb (a * b) (2 ^ 32) then a * b else 2 ^ 32 - 1

-- The signed reading of a 64-bit pattern: `x as i64`, and a wrapping `i64` product.
abbrev pub i64 : ℕ → ℤ
i64 n = if ltb (u64 n) (2 ^ 63) then pos (u64 n) else negsuc (2 ^ 64 - 1 - u64 n)

-- `x > 0.0` on the bit pattern of an `f32`: the positive numbers and infinity, no NaN.
abbrev pub f32_positive : ℕ → Bool
f32_positive bits = ltb 0 bits && leb bits 0x7f80_0000

abbrev pub Text : Type 0
Text = List ℕ

abbrev pub codes : String → Text
codes String.[] = []
codes (String.◌∷◌ c s) = code c ∷ codes s

abbrev pub text_eq : Text → Text → Bool
text_eq [] [] = true
text_eq [] (d ∷ t) = false
text_eq (c ∷ s) [] = false
text_eq (c ∷ s) (d ∷ t) = c == d && text_eq s t

abbrev pub concat : List Text → Text
concat [] = []
concat (t ∷ ts) = t ++ concat ts

-- The decimal digits of `n`, before `rest`; `fuel` above `n` is enough.
decimal_from : ℕ → ℕ → Text → Text
decimal_from zero n rest = rest
decimal_from (suc fuel) n rest =
    let digit = 48 + n % 10 in
    let front = decimal_from fuel (n / 10) (digit ∷ rest) in
    if ltb n 10 then digit ∷ rest else front

unfoldable pub decimal : ℕ → Text
unfolding decimal_from
decimal n = decimal_from (suc n) n []
