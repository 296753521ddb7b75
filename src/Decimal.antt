-- ===== src/Decimal.antt =====
-- Decimal print: the loop of `strconvI` in server/internal/sanitize/sanitize.go, which also is what
-- `strconv.FormatUint(n, 10)` gives for a uint64.
use native.Mathlib.Nat.{pow-suc}
use golem_harness.Base.{
  ℕ, zero, suc, ◌+◌, ◌-◌, ◌*◌, ◌/◌, ◌%◌, ◌^◌, ◌<◌, Str, ◌≡◌, ◌∙◌, ap, Bool-cases, inl, inr, [], ◌∷◌,
  arith, ◌==◌, if◌then◌else◌,
}
use golem_harness.Platform.{IsLine}

-- One round divides `i` by ten and writes the digit in front of `buf`. The fuel is the room that
-- is left in the buffer.
unfoldable pub digit_loop : ℕ → ℕ → Str → Str
digit_loop zero i buf = buf
digit_loop (suc pos) i buf =
    let rest = digit_loop pos (i / 10) ((48 + i % 10) ∷ buf) in if i == 0 then buf else rest

-- `[20]byte` has room for the digits of every 64-bit number.
unfoldable pub decimal : ℕ → Str
decimal i = if i == 0 then 48 ∷ [] else digit_loop 20 i []

-- The number that a text of digits stands for, behind digits worth `acc`.
unfoldable pub value : ℕ → Str → ℕ
value acc [] = acc
value acc (c ∷ s) = value (acc * 10 + (c - 48)) s

value-digit_loop :
    (pos i : ℕ) (buf : Str) → i < 10 ^ pos → value 0 (digit_loop pos i buf) ≡ value i buf
unfolding digit_loop value
value-digit_loop zero i buf h = ap (λ n. value n buf) (omega arith)
value-digit_loop (suc pos) i buf h = elim (Bool-cases (i == 0)) [
  | inl e ↦ rw e (ap (λ n. value n buf) (ground arith))
  | inr e ↦ rw e (
      value-digit_loop pos (i / 10) ((48 + i % 10) ∷ buf) (omega (arith, pow-suc 10 pos))
      ∙ ap (λ n. value n buf) (omega arith))
]

-- The decimal digits of a number of 64 bits read back as that number.
pub value-decimal : (i : ℕ) → i < 2 ^ 64 → value 0 (decimal i) ≡ i
unfolding decimal value
value-decimal i h = elim (Bool-cases (i == 0)) [
  | inl e ↦ rw e (ground arith)
  | inr e ↦ rw e (value-digit_loop 20 i [] (omega arith))
]

pub decimal_injective : (i j : ℕ) → i < 2 ^ 64 → j < 2 ^ 64 → decimal i ≡ decimal j → i ≡ j
decimal_injective i j hi hj e =
    omega (arith, value-decimal i hi, value-decimal j hj, ap (value 0) e)

digit_loop-IsLine : (pos i : ℕ) (buf : Str) → IsLine buf → IsLine (digit_loop pos i buf)
unfolding digit_loop
digit_loop-IsLine zero i buf h = h
digit_loop-IsLine (suc pos) i buf h = elim (Bool-cases (i == 0)) [
  | inl e ↦ rw e h
  | inr e ↦ rw e (digit_loop-IsLine pos (i / 10) ((48 + i % 10) ∷ buf) (omega arith, h))
]

pub decimal-IsLine : (i : ℕ) → IsLine (decimal i)
unfolding decimal
decimal-IsLine i = elim (Bool-cases (i == 0)) [
  | inl e ↦ rw e (omega arith, tt)
  | inr e ↦ rw e (digit_loop-IsLine 20 i [] tt)
]
