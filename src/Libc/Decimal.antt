-- ===== src/Libc/Decimal.antt =====
-- Printing a number in decimal and reading it.
use sysmngr.Prelude.{
  ℕ, zero, suc, ◌+◌, ◌-◌, ◌*◌, ◌/◌, ◌%◌, ◌^◌, ◌≤◌, ◌<◌, ◌≡◌, true, false, Bool-cases, inl, inr, [],
  ◌∷◌, ◌==◌, is_empty, length, ltb, ltb→lt, lt→ltb, arith, Text, ◌∙◌, ap, refl,
}
use sysmngr.Prelude.Int.{pos, negsuc}
use sysmngr.Libc.{
  digits_value, digits_before, decimal, strtol, strtoul, signed_digits, skip_spaces, is_space,
  to_int, ulong_of, u32, decimal_ℤ, i32_of_u64,
}

digits_value-digit :
    (acc d : ℕ) (s : Text)
    → d < 10
    → digits_value acc ((48 + d) ∷ s) ≡ digits_value (acc * 10 + d) s
unfolding digits_value
digits_value-digit acc d s h =
    let k : 48 + d - 48 ≡ d = omega arith in
    ground (arith, k, ap (λ n. digits_value (acc * 10 + n) s) k)

digits_value-before :
    (fuel n : ℕ) (s : Text) → n < fuel → digits_value 0 (digits_before fuel n s) ≡ digits_value n s
unfolding digits_before
digits_value-before zero n s h = absurd (omega arith)
digits_value-before (suc fuel) n s h = elim (Bool-cases (ltb n 10)) [
  | inl e ↦
      rw e (digits_value-digit 0 n s (ltb→lt n 10 e) ∙ ap (λ k. digits_value k s) (omega arith))
  | inr e ↦ rw e (
      digits_value-before fuel (n / 10) ((48 + n % 10) ∷ s) (ground arith)
      ∙ digits_value-digit (n / 10) (n % 10) s (omega arith)
      ∙ ap (λ k. digits_value k s) (omega arith))
]

-- The digits printed for a number are read back as that number.
pub digits_value-decimal : (n : ℕ) → digits_value 0 (decimal n) ≡ n
unfolding decimal digits_value
digits_value-decimal n = digits_value-before (n + 1) n [] (omega arith)

-- The first byte printed is a digit.
StartsWithDigit : Text → Type 0
StartsWithDigit s = (d : ℕ) × (r : Text) × (s ≡ d ∷ r) × (48 ≤ d) × (d ≤ 57)

digits_before-start : (fuel n : ℕ) (s : Text) → n < fuel → StartsWithDigit (digits_before fuel n s)
unfolding digits_before StartsWithDigit
digits_before-start zero n s h = absurd (omega arith)
digits_before-start (suc fuel) n s h = elim (Bool-cases (ltb n 10)) [
  | inl e ↦ (48 + n, s, rw e, omega arith, omega (arith, ltb→lt n 10 e))
  | inr e ↦ rw e (digits_before-start fuel (n / 10) ((48 + n % 10) ∷ s) (ground arith))
]

signed_digits-digit :
    (s : Text) → StartsWithDigit s → signed_digits (skip_spaces s) ≡ (false, digits_value 0 s)
unfolding signed_digits StartsWithDigit
signed_digits-digit s (d, r, e, lo, hi) =
    let space : is_space d ≡ false = ground arith in
    let minus : (d == b'-') ≡ false = ground arith in
    let plus : (d == b'+') ≡ false = ground arith in rw (e, space, minus, plus)

signed_digits-decimal : (n : ℕ) → signed_digits (skip_spaces (decimal n)) ≡ (false, n)
unfolding decimal
signed_digits-decimal n =
    signed_digits-digit (decimal n) (digits_before-start (n + 1) n [] (omega arith))
    ∙ ap (λ (k : ℕ). (false, k)) (digits_value-decimal n)

-- strtol reads back what "%lu" printed.
pub strtol-decimal : (n : ℕ) → n < 2 ^ 63 → strtol (decimal n) ≡ pos n
unfolding strtol
strtol-decimal n h = rw (signed_digits-decimal n) (ap pos (omega arith))

pub to_int-pos : (n : ℕ) → n < 2 ^ 31 → to_int (pos n) ≡ pos n
unfolding to_int
to_int-pos n h = ground arith

pub strtoul-decimal : (n : ℕ) → n < 2 ^ 64 → strtoul (decimal n) ≡ n
unfolding strtoul
strtoul-decimal n h = rw (signed_digits-decimal n) (omega arith)

abbrev pub tens : ℕ → ℕ
tens zero = 1
tens (suc k) = 10 * tens k

digits_before-length :
    (fuel n k : ℕ) (s : Text)
    → n < fuel
    → n < tens (suc k)
    → length (digits_before fuel n s) ≤ suc k + length s
unfolding digits_before
digits_before-length zero n k s h b = absurd (omega arith)
digits_before-length (suc fuel) n zero s h b = rw (lt→ltb n 10 b) (omega arith)
digits_before-length (suc fuel) n (suc k) s h b = elim (Bool-cases (ltb n 10)) [
  | inl e ↦ rw e (omega arith)
  | inr e ↦ rw e (
      omega (
        arith,
        digits_before-length fuel (n / 10) k ((48 + n % 10) ∷ s) (ground arith) (omega arith),
      ))
]

-- A number of at most k + 1 digits fills at most k + 1 bytes.
pub length-decimal : (n k : ℕ) → n < tens (suc k) → length (decimal n) ≤ suc k
unfolding decimal
length-decimal n k h = omega (arith, digits_before-length (n + 1) n k [] (omega arith) h)

pub decimal-nonempty : (n : ℕ) → is_empty (decimal n) ≡ false
unfolding decimal StartsWithDigit
decimal-nonempty n = let (d, r, e, _, _) = digits_before-start (n + 1) n [] (omega arith) in rw e

signed_digits-minus : (n : ℕ) → signed_digits (skip_spaces (b'-' ∷ decimal n)) ≡ (true, n)
unfolding signed_digits
signed_digits-minus n = ap (λ (k : ℕ). (true, k)) (digits_value-decimal n)

i32_low : (n : ℕ) → n < 2 ^ 31 → i32_of_u64 n ≡ pos n
i32_low n h = ground arith

i32_high : (n : ℕ) → 2 ^ 31 ≤ n → n < 2 ^ 32 → i32_of_u64 n ≡ negsuc (2 ^ 32 - n - 1)
i32_high n l h = ground arith

minus_back : (n m : ℕ) → n < 2 ^ 32 → 0 < n → m ≡ 2 ^ 32 - n → u32 (ulong_of (true, m)) ≡ n
minus_back n m h l e = ground arith

-- A number of 32 bits survives "%d" and strtoul.
pub strtoul-decimal_int : (n : ℕ) → n < 2 ^ 32 → u32 (strtoul (decimal_ℤ (i32_of_u64 n))) ≡ n
unfolding strtoul decimal_ℤ
strtoul-decimal_int n h = elim (Bool-cases (ltb n (2 ^ 31))) [
  | inl e ↦
      rw (i32_low n (ltb→lt n (2 ^ 31) e)) (ap u32 (strtoul-decimal n (omega arith)) ∙ omega arith)
  | inr e ↦ rw (i32_high n (ground arith) h) (
      ap (λ p. u32 (ulong_of p)) (signed_digits-minus (suc (2 ^ 32 - n - 1)))
      ∙ minus_back n (suc (2 ^ 32 - n - 1)) h (ground arith) (ground arith))
]

-- What "%d" prints has at most 11 bytes.
pub length-decimal_int : (n : ℕ) → n < 2 ^ 32 → length (decimal_ℤ (i32_of_u64 n)) ≤ 11
unfolding decimal_ℤ
length-decimal_int n h = elim (Bool-cases (ltb n (2 ^ 31))) [
  | inl e ↦ rw (i32_low n (ltb→lt n (2 ^ 31) e)) (omega (arith, length-decimal n 9 (omega arith)))
  | inr e ↦
      rw (i32_high n (ground arith) h)
        (omega (arith, length-decimal (suc (2 ^ 32 - n - 1)) 9 (ground arith)))
]

pub decimal_int-nonempty : (n : ℕ) → n < 2 ^ 32 → is_empty (decimal_ℤ (i32_of_u64 n)) ≡ false
unfolding decimal_ℤ
decimal_int-nonempty n h = elim (Bool-cases (ltb n (2 ^ 31))) [
  | inl e ↦ rw (i32_low n (ltb→lt n (2 ^ 31) e)) (decimal-nonempty n)
  | inr e ↦ rw (i32_high n (ground arith) h) refl
]
