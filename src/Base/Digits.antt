-- ===== src/Base/Digits.antt =====
-- A number is read back from its digits.
use corebase.Base.{
  ℕ, zero, suc, ◌+◌, ◌-◌, ◌*◌, ◌/◌, ◌%◌, ◌<◌, ◌≤◌, ◌≡◌, ap, ◌∙◌, inl, inr, [], ◌∷◌, arith, ◌==◌,
  Bool-cases,
}
use corebase.Base.Texts.{Text, digits, digits_from}

-- The value of more digits after a number.
abbrev pub value_after : ℕ → Text → ℕ
value_after n [] = n
value_after n (c ∷ s) = value_after (n * 10 + (c - b'0')) s

-- Fuel over the number is enough.
value-digits_from :
    (fuel n : ℕ) (rest : Text)
    → n < fuel
    → value_after 0 (digits_from fuel n rest) ≡ value_after n rest
value-digits_from zero n rest h = absurd (omega arith)
value-digits_from (suc fuel) n rest h = elim (Bool-cases (n / 10 == 0)) [
  | inl small ↦
      let none_more : n / 10 ≡ 0 = ground arith in
      let same : 0 * 10 + ((b'0' + n % 10) - b'0') ≡ n = omega arith in
      rw small (ap (λ m. value_after m rest) same)
  | inr large ↦
      let some_more : 1 ≤ n / 10 = ground arith in
      let less : n / 10 < fuel = omega arith in
      let same : n / 10 * 10 + ((b'0' + n % 10) - b'0') ≡ n = omega arith in
      rw large (
        value-digits_from fuel (n / 10) ((b'0' + n % 10) ∷ rest) less
        ∙ ap (λ m. value_after m rest) same)
]

-- The digits of a number are read back as it, so no two have the same.
pub value-digits : (n : ℕ) → value_after 0 (digits n) ≡ n
unfolding digits
value-digits n = value-digits_from (n + 1) n [] (omega arith)
