-- ===== src/Decimal.antt =====
-- Numbers in decimal, as fmt prints an int with %d and `fmt.Sprint` prints one behind a text.
use tps.Base.{
  ℤ, pos, negsuc, ℕ, zero, suc, ◌+◌, ◌*◌, ◌/◌, ◌%◌, ◌-◌, ◌<◌, ◌^◌, ltb, Str, [], ◌∷◌, ◌≡◌, ap, ◌∙◌,
  arith, Bool-cases, inl, inr, if◌then◌else◌,
}

-- The digits of `n` in front of `rest`; the fuel bounds their number.
unfoldable pub digits : ℕ → ℕ → Str → Str
digits zero n rest = rest
digits (suc fuel) n rest =
    let more = digits fuel (n / 10) ((b'0' + n % 10) ∷ rest) in
    if ltb n 10 then (b'0' + n) ∷ rest else more

-- An int has at most 19 digits.
unfoldable pub decimal : ℕ → Str
unfolding digits
decimal n = digits 20 n []

-- `fmt.Sprint` of an int.
unfoldable pub sprint_int : ℤ → Str
unfolding decimal
sprint_int (pos n) = decimal n
sprint_int (negsuc n) = b'-' ∷ decimal (suc n)

-- The number that a text of digits stands for, behind the number `n`.
unfoldable pub value_from : ℕ → Str → ℕ
value_from n [] = n
value_from n (c ∷ s) = value_from (n * 10 + (c - b'0')) s

value_from-digits :
    (fuel n : ℕ) (rest : Str)
    → n < 10 ^ fuel
    → value_from 0 (digits fuel n rest) ≡ value_from n rest
unfolding digits value_from
value_from-digits zero n rest h = ap (λ k. value_from k rest) (omega arith)
value_from-digits (suc fuel) n rest h = elim (Bool-cases (ltb n 10)) [
  | inl e ↦ rw e (ap (λ k. value_from k rest) (omega arith))
  | inr e ↦
      let last : n / 10 * 10 + (b'0' + n % 10 - b'0') ≡ n = omega arith in
      rw e (
        value_from-digits fuel (n / 10) ((b'0' + n % 10) ∷ rest) (omega arith)
        ∙ ap (λ k. value_from k rest) last)
]

-- The decimal text of a number below 10 ^ 20, so of every int that is not negative, reads back as
-- the number.
pub value_from-decimal : (n : ℕ) → n < 10 ^ 20 → value_from 0 (decimal n) ≡ n
unfolding decimal value_from
value_from-decimal n h = value_from-digits 20 n [] h
