-- ===== src/Virsh/Listen/Digits.antt =====
-- Laws of `strconv.Itoa`: its digits read back as the number.
use zvm_extra.Base.{
  ℕ, zero, suc, ◌+◌, ◌/◌, ◌%◌, ◌<◌, ◌≤◌, ◌≡◌, refl, ap, sym, subst, ◌∙◌, [], ◌∷◌, arith, All,
  Bool-cases, inl, inr, ltb,
}
use zvm_extra.Bytes.{Bytes}
use zvm_extra.Virsh.Listen.{itoa, digits, value}

-- The numbers of at most `fuel` digits.
abbrev pub Fits : ℕ → ℕ → Type 0
Fits zero n = n ≡ 0
Fits (suc fuel) n = Fits fuel (n / 10)

digits_none : (n : ℕ) (acc : Bytes) → digits 0 n acc ≡ acc
unfolding digits
digits_none n acc = refl

digits_last : (fuel n : ℕ) (acc : Bytes) → n < 10 → digits (suc fuel) n acc ≡ (b'0' + n) ∷ acc
unfolding digits
digits_last fuel n acc h = ground arith

digits_more :
    (fuel n : ℕ) (acc : Bytes)
    → 10 ≤ n
    → digits (suc fuel) n acc ≡ digits fuel (n / 10) ((b'0' + n % 10) ∷ acc)
unfolding digits
digits_more fuel n acc h = ground arith

value_last : (n : ℕ) (acc : Bytes) → n < 10 → value 0 ((b'0' + n) ∷ acc) ≡ value n acc
unfolding value
value_last n acc h = ap (λ m. value m acc) (omega arith)

value_step : (n : ℕ) (acc : Bytes) → value (n / 10) ((b'0' + n % 10) ∷ acc) ≡ value n acc
unfolding value
value_step n acc = ap (λ m. value m acc) (omega arith)

value_end : (n : ℕ) → value n [] ≡ n
unfolding value
value_end n = refl

value-digits : (fuel n : ℕ) (acc : Bytes) → Fits fuel n → value 0 (digits fuel n acc) ≡ value n acc
value-digits zero n acc h = rw (digits_none n acc, h) refl
value-digits (suc fuel) n acc h = elim (Bool-cases (ltb n 10)) [
  | inl small ↦
      ap (value 0) (digits_last fuel n acc (ground arith)) ∙ value_last n acc (ground arith)
  | inr large ↦
      ap (value 0) (digits_more fuel n acc (ground arith))
      ∙ value-digits fuel (n / 10) ((b'0' + n % 10) ∷ acc) h
      ∙ value_step n acc
]

-- A byte of a number.
abbrev pub Digit : ℕ → Type 0
Digit c = (b'0' ≤ c) × (c ≤ b'9')

digits-All : (fuel n : ℕ) (acc : Bytes) → All Digit acc → All Digit (digits fuel n acc)
digits-All zero n acc h = subst (All Digit) (sym (digits_none n acc)) h
digits-All (suc fuel) n acc h = elim (Bool-cases (ltb n 10)) [
  | inl small ↦ rw (digits_last fuel n acc (ground arith)) ((ground arith, ground arith), h)
  | inr large ↦
      rw (digits_more fuel n acc (ground arith))
        (digits-All fuel (n / 10) ((b'0' + n % 10) ∷ acc) ((omega arith, omega arith), h))
]

pub itoa-All : (n : ℕ) → All Digit (itoa n)
unfolding itoa
itoa-All n = digits-All 20 n [] tt

pub itoa_injective : (n m : ℕ) → Fits 20 n → Fits 20 m → itoa n ≡ itoa m → n ≡ m
unfolding itoa
itoa_injective n m hn hm e =
    sym (value-digits 20 n [] hn ∙ value_end n)
    ∙ ap (value 0) e
    ∙ value-digits 20 m [] hm
    ∙ value_end m
