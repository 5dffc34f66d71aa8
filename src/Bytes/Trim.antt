-- ===== src/Bytes/Trim.antt =====
-- Laws of `strings.TrimSpace`: a text that it leaves alone has no white space at either end.
use zvm_extra.Base.{
  ℕ, suc, ◌≤◌, ◌<◌, ◌≡◌, refl, ap, sym, ◌∙◌, ◌⊎◌, inl, inr, true, false, [], ◌∷◌, ◌++◌, All, arith,
  length, Bool-cases,
}
use zvm_extra.Bytes.{Bytes, is_space, trim_left, trim_right, trim_space}

-- The list is empty or has a first byte.
bytes_cases : (s : Bytes) → (s ≡ []) ⊎ ((x : ℕ) × (r : Bytes) × (s ≡ x ∷ r))
bytes_cases [] = inl refl
bytes_cases (x ∷ r) = inr (x, r, refl)

length-trim_left : (s : Bytes) → length (trim_left s) ≤ length s
unfolding trim_left
length-trim_left [] = omega arith
length-trim_left (x ∷ s) = ground (arith, length-trim_left s)

-- What `trim_right` does to a text, by what it does to its tail.
trim_right_nil :
    (x : ℕ) (s : Bytes) → trim_right s ≡ [] → is_space x ≡ true → trim_right (x ∷ s) ≡ []
unfolding trim_right
trim_right_nil x s e b = ground (arith, e, b)

trim_right_last :
    (x : ℕ) (s : Bytes) → trim_right s ≡ [] → is_space x ≡ false → trim_right (x ∷ s) ≡ x ∷ []
unfolding trim_right
trim_right_last x s e b = ground (arith, e, b)

trim_right_more :
    (x : ℕ) (s : Bytes) {y : ℕ} {r : Bytes} → trim_right s ≡ y ∷ r → trim_right (x ∷ s) ≡ x ∷ y ∷ r
unfolding trim_right
trim_right_more x s e = ground (arith, e)

-- `trim_right` leaves a text alone or makes it shorter.
right_shrinks : (s : Bytes) → (trim_right s ≡ s) ⊎ (length (trim_right s) < length s)
right_shrinks [] = unfold trim_right in inl refl
right_shrinks (x ∷ s) = elim (bytes_cases (trim_right s)) [
  | inl e ↦ elim (Bool-cases (is_space x)) [
    | inl b ↦ inr (rw (trim_right_nil x s e b) (omega arith))
    | inr b ↦ elim (right_shrinks s) [
      | inl same ↦ inl (trim_right_last x s e b ∙ ap (λ r. x ∷ r) (sym e ∙ same))
      | inr less ↦ inr (rw (trim_right_last x s e b) (omega (arith, less, ap length e)))
    ]
  ]
  | inr (y, r, e) ↦ elim (right_shrinks s) [
    | inl same ↦ inl (trim_right_more x s e ∙ ap (λ t. x ∷ t) (sym e ∙ same))
    | inr less ↦ inr (rw (trim_right_more x s e) (omega (arith, less, ap length e)))
  ]
]

-- What `trim_space` leaves alone, `trim_right` leaves alone.
pub trim_right_same : (s : Bytes) → trim_space s ≡ s → trim_right s ≡ s
trim_right_same s h = elim (right_shrinks s) [
  | inl same ↦ same
  | inr less ↦
      let e : length (trim_left (trim_right s)) ≡ length s = ap length (unfold trim_space in h) in
      absurd (omega (arith, length-trim_left (trim_right s), e, less))
]

left_first : (x : ℕ) (s : Bytes) → is_space x ≡ true → trim_left (x ∷ s) ≡ trim_left s
unfolding trim_left
left_first x s b = rw b

-- The first byte of a trimmed text is no white space.
pub trimmed_first : (x : ℕ) (s : Bytes) → trim_space (x ∷ s) ≡ x ∷ s → is_space x ≡ false
trimmed_first x s h = elim (Bool-cases (is_space x)) [
  | inr b ↦ b
  | inl b ↦
      let right : trim_right (x ∷ s) ≡ x ∷ s = trim_right_same (x ∷ s) h in
      let e : trim_left (x ∷ s) ≡ x ∷ s = ap trim_left (sym right) ∙ (unfold trim_space in h) in
      let f : length (trim_left s) ≡ suc (length s) = ap length (sym (left_first x s b) ∙ e) in
      absurd (omega (arith, length-trim_left s, f))
]

-- The last byte of a text that `trim_right` leaves alone is no white space.
pub right_last : (x : ℕ) → trim_right (x ∷ []) ≡ x ∷ [] → is_space x ≡ false
unfolding trim_right
right_last x h = ground arith

tail_eq : {x z : ℕ} {a b : Bytes} → x ∷ a ≡ z ∷ b → a ≡ b
tail_eq e = cc

pub right_tail :
    (x y : ℕ) (s : Bytes) → trim_right (x ∷ y ∷ s) ≡ x ∷ y ∷ s → trim_right (y ∷ s) ≡ y ∷ s
right_tail x y s h = elim (bytes_cases (trim_right (y ∷ s))) [
  | inl e ↦ elim (Bool-cases (is_space x)) [
    | inl b ↦ absurd (cc (h, trim_right_nil x (y ∷ s) e b))
    | inr b ↦ absurd (cc (h, trim_right_last x (y ∷ s) e b))
  ]
  | inr (z, r, e) ↦ e ∙ tail_eq (sym (trim_right_more x (y ∷ s) e) ∙ h)
]

trim_right_cons :
    (x : ℕ) (s : Bytes) → is_space x ≡ false → (r : Bytes) × (trim_right (x ∷ s) ≡ x ∷ r)
trim_right_cons x s b = elim (bytes_cases (trim_right s)) [
  | inl e ↦ ([], trim_right_last x s e b)
  | inr (y, r, e) ↦ (y ∷ r, trim_right_more x s e)
]

left_solid : (x : ℕ) (s : Bytes) → is_space x ≡ false → trim_left (x ∷ s) ≡ x ∷ s
unfolding trim_left
left_solid x s b = rw b

-- White space before a text.
abbrev pub Spaces : Bytes → Type 0
Spaces b = All (λ c. is_space c ≡ true) b

right-Spaces :
    (b : Bytes) (x : ℕ) (s : Bytes)
    → Spaces b
    → is_space x ≡ false
    → (r : Bytes) × (trim_left (trim_right (b ++ x ∷ s)) ≡ x ∷ r)
      × ((y : ℕ) × (q : Bytes) × (trim_right (b ++ x ∷ s) ≡ y ∷ q))
right-Spaces [] x s h solid =
    let (r, e) = trim_right_cons x s solid in (r, rw e (left_solid x r solid), (x, r, e))
right-Spaces (c ∷ b) x s (hc, h) solid =
    let (r, e, (y, q, f)) = right-Spaces b x s h solid in
    let g = trim_right_more c (b ++ x ∷ s) f in
    (r, rw g (left_first c (y ∷ q) hc ∙ ap trim_left (sym f) ∙ e), (c, y ∷ q, g))

-- Behind white space, a text begins with its first byte that is none.
pub trim_space-Spaces :
    (b : Bytes) (x : ℕ) (s : Bytes)
    → Spaces b
    → is_space x ≡ false
    → (r : Bytes) × (trim_space (b ++ x ∷ s) ≡ x ∷ r)
unfolding trim_space
trim_space-Spaces b x s h solid = let (r, e, _) = right-Spaces b x s h solid in (r, e)

right_solid : (s : Bytes) → All (λ c. is_space c ≡ false) s → trim_right s ≡ s
right_solid [] h = unfold trim_right in refl
right_solid (x ∷ []) (hx, h) = trim_right_last x [] (right_solid [] tt) hx
right_solid (x ∷ y ∷ s) (hx, h) = trim_right_more x (y ∷ s) (right_solid (y ∷ s) h)

-- A text without white space is left alone.
pub trim_space_same : (s : Bytes) → All (λ c. is_space c ≡ false) s → trim_space s ≡ s
unfolding trim_space
trim_space_same [] h = unfold trim_left trim_right in refl
trim_space_same (x ∷ s) (hx, h) = rw (right_solid (x ∷ s) (hx, h)) (left_solid x s hx)
