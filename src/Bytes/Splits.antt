-- ===== src/Bytes/Splits.antt =====
-- Laws of `strings.Split` and `strings.Fields`.
use zvm_extra.Base.{
  ℕ, ◌≡◌, ◌≢◌, refl, ◌⊎◌, Bool, true, false, List, [], ◌==◌, ◌∷◌, ◌++◌, arith, All, Bool-cases, inl,
  inr,
}
use zvm_extra.Bytes.{Bytes, split, is_space, word, fields_from, fields}
use zvm_extra.Bytes.Cuts.{Lacks}

split_more :
    (c : ℕ) (s : Bytes) (sep : ℕ) {p : Bytes} {ps : List Bytes}
    → split s sep ≡ p ∷ ps
    → (q : Bytes) × (qs : List Bytes) × (split (c ∷ s) sep ≡ q ∷ qs)
unfolding split
split_more c s sep {p} {ps} e = elim (Bool-cases (c == sep)) [
  | inl h ↦ ([], p ∷ ps, ground (arith, e, h))
  | inr h ↦ (c ∷ p, ps, ground (arith, e, h))
]

split_nil : (sep : ℕ) → split [] sep ≡ [] ∷ []
unfolding split
split_nil sep = refl

split_here :
    (b : Bytes) (sep : ℕ) {p : Bytes} {ps : List Bytes}
    → split b sep ≡ p ∷ ps
    → split (sep ∷ b) sep ≡ [] ∷ split b sep
unfolding split
split_here b sep e = ground (arith, e)

split_other :
    (c : ℕ) (s : Bytes) (sep : ℕ) {p : Bytes} {ps : List Bytes}
    → c ≢ sep
    → split s sep ≡ p ∷ ps
    → split (c ∷ s) sep ≡ (c ∷ p) ∷ ps
unfolding split
split_other c s sep ne e = ground (arith, e)

split_cases : (s : Bytes) (sep : ℕ) → (p : Bytes) × (ps : List Bytes) × (split s sep ≡ p ∷ ps)
split_cases [] sep = ([], [], split_nil sep)
split_cases (c ∷ s) sep = let (p, ps, e) = split_cases s sep in split_more c s sep e

-- The piece up to the first separator.
pub split-append :
    (a b : Bytes) (sep : ℕ) → Lacks sep a → split (a ++ sep ∷ b) sep ≡ a ∷ split b sep
split-append [] b sep h = let (p, ps, e) = split_cases b sep in split_here b sep e
split-append (c ∷ a) b sep (hc, h) = split_other c (a ++ sep ∷ b) sep hc (split-append a b sep h)

-- Bytes without white space.
abbrev pub Solid : Bytes → Type 0
Solid s = All (λ c. is_space c ≡ false) s

word_end : (c : ℕ) (s : Bytes) → is_space c ≡ true → word (c ∷ s) ≡ ([], c ∷ s)
unfolding word
word_end c s e = ground (arith, e)

word_more : (c : ℕ) (s : Bytes) → is_space c ≡ false → word (c ∷ s) ≡ (c ∷ (word s).0, (word s).1)
unfolding word
word_more c s e = ground (arith, e)

word-Solid : (s : Bytes) → Solid (word s).0
word-Solid [] = unfold word in tt
word-Solid (c ∷ s) = elim (Bool-cases (is_space c)) [
  | inl e ↦ rw (word_end c s e) tt
  | inr e ↦ rw (word_more c s e) (e, word-Solid s)
]

-- What the byte in front does to the fields of the rest.
fields_step :
    (c : ℕ) (s : Bytes) (inside : Bool)
    → ((is_space c ≡ false) × (fields_from (c ∷ s) inside ≡ (c ∷ (word s).0) ∷ fields_from s true))
      ⊎ ((b : Bool) × (fields_from (c ∷ s) inside ≡ fields_from s b))
unfolding fields_from
fields_step c s inside = elim (Bool-cases (is_space c)) [
  | inl e ↦ inr (false, ground (arith, e))
  | inr e ↦ elim (Bool-cases inside) [
    | inl i ↦ inr (true, ground (arith, e, i))
    | inr i ↦ inl (e, ground (arith, e, i))
  ]
]

fields_from-Solid : (s : Bytes) (inside : Bool) → All Solid (fields_from s inside)
fields_from-Solid [] inside = unfold fields_from in tt
fields_from-Solid (c ∷ s) inside = elim (fields_step c s inside) [
  | inl (e, f) ↦ rw f ((e, word-Solid s), fields_from-Solid s true)
  | inr (b, f) ↦ rw f (fields_from-Solid s b)
]

pub fields-Solid : (s : Bytes) → All Solid (fields s)
unfolding fields
fields-Solid s = fields_from-Solid s false
