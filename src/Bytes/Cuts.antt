-- ===== src/Bytes/Cuts.antt =====
-- Laws of `strings.Cut` at one byte and of the tests on all bytes.
use zvm_extra.Base.{
  ℕ, ◌≡◌, ◌≢◌, refl, sym, ◌∙◌, subst, Bool, true, Option, some, [], ◌∷◌, ◌++◌, arith, All,
  Option-cases, ap, ℕ_discrete, inl, inr,
}
use zvm_extra.Bytes.{Bytes, cut, all_bytes}

abbrev pub Lacks : ℕ → Bytes → Type 0
Lacks c = All (λ b. b ≢ c)

pub cut-append : (a b : Bytes) (c : ℕ) → Lacks c a → cut (a ++ c ∷ b) c ≡ some (a, b)
unfolding cut
cut-append [] b c h = ground arith
cut-append (x ∷ a) b c (hx, h) = ground (arith, cut-append a b c h)

cut-cons :
    (x : ℕ) (s : Bytes) (c : ℕ) {a b : Bytes}
    → x ≢ c
    → cut (x ∷ s) c ≡ some (a, b)
    → (a' : Bytes) × (a ≡ x ∷ a') × (cut s c ≡ some (a', b))
unfolding cut
cut-cons x s c {a} {b} ne h = elim (Option-cases (cut s c)) [
  | inl e ↦ absurd (ground (arith, e))
  | inr ((a', b'), e) ↦ (a', ground (arith, e), ground (arith, e))
]

cut_here :
    (x : ℕ) (s : Bytes) (c : ℕ) {a b : Bytes}
    → x ≡ c
    → cut (x ∷ s) c ≡ some (a, b)
    → (a ≡ []) × (b ≡ s)
unfolding cut
cut_here x s c e h = ground arith

tail_eq : {x y : ℕ} {a b : Bytes} → x ∷ a ≡ y ∷ b → a ≡ b
tail_eq e = cc

-- A cut is at the first separator.
pub cut-some :
    (s : Bytes) (c : ℕ) {a b : Bytes} → cut s c ≡ some (a, b) → (s ≡ a ++ c ∷ b) × Lacks c a
cut-some [] c h = unfold cut in absurd (ground (arith, h))
cut-some (x ∷ s) c {a} {b} h = elim (ℕ_discrete x c) [
  | yes e ↦ let (ea, eb) = cut_here x s c e h in rw (ea, eb) (ap (λ y. y ∷ s) e, tt)
  | no ne ↦
      let (a', ea, rec) = cut-cons x s c ne h in
      let (es, lacks) = cut-some s c rec in rw ea (ap (λ t. x ∷ t) es, (ne, lacks))
]

pub all_bytes-All : (f : ℕ → Bool) (s : Bytes) → all_bytes f s ≡ true → All (λ c. f c ≡ true) s
unfolding all_bytes
all_bytes-All f [] h = tt
all_bytes-All f (c ∷ s) h = (ground arith, all_bytes-All f s (ground arith))

pub All-all_bytes : (f : ℕ → Bool) (s : Bytes) → All (λ c. f c ≡ true) s → all_bytes f s ≡ true
unfolding all_bytes
All-all_bytes f [] h = refl
All-all_bytes f (c ∷ s) (hc, h) = rw (hc, All-all_bytes f s h)

Lacks-append_cons : (a b : Bytes) (c : ℕ) → ¬ Lacks c (a ++ c ∷ b)
Lacks-append_cons [] b c (h, _) = h refl
Lacks-append_cons (x ∷ a) b c (_, h) = Lacks-append_cons a b c h

some_pair :
    {a a' b b' : Bytes}
    → ◌≡◌ {A = Option (Bytes × Bytes)} (some (a, b)) (some (a', b'))
    → (a ≡ a') × (b ≡ b')
some_pair e = ground arith

-- A text is determined by what stands before and after its first separator.
pub first_sep_injective :
    (a a' b b' : Bytes) (c : ℕ)
    → Lacks c a
    → Lacks c a'
    → a ++ c ∷ b ≡ a' ++ c ∷ b'
    → (a ≡ a') × (b ≡ b')
first_sep_injective a a' b b' c h h' e =
    some_pair (sym (cut-append a b c h) ∙ ap (λ s. cut s c) e ∙ cut-append a' b' c h')

-- The same of the last separator.
pub last_sep_injective :
    (a a' b b' : Bytes) (c : ℕ)
    → Lacks c b
    → Lacks c b'
    → a ++ c ∷ b ≡ a' ++ c ∷ b'
    → (a ≡ a') × (b ≡ b')
last_sep_injective [] [] b b' c h h' e = (refl, cc)
last_sep_injective [] (x ∷ a') b b' c h h' e =
    absurd (Lacks-append_cons a' b' c (subst (Lacks c) (tail_eq e) h))
last_sep_injective (x ∷ a) [] b b' c h h' e =
    absurd (Lacks-append_cons a b c (subst (Lacks c) (sym (tail_eq e)) h'))
last_sep_injective (x ∷ a) (y ∷ a') b b' c h h' e =
    let (ea, eb) = last_sep_injective a a' b b' c h h' (tail_eq e) in (cc (e, ea), eb)
