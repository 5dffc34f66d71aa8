-- ===== src/Bytes/Contains.antt =====
-- Laws of `strings.Contains`.
use zvm_extra.Base.{ℕ, ◌≡◌, refl, ℕ_discrete, false, [], ◌∷◌, ◌++◌, arith}
use zvm_extra.Bytes.{Bytes, has_prefix, index, contains}
use zvm_extra.Bytes.Cuts.{Lacks}

-- What the text of a tail says of the whole.
pub contains_tail : (x : ℕ) (s p : Bytes) → contains (x ∷ s) p ≡ false → contains s p ≡ false
unfolding contains index
contains_tail x s p h = ground arith

pub contains_head :
    (x : ℕ) (s p : Bytes) → contains (x ∷ s) p ≡ false → has_prefix (x ∷ s) p ≡ false
unfolding contains index
contains_head x s p h = ground arith

pub contains_suffix : (a b p : Bytes) → contains (a ++ b) p ≡ false → contains b p ≡ false
contains_suffix [] b p h = h
contains_suffix (x ∷ a) b p h = contains_suffix a b p (contains_tail x (a ++ b) p h)

has_prefix_longer : (a b p : Bytes) → has_prefix (a ++ b) p ≡ false → has_prefix a p ≡ false
unfolding has_prefix
has_prefix_longer a b [] h = h
has_prefix_longer [] b (y ∷ p) h = refl
has_prefix_longer (x ∷ a) b (y ∷ p) h = elim (ℕ_discrete x y) [
  | yes e ↦ ground (arith, has_prefix_longer a b p)
  | no ne ↦ ground arith
]

pub contains_cons :
    (x : ℕ) (s p : Bytes)
    → has_prefix (x ∷ s) p ≡ false
    → contains s p ≡ false
    → contains (x ∷ s) p ≡ false
unfolding contains index
contains_cons x s p h c = ground (arith, h)

pub contains_nil : (p : Bytes) → has_prefix [] p ≡ false → contains [] p ≡ false
unfolding contains index
contains_nil p h = ground (arith, h)

contains_empty_head : (b p : Bytes) → contains b p ≡ false → has_prefix b p ≡ false
unfolding contains index
contains_empty_head [] p h = ground arith
contains_empty_head (x ∷ b) p h = ground arith

pub contains_prefix : (a b p : Bytes) → contains (a ++ b) p ≡ false → contains a p ≡ false
contains_prefix [] b p h = contains_nil p (has_prefix_longer [] b p (contains_empty_head b p h))
contains_prefix (x ∷ a) b p h =
    contains_cons x a p (has_prefix_longer (x ∷ a) b p (contains_head x (a ++ b) p h))
      (contains_prefix a b p (contains_tail x (a ++ b) p h))

-- A text that is not in front of `a` is not in front of what a byte outside it goes on.
pub has_prefix_broken :
    (a b p : Bytes) (c : ℕ) → Lacks c p → has_prefix a p ≡ false → has_prefix (a ++ c ∷ b) p ≡ false
unfolding has_prefix
has_prefix_broken a b [] c l h = h
has_prefix_broken [] b (y ∷ p) c (ly, l) h = ground (arith, ly)
has_prefix_broken (x ∷ a) b (y ∷ p) c (ly, l) h = elim (ℕ_discrete x y) [
  | yes e ↦ ground (arith, has_prefix_broken a b p c l)
  | no ne ↦ ground arith
]
