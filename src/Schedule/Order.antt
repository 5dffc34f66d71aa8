-- ===== src/Schedule/Order.antt =====
-- The order of Go strings, and sort.Strings.
use zvm_extra.Base.{
  ◌≡◌, refl, inl, inr, Bool, true, false, List, [], ◌∷◌, ◌++◌, ltb, if◌then◌else◌, arith, All,
  All-append_right, All-map, Bool-cases, length, suc,
}
use zvm_extra.Bytes.{Bytes}
use mathlib.Core.List.{Perm}
use mathlib.Core.List.Perm

unfoldable pub bytes_leb : Bytes → Bytes → Bool
bytes_leb [] t = true
bytes_leb (c ∷ s) [] = false
bytes_leb (c ∷ s) (d ∷ t) =
    let rest = bytes_leb s t in if ltb c d then true else if ltb d c then false else rest

unfoldable pub insert : Bytes → List Bytes → List Bytes
insert a [] = a ∷ []
insert a (b ∷ bs) = let rest = insert a bs in if bytes_leb a b then a ∷ b ∷ bs else b ∷ rest

unfoldable pub sort : List Bytes → List Bytes
sort [] = []
sort (a ∷ xs) = insert a (sort xs)

bytes_leb_total : (s t : Bytes) → bytes_leb s t ≡ false → bytes_leb t s ≡ true
unfolding bytes_leb
bytes_leb_total [] t h = absurd (ground arith)
bytes_leb_total (c ∷ s) [] h = refl
bytes_leb_total (c ∷ s) (d ∷ t) h = ground (arith, bytes_leb_total s t)

pub bytes_leb_trans :
    (s t u : Bytes) → bytes_leb s t ≡ true → bytes_leb t u ≡ true → bytes_leb s u ≡ true
unfolding bytes_leb
bytes_leb_trans [] t u h k = refl
bytes_leb_trans (c ∷ s) [] u h k = absurd (ground arith)
bytes_leb_trans (c ∷ s) (d ∷ t) [] h k = absurd (ground arith)
bytes_leb_trans (c ∷ s) (d ∷ t) (e ∷ u) h k = ground (arith, bytes_leb_trans s t u)

-- Each name is at most each later one.
abbrev pub IsSorted : List Bytes → Type 0
IsSorted [] = Unit
IsSorted (a ∷ xs) = All (λ b. bytes_leb a b ≡ true) xs × IsSorted xs

module _ (P : Bytes → Type 0) where
  insert-All : (a : Bytes) (xs : List Bytes) → P a → All P xs → All P (insert a xs)
  unfolding insert
  insert-All a [] pa h = (pa, tt)
  insert-All a (b ∷ xs) pa (pb, h) = elim (Bool-cases (bytes_leb a b)) [
    | inl e ↦ rw e (pa, (pb, h))
    | inr e ↦ rw e (pb, insert-All a xs pa h)
  ]

  pub sort-All : (xs : List Bytes) → All P xs → All P (sort xs)
  unfolding sort
  sort-All [] h = tt
  sort-All (a ∷ xs) (pa, h) = insert-All a (sort xs) pa (sort-All xs h)

insert-IsSorted : (a : Bytes) (xs : List Bytes) → IsSorted xs → IsSorted (insert a xs)
unfolding insert
insert-IsSorted a [] h = (tt, tt)
insert-IsSorted a (b ∷ xs) (least, h) = elim (Bool-cases (bytes_leb a b)) [
  | inl e ↦ rw e ((e, All-map (λ c le. bytes_leb_trans a b c e le) xs least), (least, h))
  | inr e ↦ rw e (
    insert-All (λ c. bytes_leb b c ≡ true) a xs (bytes_leb_total a b e) least,
    insert-IsSorted a xs h,
  )
]

pub sort-IsSorted : (xs : List Bytes) → IsSorted (sort xs)
unfolding sort
sort-IsSorted [] = tt
sort-IsSorted (a ∷ xs) = insert-IsSorted a (sort xs) (sort-IsSorted xs)

-- In a sorted list every name of the front is at most every name of the back.
pub sorted_split :
    (xs ys : List Bytes) → IsSorted (xs ++ ys) → All (λ a. All (λ b. bytes_leb a b ≡ true) ys) xs
sorted_split [] ys h = tt
sorted_split (a ∷ xs) ys (least, h) = (All-append_right _ xs ys least, sorted_split xs ys h)

insert-Perm : (a : Bytes) (xs : List Bytes) → Perm (insert a xs) (a ∷ xs)
unfolding insert
insert-Perm a [] = Perm.refl (a ∷ [])
insert-Perm a (b ∷ xs) = elim (Bool-cases (bytes_leb a b)) [
  | inl e ↦ rw e (Perm.refl (a ∷ b ∷ xs))
  | inr e ↦ rw e (Perm.trans (Perm.cons b (insert-Perm a xs)) (Perm.swap a b xs))
]

pub sort-Perm : (xs : List Bytes) → Perm (sort xs) xs
unfolding sort
sort-Perm [] = Perm.refl []
sort-Perm (a ∷ xs) = Perm.trans (insert-Perm a (sort xs)) (Perm.cons a (sort-Perm xs))

length-insert : (a : Bytes) (xs : List Bytes) → length (insert a xs) ≡ suc (length xs)
unfolding insert
length-insert a [] = refl
length-insert a (b ∷ xs) = ground (arith, length-insert a xs)

pub length-sort : (xs : List Bytes) → length (sort xs) ≡ length xs
unfolding sort
length-sort [] = refl
length-sort (a ∷ xs) = omega (arith, length-insert a (sort xs), length-sort xs)
