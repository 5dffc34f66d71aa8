-- ===== src/Dict/Keyed.antt =====
-- Maps that hold each value under a key computed from the value, as all the stores do, and their
-- reload from the list of their values.
use zvm_extra.Base.{
  ◌≡◌, ◌≢◌, Bool, true, false, if◌then◌else◌, All, Pairwise, subst, refl, ◌∙◌, Option, none, some,
  List, [], ◌∷◌, arith, Bool-cases, inl, inr,
}
use zvm_extra.Bytes.{Bytes, bytes_eq}
use zvm_extra.Bytes.Laws.{bytes_eq_iff, bytes_eq_refl}
use zvm_extra.Dict.{Dict, get, put, remove, values, get-put, get-remove, remove-cons, values-cons}

module _ {ℓ} {V : Type ℓ} (key : V → Bytes) where
  -- Each value stands under its own key, and no key stands twice.
  abbrev pub IsKeyed : Dict V → Type ℓ
  IsKeyed [] = Unit
  IsKeyed ((k, v) ∷ d) = (k ≡ key v) × (get d k ≡ none) × IsKeyed d

  get-remove-none : (k j : Bytes) (d : Dict V) → get d j ≡ none → get (remove k d) j ≡ none
  get-remove-none k j d h = ground (arith, get-remove k j d)

  pub remove-IsKeyed : (k : Bytes) (d : Dict V) → IsKeyed d → IsKeyed (remove k d)
  remove-IsKeyed k [] h = unfold remove in tt
  remove-IsKeyed k ((j, v) ∷ d) (own, fresh, rest) = elim (Bool-cases (bytes_eq j k)) [
    | inl e ↦ rw (remove-cons k j v d, e) (remove-IsKeyed k d rest)
    | inr e ↦
        rw (remove-cons k j v d, e) (own, get-remove-none k j d fresh, remove-IsKeyed k d rest)
  ]

  pub put-IsKeyed : (v : V) (d : Dict V) → IsKeyed d → IsKeyed (put (key v) v d)
  unfolding put
  put-IsKeyed v d h = (
    refl,
    ground (arith, get-remove (key v) (key v) d, bytes_eq_refl (key v)),
    remove-IsKeyed (key v) d h,
  )

  values-get-none :
      (k : Bytes) (d : Dict V) → IsKeyed d → get d k ≡ none → All (λ v. key v ≢ k) (values d)
  unfolding values get
  values-get-none k [] h g = tt
  values-get-none k ((j, v) ∷ d) (own, fresh, rest) g =
      ((λ same. ground (arith, bytes_eq_iff j k)), values-get-none k d rest (ground arith))

  -- The keys of two values differ.
  pub values-apart : (d : Dict V) → IsKeyed d → Pairwise (λ v u. key v ≢ key u) (values d)
  unfolding values
  values-apart [] h = tt
  values-apart ((j, v) ∷ d) (own, fresh, rest) =
      (values-get-none (key v) d rest (subst (λ k. get d k ≡ none) own fresh), values-apart d rest)

  -- No value of the removed key is left.
  pub values-remove :
      (k : Bytes) (d : Dict V) → IsKeyed d → All (λ v. key v ≢ k) (values (remove k d))
  values-remove k [] h = unfold remove values in tt
  values-remove k ((j, v) ∷ d) (own, fresh, rest) = elim (Bool-cases (bytes_eq j k)) [
    | inl e ↦ rw (remove-cons k j v d, e) (values-remove k d rest)
    | inr e ↦
        rw (remove-cons k j v d, e, values-cons)
          ((λ same. ground (arith, bytes_eq_iff j k)), values-remove k d rest)
  ]

  -- for _, e := range arr { s.data[e.key()] = e }
  unfoldable pub put_all : Dict V → List V → Dict V
  put_all d [] = d
  put_all d (v ∷ vs) = put_all (put (key v) v d) vs

  pub put_all-IsKeyed : (d : Dict V) (vs : List V) → IsKeyed d → IsKeyed (put_all d vs)
  unfolding put_all
  put_all-IsKeyed d [] h = h
  put_all-IsKeyed d (v ∷ vs) h = put_all-IsKeyed (put (key v) v d) vs (put-IsKeyed v d h)

  abbrev or_else : Option V → Option V → Option V
  or_else none o = o
  or_else (some v) o = some v

  or_else_first :
      (last : Option V) (here : Bool) (v : V) (before : Option V) {o : Option V}
      → o ≡ (if here then some v else before)
      → or_else last o ≡ or_else (or_else last (if here then some v else none)) before
  or_else_first (some u) here v before e = refl
  or_else_first none true v before e = e
  or_else_first none false v before e = e

  -- The last value of the list that has the key.
  abbrev pub last_with : Bytes → List V → Option V
  last_with k [] = none
  last_with k (v ∷ vs) = or_else (last_with k vs) (if bytes_eq (key v) k then some v else none)

  -- A later value takes the place of an earlier one of the same key.
  get-put_all_last :
      (d : Dict V) (vs : List V) (k : Bytes)
      → get (put_all d vs) k ≡ or_else (last_with k vs) (get d k)
  unfolding put_all
  get-put_all_last d [] k = refl
  get-put_all_last d (v ∷ vs) k =
      get-put_all_last (put (key v) v d) vs k
      ∙ or_else_first (last_with k vs) (bytes_eq (key v) k) v (get d k) (get-put (key v) k v d)

  or_else-none : (o : Option V) → or_else o none ≡ o
  or_else-none none = refl
  or_else-none (some v) = refl

  pub get-put_all_fresh : (vs : List V) (k : Bytes) → get (put_all [] vs) k ≡ last_with k vs
  unfolding get
  get-put_all_fresh vs k = get-put_all_last [] vs k ∙ or_else-none (last_with k vs)

  get-put_all :
      (c d : Dict V) (k : Bytes)
      → IsKeyed d
      → get (put_all c (values d)) k ≡ or_else (get d k) (get c k)
  unfolding put_all values get
  get-put_all c [] k h = refl
  get-put_all c ((j, v) ∷ d) k (own, fresh, rest) =
      get-put_all (put (key v) v c) d k rest
      ∙ ground (arith, get-put (key v) k v c, bytes_eq_iff j k, bytes_eq_iff (key v) k)

  -- A map written out as the list of its values and read back answers every lookup as before.
  pub get-reload : (d : Dict V) (k : Bytes) → IsKeyed d → get (put_all [] (values d)) k ≡ get d k
  unfolding get
  get-reload d k h = get-put_all [] d k h ∙ ground arith
