-- ===== src/Dict.antt =====
-- A Go map with text keys: an association list. Its order stands for the order in which `range`
-- visits the entries, which Go leaves open; no theorem depends on it.
pub mod Keyed
use zvm_extra.Base.{
  ◌≡◌, refl, ◌↔◌, Option, none, some, List, [], ◌∷◌, arith, true, false, if◌then◌else◌,
}
use zvm_extra.Bytes.{Bytes, bytes_eq}
use zvm_extra.Bytes.Laws.{bytes_eq_iff}

abbrev pub Dict {ℓ} : Type ℓ → Type ℓ
Dict V = List (Bytes × V)

module _ {ℓ} {V : Type ℓ} where
  -- v, ok := m[k]
  unfoldable pub get : Dict V → Bytes → Option V
  get [] k = none
  get ((j, v) ∷ d) k = if bytes_eq j k then some v else get d k

  -- delete(m, k)
  unfoldable pub remove : Bytes → Dict V → Dict V
  remove k [] = []
  remove k ((j, v) ∷ d) = let rest = remove k d in if bytes_eq j k then rest else (j, v) ∷ rest

  -- m[k] = v
  unfoldable pub put : Bytes → V → Dict V → Dict V
  put k v d = (k, v) ∷ remove k d

  -- for _, v := range m
  unfoldable pub values : Dict V → List V
  values [] = []
  values ((k, v) ∷ d) = v ∷ values d

  pub values-cons : (k : Bytes) (v : V) (d : Dict V) → values ((k, v) ∷ d) ≡ v ∷ values d
  unfolding values
  values-cons k v d = refl

  pub remove-cons :
      (k j : Bytes) (v : V) (d : Dict V)
      → remove k ((j, v) ∷ d) ≡ (if bytes_eq j k then remove k d else (j, v) ∷ remove k d)
  unfolding remove
  remove-cons k j v d = refl

  pub get-remove :
      (k j : Bytes) (d : Dict V) → get (remove k d) j ≡ (if bytes_eq k j then none else get d j)
  unfolding get remove
  get-remove k j [] = ground arith
  get-remove k j ((i, v) ∷ d) =
      ground (arith, get-remove k j d, bytes_eq_iff i k, bytes_eq_iff i j, bytes_eq_iff k j)

  pub get-put :
      (k j : Bytes) (v : V) (d : Dict V)
      → get (put k v d) j ≡ (if bytes_eq k j then some v else get d j)
  unfolding get put
  get-put k j v d = ground (arith, get-remove k j d)
