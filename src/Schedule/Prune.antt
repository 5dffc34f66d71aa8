-- ===== src/Schedule/Prune.antt =====
-- What a prune deletes.
use zvm_extra.Base.{
  ℕ, ◌-◌, ◌≤◌, ◌≡◌, ◌≢◌, sym, ap, subst, Bool, true, false, ok, List, [], ◌∷◌, ◌++◌, arith, length,
  take, drop, take-append-drop, length-drop, All, All-map, All-append_left, if◌then◌else◌,
  Bool-cases, inl, inr,
}
use zvm_extra.Base.Int.{leb_ℤ, pos, pos_part}
use zvm_extra.Bytes.{Bytes, bytes_eq, has_prefix}
use zvm_extra.Schedule.{Entry, auto_prefix}
use zvm_extra.Schedule.Order.{
  bytes_leb, sort, sort-All, sort-IsSorted, sort-Perm, sorted_split, length-sort,
}
use zvm_extra.Schedule.Snapshots.{Controller, auto_names, victims, delete_all, prune}
use mathlib.Core.List.{Perm}

-- A cut of the automatic snapshots in those that go and the newest, which stay.
pub record Cut (keep : ℕ) (autos gone : List Bytes) : Type 0 where
  pub kept : List Bytes
  pub all_there : Perm (gone ++ kept) autos
  pub as_many : (keep ≤ length autos → length kept ≡ keep) × (length autos ≤ keep → gone ≡ [])
  pub newest : All (λ a. All (λ b. bytes_leb a b ≡ true) kept) gone

victims_lem :
    (keep : ℕ) (autos : List Bytes)
    → victims keep autos ≡ take (length (sort autos) - keep) (sort autos)
unfolding victims
victims_lem keep autos = ground arith

-- The snapshots that a prune deletes and the ones that it keeps are together the automatic ones; as
-- many are kept as there may be, and each that is kept is at least as new as each that goes.
pub victims_oldest : (keep : ℕ) (autos : List Bytes) → Cut keep autos (victims keep autos)
victims_oldest keep autos =
    let sorted = sort autos in
    let n = length sorted - keep in
    let split = take-append-drop n sorted in
    rw (victims_lem keep autos) (record {
      kept = drop n sorted;
      all_there = rw split (sort-Perm autos);
      as_many = (
        (λ h. omega (arith, length-drop n sorted, length-sort autos)),
        λ h.
            let none_over : n ≡ 0 = omega (arith, length-sort autos) in
            ap (λ k. take k sorted) none_over,
      );
      newest = sorted_split (take n sorted) (drop n sorted) (rw split (sort-IsSorted autos));
    })

auto_names-All :
    (names : List Bytes) → All (λ n. has_prefix n auto_prefix ≡ true) (auto_names names)
unfolding auto_names
auto_names-All [] = tt
auto_names-All (n ∷ names) = elim (Bool-cases (has_prefix n auto_prefix)) [
  | inl e ↦ rw e (e, auto_names-All names)
  | inr e ↦ rw e (auto_names-All names)
]

take-All : (P : Bytes → Type 0) (n : ℕ) (xs : List Bytes) → All P xs → All P (take n xs)
take-All P n xs h =
    All-append_left P (take n xs) (drop n xs) (subst (All P) (sym (take-append-drop n xs)) h)

victims-All : (P : Bytes → Type 0) (keep : ℕ) (xs : List Bytes) → All P xs → All P (victims keep xs)
victims-All P keep xs h = rw (victims_lem keep xs) (take-All P _ (sort xs) (sort-All P xs h))

-- Whether a name is in a list.
unfoldable pub elem : Bytes → List Bytes → Bool
elem name [] = false
elem name (n ∷ ns) = let rest = elem name ns in if bytes_eq n name then true else rest

module _ {W : Type 0} (vc : Controller W) where
  abbrev pub Listed : Bytes → Bytes → W → Type 0
  Listed vm name w =
      (names : List Bytes) × (vc.list_snapshots vm w ≡ ok names) × (elem name names ≡ true)

  -- What libvirt does: a deletion, successful or not, leaves the other snapshots of the domain.
  abbrev pub IsLawful : Type 0
  IsLawful =
      (vm name other : Bytes) (w : W)
      → name ≢ other
      → Listed vm other w
      → Listed vm other (vc.delete_snapshot vm name false w).1

  delete_all-world :
      (vm n : Bytes) (names : List Bytes) (w : W)
      → (delete_all vc vm (n ∷ names) w).1
        ≡ (delete_all vc vm names (vc.delete_snapshot vm n false w).1).1
  unfolding delete_all
  delete_all-world vm n names w = ground arith

  delete_all_spares :
      (vm other : Bytes) (names : List Bytes) (w : W)
      → IsLawful
      → All (λ n. n ≢ other) names
      → Listed vm other w
      → Listed vm other (delete_all vc vm names w).1
  delete_all_spares vm other [] w lawful apart h = unfold delete_all in h
  delete_all_spares vm other (n ∷ names) w lawful (ne, apart) h =
      subst (Listed vm other) (sym (delete_all-world vm n names w))
        (delete_all_spares vm other names _ lawful apart (lawful vm n other w ne h))

  -- Where a deletion leaves the other snapshots of the domain listed, a prune leaves every listed
  -- snapshot whose name does not begin as those of the scheduler do.
  pub prune_spares :
      (e : Entry) (other : Bytes) (w : W)
      → IsLawful
      → has_prefix other auto_prefix ≡ false
      → Listed e.vm other w
      → Listed e.vm other (prune vc e w).1
  unfolding prune
  prune_spares e other w lawful manual (names, l, m) = elim (Bool-cases (leb_ℤ e.keep (pos 0))) [
    | inl c ↦ rw c (names, l, m)
    | inr c ↦
        rw (c, l)
          (delete_all_spares e.vm other _ w lawful
            (All-map (λ n a same. ground (arith, a, manual, same)) _
              (victims-All _ (pos_part e.keep) _ (auto_names-All names)))
            (names, l, m))
  ]
