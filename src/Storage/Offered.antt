-- ===== src/Storage/Offered.antt =====
-- Which mount points are offered.
use zvm_extra.Base.{
  ◌≡◌, ◌≢◌, refl, sym, inl, inr, Bool, false, ◌||◌, Option, none, some, Result, ok, List, [], ◌∷◌,
  arith, All, All-map, Pairwise, Option-cases, Result-cases, Bool-cases,
}
use zvm_extra.Bytes.{Bytes, fields, split}
use zvm_extra.Bytes.Laws.{bytes_eq_iff}
use zvm_extra.Storage.{
  Target, Statfs, member, pseudo_fs, is_system_path, is_hidden, target, offered, scan, comes_first,
  insert, sort, mark_first, list,
}

-- Neither a pseudo file system nor a mount point of the system.
abbrev pub IsUserData : Target → Type 0
IsUserData t = (member t.fs_type pseudo_fs ≡ false) × (is_system_path t.path ≡ false)

-- No two targets of one source.
abbrev pub Distinct : List Target → Type 0
Distinct ts = Pairwise (λ t u. t.source ≢ u.source) ts

none_of : (a b c d : Bool) → (a || (b || (c || d))) ≡ false → (a ≡ false) × (c ≡ false)
none_of a b c d h = ground arith

is_hidden-false :
    (mnt fs_type opts : Bytes)
    → is_hidden mnt fs_type opts ≡ false
    → (member fs_type pseudo_fs ≡ false) × (is_system_path mnt ≡ false)
unfolding is_hidden
is_hidden-false mnt fs_type opts h = none_of _ _ _ _ h

member-cons :
    (s t : Bytes) (ts : List Bytes) → member s (t ∷ ts) ≡ false → (s ≢ t) × (member s ts ≡ false)
unfolding member
member-cons s t ts h = ((λ e. ground (arith, bytes_eq_iff s t, e)), ground arith)

module _ (statfs : Bytes → Option Statfs) where
  offered_of :
      (src mnt fs_type opts : Bytes) (rest seen : List Bytes) {t : Target}
      → offered statfs (src ∷ mnt ∷ fs_type ∷ opts ∷ rest) seen ≡ some t
      → (is_hidden mnt fs_type opts ≡ false)
        × (member src seen ≡ false)
        × (t ≡ target statfs src mnt fs_type)
  unfolding offered
  offered_of src mnt fs_type opts rest seen h = (ground arith, ground arith, ground arith)

  target-IsUserData :
      (src mnt fs_type opts : Bytes)
      → is_hidden mnt fs_type opts ≡ false
      → IsUserData (target statfs src mnt fs_type)
  unfolding target
  target-IsUserData src mnt fs_type opts h = is_hidden-false mnt fs_type opts h

  source-target : (src mnt fs_type : Bytes) → (target statfs src mnt fs_type).source ≡ src
  unfolding target
  source-target src mnt fs_type = refl

  -- A target is user data, and its source is new.
  abbrev IsFresh : List Bytes → Target → Type 0
  IsFresh seen t = IsUserData t × (member t.source seen ≡ false)

  offered-IsFresh :
      (parts seen : List Bytes) {t : Target} → offered statfs parts seen ≡ some t → IsFresh seen t
  offered-IsFresh [] seen h = unfold offered in absurd (ground arith)
  offered-IsFresh (a ∷ []) seen h = unfold offered in absurd (ground arith)
  offered-IsFresh (a ∷ b ∷ []) seen h = unfold offered in absurd (ground arith)
  offered-IsFresh (a ∷ b ∷ c ∷ []) seen h = unfold offered in absurd (ground arith)
  offered-IsFresh (src ∷ mnt ∷ fs ∷ opts ∷ rest) seen h =
      let (shown, new, e) = offered_of src mnt fs opts rest seen h in
      rw e (target-IsUserData src mnt fs opts shown, rw (source-target src mnt fs) new)

  scan-none :
      (line : Bytes) (lines seen : List Bytes)
      → offered statfs (fields line) seen ≡ none
      → scan statfs (line ∷ lines) seen ≡ scan statfs lines seen
  unfolding scan
  scan-none line lines seen e = ground (arith, e)

  scan-some :
      (line : Bytes) (lines seen : List Bytes) {t : Target}
      → offered statfs (fields line) seen ≡ some t
      → scan statfs (line ∷ lines) seen ≡ t ∷ scan statfs lines (t.source ∷ seen)
  unfolding scan
  scan-some line lines seen e = ground (arith, e)

  scan-IsFresh :
      (lines seen : List Bytes)
      → All (IsFresh seen) (scan statfs lines seen) × Distinct (scan statfs lines seen)
  scan-IsFresh [] seen = unfold scan in (tt, tt)
  scan-IsFresh (line ∷ lines) seen = elim (Option-cases (offered statfs (fields line) seen)) [
    | inl e ↦ rw (scan-none line lines seen e) (scan-IsFresh lines seen)
    | inr (t, e) ↦
        let (fresh, apart) = scan-IsFresh lines (t.source ∷ seen) in
        rw (scan-some line lines seen e) (
          (
            offered-IsFresh (fields line) seen e,
            All-map (λ u h. (h.0, (member-cons u.source t.source seen h.1).1)) _ fresh,
          ),
          (All-map (λ u h. (member-cons u.source t.source seen h.1).0) _ fresh, apart),
        )
  ]

insert-All :
    (P : Target → Type 0) (a : Target) (ts : List Target) → P a → All P ts → All P (insert a ts)
unfolding insert
insert-All P a [] pa h = (pa, tt)
insert-All P a (b ∷ ts) pa (pb, h) = elim (Bool-cases (comes_first a b)) [
  | inl c ↦ rw c (pa, (pb, h))
  | inr c ↦ rw c (pb, insert-All P a ts pa h)
]

insert-Distinct :
    (a : Target) (ts : List Target)
    → All (λ t. t.source ≢ a.source) ts
    → Distinct ts
    → Distinct (insert a ts)
unfolding insert
insert-Distinct a [] h d = (tt, tt)
insert-Distinct a (b ∷ ts) (hb, h) (db, d) = elim (Bool-cases (comes_first a b)) [
  | inl c ↦ rw c ((hb, h), (db, d))
  | inr c ↦
      rw c
        (insert-All (λ t. t.source ≢ b.source) a ts (λ e. hb (sym e)) db, insert-Distinct a ts h d)
]

sort-All : (P : Target → Type 0) (ts : List Target) → All P ts → All P (sort ts)
unfolding sort
sort-All P [] h = tt
sort-All P (t ∷ ts) (pt, h) = insert-All P t (sort ts) pt (sort-All P ts h)

sort-Distinct : (ts : List Target) → Distinct ts → Distinct (sort ts)
unfolding sort
sort-Distinct [] d = tt
sort-Distinct (t ∷ ts) (dt, d) =
    insert-Distinct t (sort ts) (sort-All (λ u. u.source ≢ t.source) ts dt) (sort-Distinct ts d)

-- What a list of targets holds: user data, from distinct sources.
pub record IsOffer (ts : List Target) : Type 0 where
  pub user_data : All IsUserData ts
  pub distinct : Distinct ts

mark_first-IsOffer : (ts : List Target) → All IsUserData ts → Distinct ts → IsOffer (mark_first ts)
unfolding mark_first
mark_first-IsOffer [] u d = record { user_data = tt; distinct = tt }
mark_first-IsOffer (t ∷ ts) (ut, u) (dt, d) = record { user_data = (ut, u); distinct = (dt, d) }

list_of :
    (statfs : Bytes → Option Statfs) (mounts : Result Bytes) {ts : List Target}
    → list statfs mounts ≡ ok ts
    → (out : Bytes) × (ts ≡ mark_first (sort (scan statfs (split out b'\n') [])))
unfolding list
list_of statfs mounts h = elim (Result-cases mounts) [
  | inl (m, e) ↦ absurd (ground (arith, e))
  | inr (out, e) ↦ (out, ground (arith, e))
]

-- Whatever is mounted, a target that is offered is neither a pseudo file system nor a mount point
-- of the system, and no source is offered twice.
pub list-IsOffer :
    (statfs : Bytes → Option Statfs) (mounts : Result Bytes) {ts : List Target}
    → list statfs mounts ≡ ok ts
    → IsOffer ts
list-IsOffer statfs mounts h =
    let (out, e) = list_of statfs mounts h in
    let found = scan statfs (split out b'\n') [] in
    let (fresh, apart) = scan-IsFresh statfs (split out b'\n') [] in
    rw e (
      mark_first-IsOffer (sort found) (sort-All IsUserData found (All-map (λ t f. f.0) found fresh))
        (sort-Distinct found apart))
