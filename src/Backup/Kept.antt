-- ===== src/Backup/Kept.antt =====
-- internal/backup/backup.go: how many jobs are kept.
use zvm_extra.Base.{
  suc, ◌≡◌, ◌≢◌, ◌≤◌, refl, ap, sym, ◌∙◌, none, ok, err, Result, List, [], ◌∷◌, arith, All, All-map,
  All-append_right, subst, take, drop, take-append-drop, length, length-drop, leb, ◌-◌, Bool-cases,
  Result-cases, inl, inr,
}
use zvm_extra.Base.Int.{ltb_ℤ}
use zvm_extra.Bytes.{Bytes, bytes_eq}
use zvm_extra.Bytes.Laws.{bytes_eq_iff, bytes_eq_refl}
use zvm_extra.Dict.{get, put, remove, values}
use zvm_extra.Dict.Keyed.{IsKeyed, put-IsKeyed, remove-IsKeyed}
use zvm_extra.Virsh.Tables.{Disk}
use zvm_extra.Virsh.Commands.{Runner}
use zvm_extra.Backup.{
  Job, Jobs, Host, Clock, insert, sort, delete_all, prune_locked, prepare, start,
}

-- Each job stands under its own id.
abbrev pub IsByIds : Jobs → Type 0
IsByIds jobs = IsKeyed (λ j. j.id) jobs

abbrev Has : Jobs → Job → Type 0
Has jobs j = get jobs j.id ≢ none

length-remove_le : (k : Bytes) (d : Jobs) → length (remove k d) ≤ length d
unfolding remove
length-remove_le k [] = omega arith
length-remove_le k ((i, j) ∷ d) = ground (arith, length-remove_le k d)

length-remove : (k : Bytes) (d : Jobs) → get d k ≢ none → suc (length (remove k d)) ≤ length d
unfolding remove get
length-remove k [] h = absurd (h refl)
length-remove k ((i, j) ∷ d) h = elim (Bool-cases (bytes_eq i k)) [
  | inl same ↦ ground (arith, same, length-remove_le k d)
  | inr other ↦
      let g : get d k ≢ none = λ e. h (ground (arith, other, e)) in
      ground (arith, other, length-remove k d g)
]

length-values : (d : Jobs) → length (values d) ≡ length d
unfolding values
length-values [] = refl
length-values ((i, j) ∷ d) = ap suc (length-values d)

Has-more : (k : Bytes) (v j : Job) (d : Jobs) → Has d j → Has ((k, v) ∷ d) j
unfolding get
Has-more k v j d h e = elim (Bool-cases (bytes_eq k j.id)) [
  | inl same ↦ absurd (ground (arith, same, e))
  | inr other ↦ h (ground (arith, other, e))
]

values-Has : (d : Jobs) → IsByIds d → All (Has d) (values d)
unfolding values get
values-Has [] h = tt
values-Has ((k, v) ∷ d) (own, fresh, rest) = (
  (λ e. ground (arith, e, own, bytes_eq_refl k, bytes_eq_iff k v.id)),
  All-map (λ j h. Has-more k v j d h) (values d) (values-Has d rest),
)

insert-All : (P : Job → Type 0) (j : Job) (js : List Job) → P j → All P js → All P (insert j js)
unfolding insert
insert-All P j [] p h = (p, tt)
insert-All P j (k ∷ ks) p (q, h) = elim (Bool-cases (ltb_ℤ j.started_unix k.started_unix)) [
  | inl older ↦ rw older (q, insert-All P j ks p h)
  | inr newer ↦ rw newer (p, (q, h))
]

sort-All : (P : Job → Type 0) (js : List Job) → All P js → All P (sort js)
unfolding sort
sort-All P [] h = tt
sort-All P (j ∷ js) (p, h) = insert-All P j (sort js) p (sort-All P js h)

length-insert : (j : Job) (js : List Job) → length (insert j js) ≡ suc (length js)
unfolding insert
length-insert j [] = refl
length-insert j (k ∷ ks) = ground (arith, length-insert j ks)

length-sort : (js : List Job) → length (sort js) ≡ length js
unfolding sort
length-sort [] = refl
length-sort (j ∷ js) = length-insert j (sort js) ∙ ap suc (length-sort js)

delete_all-IsByIds : (js : List Job) (d : Jobs) → IsByIds d → IsByIds (delete_all js d)
unfolding delete_all
delete_all-IsByIds [] d h = h
delete_all-IsByIds (j ∷ js) d h =
    delete_all-IsByIds js (remove j.id d) (remove-IsKeyed (λ k. k.id) j.id d h)

-- The one job too many is taken away.
delete_one :
    (js : List Job) (d : Jobs)
    → All (Has d) js
    → length js ≡ length d - 50
    → length d ≤ 51
    → length (delete_all js d) ≤ 50
unfolding delete_all
delete_one [] d h n few = omega (arith, n, few)
delete_one (j ∷ []) d (h, _) n few = omega (arith, n, few, length-remove j.id d h)
delete_one (j ∷ k ∷ js) d h n few = absurd (omega (arith, n, few))

prune_lem :
    (d : Jobs)
    → IsByIds d
    → length d ≤ 51
    → IsByIds (prune_locked d) × (length (prune_locked d) ≤ 50)
unfolding prune_locked
prune_lem d h few = elim (Bool-cases (leb (length d) 50)) [
  | inl fits ↦ rw fits (h, ground (arith, fits))
  | inr over ↦
      let js = sort (values d) in
      let all = All-append_right (Has d) (take 50 js) (drop 50 js) (
        subst (All (Has d)) (sym (take-append-drop 50 js))
          (sort-All (Has d) (values d) (values-Has d h))) in
      let n : length (drop 50 js) ≡ length d - 50 =
        length-drop 50 js ∙ ap (λ m. m - 50) (length-sort (values d) ∙ length-values d) in
      rw over (delete_all-IsByIds (drop 50 js) d h, delete_one (drop 50 js) d all n few)
]

-- The jobs when a Start has been refused, or accepted.
abbrev after : Jobs → Result (Job × Bytes × List Disk) → Jobs
after jobs (err m) = jobs
after jobs (ok (job, xml, disks)) = prune_locked (put job.id job jobs)

after-Kept :
    (jobs : Jobs) (r : Result (Job × Bytes × List Disk))
    → IsByIds jobs
    → length jobs ≤ 50
    → IsByIds (after jobs r) × (length (after jobs r) ≤ 50)
after-Kept jobs (err m) h few = (h, few)
after-Kept jobs (ok (job, xml, disks)) h few =
    prune_lem (put job.id job jobs) (put-IsKeyed (λ j. j.id) job jobs h)
      (unfold put in omega (arith, few, length-remove_le job.id jobs))

after_start :
    {W : Type 0} (virsh : Runner W) (host : Host W) (now : Clock) (id vm dest_dir : Bytes)
    (jobs : Jobs) (w : W)
    → (start virsh host now id vm dest_dir jobs w).1
      ≡ after jobs (prepare virsh host now id vm dest_dir w).0
unfolding start
after_start virsh host now id vm dest_dir jobs w =
    elim (Result-cases (prepare virsh host now id vm dest_dir w).0) [
      | inl (m, e) ↦ ground (arith, e)
      | inr ((job, xml, disks), e) ↦ ground (arith, e)
    ]

-- At most fifty jobs are kept, each under its own id: where it is so before a Start, accepted or
-- refused, it is so after it.
pub start_keeps_fifty :
    {W : Type 0} (virsh : Runner W) (host : Host W) (now : Clock) (id vm dest_dir : Bytes)
    (jobs : Jobs) (w : W)
    → IsByIds jobs
    → length jobs ≤ 50
    → IsByIds (start virsh host now id vm dest_dir jobs w).1
      × (length (start virsh host now id vm dest_dir jobs w).1 ≤ 50)
start_keeps_fifty virsh host now id vm dest_dir jobs w h few =
    rw (after_start virsh host now id vm dest_dir jobs w)
      (after-Kept jobs (prepare virsh host now id vm dest_dir w).0 h few)
