-- ===== src/Virsh/Commands/Overlays.antt =====
-- internal/virsh/virsh.go: the overlays of an external snapshot.
use zvm_extra.Base.{
  ℕ, suc, ◌+◌, ◌<◌, ◌≤◌, ◌^◌, ◌⊎◌, ◌≡◌, ◌≢◌, refl, ap, sym, ◌∙◌, Bool, true, false, not, ◌==◌, List,
  [], ◌∷◌, ◌++◌, if◌then◌else◌, arith, All, All-map, Pairwise, length, append_assoc, Bool-cases,
  inl, inr,
}
use zvm_extra.Bytes.{Bytes, codes, all_bytes}
use zvm_extra.Bytes.Cuts.{all_bytes-All, Lacks, first_sep_injective, last_sep_injective}
use zvm_extra.Virsh.Tables.{Disk}
use zvm_extra.Virsh.Commands.{overlay_path, is_removable, trim_slashes, disk_specs, disk_spec}
use zvm_extra.Virsh.Listen.{itoa}
use zvm_extra.Virsh.Listen.Digits.{Fits, Digit, itoa-All, itoa_injective}

-- The files that the disks of a domain get, the first of them the `i`th.
unfoldable pub overlays : Bytes → Bytes → ℕ → List Disk → List Bytes
overlays dir stem i [] = []
overlays dir stem i (d ∷ disks) =
    let rest = overlays dir stem (i + 1) disks in
    if is_removable d then rest else overlay_path dir stem d.target i ∷ rest

Digit-no_dash : (c : ℕ) → Digit c → c ≢ b'-'
Digit-no_dash c d = omega arith

Digit-no_dot : (c : ℕ) → Digit c → c ≢ b'.'
Digit-no_dot c d = omega arith

number_no_dash : (n : ℕ) → Lacks b'-' (itoa n)
number_no_dash n = All-map (λ c d. Digit-no_dash c d) (itoa n) (itoa-All n)

number_no_dot : (n : ℕ) → Lacks b'.' (itoa n)
number_no_dot n = All-map (λ c d. Digit-no_dot c d) (itoa n) (itoa-All n)

-- What stands before the last dash.
abbrev front : Bytes → Bytes → Bytes → Bytes
front d stem t = d ++ b'/' ∷ (stem ++ b'-' ∷ t)

flat :
    (d stem t n : Bytes)
    → front d stem t ++ b'-' ∷ (n ++ codes ".qcow2")
      ≡ d ++ b'/' ∷ (stem ++ b'-' ∷ (t ++ b'-' ∷ (n ++ codes ".qcow2")))
flat d stem t n =
    append_assoc d (b'/' ∷ (stem ++ b'-' ∷ t)) (b'-' ∷ (n ++ codes ".qcow2"))
    ∙ ap (λ r. d ++ b'/' ∷ r) (append_assoc stem (b'-' ∷ t) (b'-' ∷ (n ++ codes ".qcow2")))

no_dash : ℕ → Bool
no_dash c = not (c == b'-')

no_dash-ne : (c : ℕ) → no_dash c ≡ true → c ≢ b'-'
unfolding no_dash
no_dash-ne c h = ground arith

ending_no_dash : Lacks b'-' (codes ".qcow2")
unfolding all_bytes no_dash
ending_no_dash = All-map no_dash-ne (codes ".qcow2") (all_bytes-All no_dash (codes ".qcow2") refl)

suffix_no_dash : (n : Bytes) → Lacks b'-' n → Lacks b'-' (n ++ codes ".qcow2")
suffix_no_dash [] h = ending_no_dash
suffix_no_dash (c ∷ n) (hc, h) = (hc, suffix_no_dash n h)

numbers_eq :
    (a b n m : Bytes)
    → Lacks b'-' n
    → Lacks b'-' m
    → Lacks b'.' n
    → Lacks b'.' m
    → a ++ b'-' ∷ (n ++ codes ".qcow2") ≡ b ++ b'-' ∷ (m ++ codes ".qcow2")
    → n ≡ m
numbers_eq a b n m hn hm kn km e =
    let (_, e') =
      last_sep_injective a b (n ++ codes ".qcow2") (m ++ codes ".qcow2") b'-' (suffix_no_dash n hn)
        (suffix_no_dash m hm) e in
    (first_sep_injective n m (codes "qcow2") (codes "qcow2") b'.' kn km e').0

-- A file of the same directory and stem has another number.
pub overlay_path_number :
    (dir stem t u : Bytes) (i j : ℕ)
    → Fits 20 i
    → Fits 20 j
    → overlay_path dir stem t i ≡ overlay_path dir stem u j
    → i ≡ j
unfolding overlay_path
overlay_path_number dir stem t u i j hi hj e =
    let e' =
      flat (trim_slashes dir) stem t (itoa i) ∙ e ∙ sym (flat (trim_slashes dir) stem u (itoa j)) in
    itoa_injective i j hi hj (
      numbers_eq (front (trim_slashes dir) stem t) (front (trim_slashes dir) stem u) (itoa i)
        (itoa j) (number_no_dash i) (number_no_dash j) (number_no_dot i) (number_no_dot j) e')

-- A number of the machine has at most 20 digits.
fits : (j : ℕ) → j < 2 ^ 63 → Fits 20 j
fits j h = omega arith

-- A file of one of `n` disks from the `i`th on.
abbrev Numbered : Bytes → Bytes → ℕ → ℕ → Bytes → Type 0
Numbered dir stem i n p =
    (t : Bytes) × (j : ℕ) × (i ≤ j) × (j < i + n) × (p ≡ overlay_path dir stem t j)

overlay-cases :
    (dir stem : Bytes) (i : ℕ) (d : Disk) (disks : List Disk)
    → (overlays dir stem i (d ∷ disks) ≡ overlays dir stem (i + 1) disks)
      ⊎ (overlays dir stem i (d ∷ disks)
          ≡ overlay_path dir stem d.target i ∷ overlays dir stem (i + 1) disks)
unfolding overlays
overlay-cases dir stem i d disks = elim (Bool-cases (is_removable d)) [
  | inl e ↦ inl (rw e refl)
  | inr e ↦ inr (rw e refl)
]

sooner :
    (dir stem : Bytes) (i n : ℕ) (p : Bytes)
    → Numbered dir stem (i + 1) n p
    → Numbered dir stem i (suc n) p
sooner dir stem i n p (t, j, lo, hi, e) = (t, j, omega arith, omega arith, e)

overlays-All :
    (dir stem : Bytes) (i : ℕ) (disks : List Disk)
    → All (Numbered dir stem i (length disks)) (overlays dir stem i disks)
overlays-All dir stem i [] = unfold overlays in tt
overlays-All dir stem i (d ∷ disks) =
    let rest =
      All-map (sooner dir stem i (length disks)) (overlays dir stem (i + 1) disks)
        (overlays-All dir stem (i + 1) disks) in
    elim (overlay-cases dir stem i d disks) [
      | inl e ↦ rw e rest
      | inr e ↦ rw e ((d.target, i, omega arith, omega arith, refl), rest)
    ]

other_file :
    (dir stem t : Bytes) (i n : ℕ) (p : Bytes)
    → i + suc n < 2 ^ 63
    → Numbered dir stem (i + 1) n p
    → p ≢ overlay_path dir stem t i
other_file dir stem t i n p small (u, j, lo, hi, e) same =
    let number =
      overlay_path_number dir stem t u i j (fits i (omega arith)) (fits j (omega arith))
        (sym same ∙ e) in
    absurd (omega arith)

distinct_from :
    (dir stem : Bytes) (i : ℕ) (disks : List Disk)
    → i + length disks < 2 ^ 63
    → Pairwise (λ p q. p ≢ q) (overlays dir stem i disks)
distinct_from dir stem i [] small = unfold overlays in tt
distinct_from dir stem i (d ∷ disks) small =
    let rest = distinct_from dir stem (i + 1) disks (omega arith) in
    elim (overlay-cases dir stem i d disks) [
      | inl e ↦ rw e rest
      | inr e ↦ rw e (
        All-map (λ p h. other_file dir stem d.target i (length disks) p small h)
            (overlays dir stem (i + 1) disks) (overlays-All dir stem (i + 1) disks),
        rest,
      )
    ]

-- The options of the disks, where `files` are the files of those that are no removable medium.
unfoldable pub specs_with : List Disk → List Bytes → List Bytes
specs_with [] files = []
specs_with (d ∷ disks) files = elim (is_removable d) [
  | true ↦ codes "--diskspec" ∷ (d.target ++ codes ",snapshot=no") ∷ specs_with disks files
  | false ↦ elim files [
    | [] ↦ []
    | p ∷ rest ↦
        codes "--diskspec"
        ∷ (d.target ++ (codes ",snapshot=external,file=" ++ p))
        ∷ specs_with disks rest
  ]
]

specs-overlays :
    (dir stem : Bytes) (i : ℕ) (disks : List Disk)
    → disk_specs dir stem i disks ≡ specs_with disks (overlays dir stem i disks)
unfolding disk_specs disk_spec specs_with overlays
specs-overlays dir stem i [] = refl
specs-overlays dir stem i (d ∷ disks) = elim (Bool-cases (is_removable d)) [
  | inl e ↦ ground (arith, e, specs-overlays dir stem (i + 1) disks)
  | inr e ↦ ground (arith, e, specs-overlays dir stem (i + 1) disks)
]

-- An external snapshot writes over no file twice: each disk of the domain gets one option, in the
-- order of the disks, a CD-ROM or a floppy with `snapshot=no` and every other disk with a file of its
-- own, and the files differ in pairs, whatever the disks are called.
pub disk_specs_distinct :
    (dir stem : Bytes) (disks : List Disk)
    → length disks < 2 ^ 63
    → (disk_specs dir stem 0 disks ≡ specs_with disks (overlays dir stem 0 disks))
      × Pairwise (λ p q. p ≢ q) (overlays dir stem 0 disks)
disk_specs_distinct dir stem disks small =
    (specs-overlays dir stem 0 disks, distinct_from dir stem 0 disks (omega arith))
