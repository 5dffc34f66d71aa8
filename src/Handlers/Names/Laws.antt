-- ===== src/Handlers/Names/Laws.antt =====
-- internal/handlers/handlers.go, internal/virsh/virsh.go: an accepted snapshot name is a column.
use zvm_extra.Base.{
  ℕ, ◌≡◌, ◌≢◌, refl, ap, sym, subst, inl, inr, true, false, [], ◌∷◌, arith, All, ℕ_discrete,
}
use zvm_extra.Bytes.{
  Bytes, codes, is_space, trim_right, trim_space, contains, has_prefix, index, bytes_eq, all_bytes,
}
use zvm_extra.Bytes.Contains.{contains_tail}
use zvm_extra.Bytes.Laws.{bytes_eq_iff}
use zvm_extra.Bytes.Cuts.{all_bytes-All}
use zvm_extra.Bytes.Trim.{trim_right_same, trimmed_first, right_last, right_tail}
use zvm_extra.Virsh.Tables.{is_blank}
use zvm_extra.Virsh.Tables.Columns.{IsColumn, IsSpaced}
use zvm_extra.Handlers.Names.{
  empty_or_flag, is_alphanumeric, is_name_byte, is_snapshot_byte, valid_snapshot_name,
}

tab_out : ¬ (is_snapshot_byte 9 ≡ true)
unfolding is_snapshot_byte is_name_byte is_alphanumeric
tab_out h = cc

-- A snapshot byte other than the space is no blank.
solid_byte : (c : ℕ) → is_snapshot_byte c ≡ true → c ≢ b' ' → is_blank c ≡ false
solid_byte c h ne = elim (ℕ_discrete c 9) [
  | yes e ↦ absurd (tab_out (subst (λ c. is_snapshot_byte c ≡ true) e h))
  | no other ↦ ground (arith, h)
]

abbrev pub double : Bytes
double = codes "  "

no_double : (s : Bytes) → ¬ (contains (b' ' ∷ b' ' ∷ s) double ≡ false)
unfolding contains index has_prefix
no_double s h = ground arith

space_space : is_space b' ' ≡ true
unfolding is_space
space_space = refl

not_space : (x : ℕ) → is_space x ≡ false → x ≢ b' '
not_space x h e = cc (h, space_space, ap is_space e)

not_double : (x y : ℕ) (s : Bytes) → contains (x ∷ y ∷ s) double ≡ false → x ≡ b' ' → y ≢ b' '
not_double x y s n ex ey = no_double s (
    subst (λ c. contains (b' ' ∷ c ∷ s) double ≡ false) ey
      (subst (λ c. contains (c ∷ y ∷ s) double ≡ false) ex n))

-- After one blank, a text that begins with another byte goes on.
IsSpaced-again : (y : ℕ) (s : Bytes) → y ≢ b' ' → IsSpaced 0 (y ∷ s) → IsSpaced 1 (y ∷ s)
IsSpaced-again y s ne (inl h) = inl h
IsSpaced-again y s ne (inr (e, z, h)) = absurd (ne e)

name-IsSpaced :
    (s : Bytes)
    → All (λ c. is_snapshot_byte c ≡ true) s
    → trim_right s ≡ s
    → contains s double ≡ false
    → IsSpaced 0 s
name-IsSpaced [] h r n = refl
name-IsSpaced (x ∷ []) (hx, h) r n = inl (solid_byte x hx (not_space x (right_last x r)), refl)
name-IsSpaced (x ∷ y ∷ s) (hx, h) r n =
    let rest = name-IsSpaced (y ∷ s) h (right_tail x y s r) (contains_tail x (y ∷ s) double n) in
    elim (ℕ_discrete x b' ') [
      | yes e ↦ inr (e, refl, IsSpaced-again y s (not_double x y s n e) rest)
      | no ne ↦ inl (solid_byte x hx ne, rest)
    ]

IsSpaced-tail : (x : ℕ) (s : Bytes) → x ≢ b' ' → IsSpaced 0 (x ∷ s) → IsSpaced 0 s
IsSpaced-tail x s ne (inl (b, h)) = h
IsSpaced-tail x s ne (inr (e, z, h)) = absurd (ne e)

-- What the guards of an accepted snapshot name give.
pub record Guards (s : Bytes) : Type 0 where
  pub nonempty : empty_or_flag s ≡ false
  pub trimmed : bytes_eq s (trim_space s) ≡ true
  pub single : contains s double ≡ false
  pub plain : all_bytes is_snapshot_byte s ≡ true

pub valid-Guards : (s : Bytes) → valid_snapshot_name s ≡ true → Guards s
unfolding valid_snapshot_name
valid-Guards s h = record {
  nonempty = ground (arith, h);
  trimmed = ground (arith, h);
  single = ground (arith, h);
  plain = ground (arith, h);
}

pub valid_snapshot_name-IsColumn : (s : Bytes) → valid_snapshot_name s ≡ true → IsColumn s
valid_snapshot_name-IsColumn [] h = absurd (cc ((valid-Guards [] h).nonempty))
valid_snapshot_name-IsColumn (x ∷ s) h =
    let g = valid-Guards (x ∷ s) h in
    let (hx, hs) = all_bytes-All is_snapshot_byte (x ∷ s) g.plain in
    let trimmed : trim_space (x ∷ s) ≡ x ∷ s =
      sym ((bytes_eq_iff (x ∷ s) (trim_space (x ∷ s))).0 g.trimmed) in
    let ne = not_space x (trimmed_first x s trimmed) in
    record {
      first = x;
      rest = s;
      spelled = refl;
      first_solid = solid_byte x hx ne;
      spaced =
          IsSpaced-tail x s ne
            (name-IsSpaced (x ∷ s) (hx, hs) (trim_right_same (x ∷ s) trimmed) g.single);
      trimmed = trimmed;
    }
