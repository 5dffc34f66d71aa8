-- ===== src/Usb/Lsusb.antt =====
-- What the list of host devices holds.
use zvm_extra.Base.{
  ℕ, ◌≡◌, refl, false, Result, ok, List, [], ◌∷◌, arith, All, Bool-cases, Option-cases,
  Result-cases, inl, inr, none, some,
}
use zvm_extra.Bytes.{Bytes, to_lower, lower, fields, trim_space, split, cut, bytes_eq}
use zvm_extra.Usb.{
  Device, is_root_hub, parse_fields, parse_line, parse_lines, parse_lsusb, without_root_hubs,
  host_list,
}

lower-lower : (c : ℕ) → lower (lower c) ≡ lower c
unfolding lower
lower-lower c = ground arith

to_lower-to_lower : (s : Bytes) → to_lower (to_lower s) ≡ to_lower s
unfolding to_lower
to_lower-to_lower [] = refl
to_lower-to_lower (c ∷ s) = rw (lower-lower c, to_lower-to_lower s)

parse_fields-lower :
    (parts : List Bytes) {d : Device}
    → parse_fields parts ≡ some d
    → (to_lower d.vendor_id ≡ d.vendor_id) × (to_lower d.product_id ≡ d.product_id)
unfolding parse_fields
parse_fields-lower [] h = absurd (ground arith)
parse_fields-lower (a ∷ []) h = absurd (ground arith)
parse_fields-lower (a ∷ b ∷ []) h = absurd (ground arith)
parse_fields-lower (a ∷ b ∷ c ∷ []) h = absurd (ground arith)
parse_fields-lower (a ∷ b ∷ c ∷ e ∷ []) h = absurd (ground arith)
parse_fields-lower (a ∷ b ∷ c ∷ e ∷ f ∷ []) h = absurd (ground arith)
parse_fields-lower (a ∷ b ∷ c ∷ e ∷ f ∷ g ∷ rest) {d} h = elim (Option-cases (cut g b':')) [
  | inl e' ↦ absurd (ground (arith, e'))
  | inr ((vendor, product), e') ↦
      (ground (arith, e', to_lower-to_lower vendor), ground (arith, e', to_lower-to_lower product))
]

abbrev IsLower : Device → Type 0
IsLower d = (to_lower d.vendor_id ≡ d.vendor_id) × (to_lower d.product_id ≡ d.product_id)

-- Neither a root hub nor an id in capitals.
abbrev pub IsOffered : Device → Type 0
IsOffered d = (is_root_hub d.vendor_id ≡ false) × IsLower d

parse_line-IsLower : (line : Bytes) {d : Device} → parse_line line ≡ some d → IsLower d
unfolding parse_line
parse_line-IsLower line h = elim (Bool-cases (bytes_eq line [])) [
  | inl e ↦ absurd (ground (arith, e))
  | inr e ↦ parse_fields-lower (fields line) (rw e at h)
]

parse_lines-none :
    (line : Bytes) (lines : List Bytes)
    → parse_line (trim_space line) ≡ none
    → parse_lines (line ∷ lines) ≡ parse_lines lines
unfolding parse_lines
parse_lines-none line lines e = ground (arith, e)

parse_lines-some :
    (line : Bytes) (lines : List Bytes) {d : Device}
    → parse_line (trim_space line) ≡ some d
    → parse_lines (line ∷ lines) ≡ d ∷ parse_lines lines
unfolding parse_lines
parse_lines-some line lines e = ground (arith, e)

parse_lines-IsLower : (lines : List Bytes) → All IsLower (parse_lines lines)
parse_lines-IsLower [] = unfold parse_lines in tt
parse_lines-IsLower (line ∷ lines) = elim (Option-cases (parse_line (trim_space line))) [
  | inl e ↦ rw (parse_lines-none line lines e) (parse_lines-IsLower lines)
  | inr (d, e) ↦
      rw (parse_lines-some line lines e)
        (parse_line-IsLower (trim_space line) e, parse_lines-IsLower lines)
]

without_root_hubs-All : (ds : List Device) → All IsLower ds → All IsOffered (without_root_hubs ds)
unfolding without_root_hubs
without_root_hubs-All [] h = tt
without_root_hubs-All (d ∷ ds) (hd, h) = elim (Bool-cases (is_root_hub d.vendor_id)) [
  | inl e ↦ rw e (without_root_hubs-All ds h)
  | inr e ↦ rw e ((e, hd), without_root_hubs-All ds h)
]

host_list_of :
    (lsusb : Result Bytes) {ds : List Device}
    → host_list lsusb ≡ ok ds
    → (out : Bytes) × (ds ≡ without_root_hubs (parse_lsusb out))
unfolding host_list
host_list_of lsusb h = elim (Result-cases lsusb) [
  | inl (m, e) ↦ absurd (ground (arith, e))
  | inr (out, e) ↦ (out, ground (arith, e))
]

-- Whatever `lsusb` prints, a USB device that is offered is no root hub, and its ids are in lower
-- case.
pub host_list_offers :
    (lsusb : Result Bytes) {ds : List Device} → host_list lsusb ≡ ok ds → All IsOffered ds
unfolding parse_lsusb
host_list_offers lsusb h =
    let (out, e) = host_list_of lsusb h in
    rw e (without_root_hubs-All _ (parse_lines-IsLower (split out b'\n')))
