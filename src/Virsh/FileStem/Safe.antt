-- ===== src/Virsh/FileStem/Safe.antt =====
-- A file name made from the name of a snapshot is harmless.
use zvm_extra.Base.{
  ℕ, ◌≡◌, refl, ◌⊎◌, inl, inr, Bool, true, false, [], ◌∷◌, ◌++◌, arith, All, Bool-cases,
  if◌then◌else◌,
}
use zvm_extra.Bytes.{Bytes, codes}
use zvm_extra.Virsh.FileStem.{
  is_stem_byte, clean, is_cut, trim_left, keep_byte, trim_right, or_snap, file_stem,
}

-- The text begins with a byte that is neither an underscore nor a dot.
abbrev pub Begins : Bytes → Type 0
Begins s = (c : ℕ) × (t : Bytes) × (s ≡ c ∷ t) × (is_cut c ≡ false)

abbrev pub Ends : Bytes → Type 0
Ends s = (t : Bytes) × (c : ℕ) × (s ≡ t ++ c ∷ []) × (is_cut c ≡ false)

-- Bytes of file names alone, and neither a dot nor an underscore at either end; so the text is not
-- empty, holds no slash, and is neither "." nor "..".
pub record IsSafe (s : Bytes) : Type 0 where
  pub bytes : All (λ r. is_stem_byte r ≡ true) s
  pub begins : Begins s
  pub ends : Ends s

abbrev AllStem : Bytes → Type 0
AllStem s = All (λ r. is_stem_byte r ≡ true) s

clean_kept :
    (last : Bool) (r : ℕ) (s : Bytes)
    → is_stem_byte r ≡ true
    → clean last (r ∷ s) ≡ r ∷ clean false s
unfolding clean
clean_kept last r s e = ground (arith, e)

clean_replaced :
    (last : Bool) (r : ℕ) (s : Bytes)
    → is_stem_byte r ≡ false
    → clean last (r ∷ s) ≡ (if last then clean true s else b'_' ∷ clean true s)
unfolding clean
clean_replaced last r s e = ground (arith, e)

underscore_kept : is_stem_byte b'_' ≡ true
unfolding is_stem_byte
underscore_kept = refl

clean-AllStem : (last : Bool) (s : Bytes) → AllStem (clean last s)
clean-AllStem last [] = unfold clean in tt
clean-AllStem last (r ∷ s) = elim (Bool-cases (is_stem_byte r)) [
  | inl e ↦ rw (clean_kept last r s e) (e, clean-AllStem false s)
  | inr e ↦ elim (Bool-cases last) [
    | inl l ↦ rw (clean_replaced last r s e, l) (clean-AllStem true s)
    | inr l ↦ rw (clean_replaced last r s e, l) (underscore_kept, clean-AllStem true s)
  ]
]

trim_left-cons : (c : ℕ) (s : Bytes) → trim_left (c ∷ s) ≡ (if is_cut c then trim_left s else c ∷ s)
unfolding trim_left
trim_left-cons c s = ground arith

trim_left-AllStem : (s : Bytes) → AllStem s → AllStem (trim_left s)
trim_left-AllStem [] h = unfold trim_left in tt
trim_left-AllStem (c ∷ s) (hc, h) = elim (Bool-cases (is_cut c)) [
  | inl e ↦ rw (trim_left-cons c s, e) (trim_left-AllStem s h)
  | inr e ↦ rw (trim_left-cons c s, e) (hc, h)
]

trim_left-Begins : (s : Bytes) → (trim_left s ≡ []) ⊎ Begins (trim_left s)
trim_left-Begins [] = unfold trim_left in inl refl
trim_left-Begins (c ∷ s) = elim (Bool-cases (is_cut c)) [
  | inl e ↦ rw (trim_left-cons c s, e) (trim_left-Begins s)
  | inr e ↦ rw (trim_left-cons c s, e) (inr (c, s, refl, e))
]

keep_byte-AllStem :
    (c : ℕ) (s : Bytes) → is_stem_byte c ≡ true → AllStem s → AllStem (keep_byte c s)
unfolding keep_byte
keep_byte-AllStem c [] hc h = elim (Bool-cases (is_cut c)) [
  | inl e ↦ rw e tt
  | inr e ↦ rw e (hc, tt)
]
keep_byte-AllStem c (d ∷ s) hc h = (hc, h)

trim_right-AllStem : (s : Bytes) → AllStem s → AllStem (trim_right s)
unfolding trim_right
trim_right-AllStem [] h = tt
trim_right-AllStem (c ∷ s) (hc, h) = keep_byte-AllStem c (trim_right s) hc (trim_right-AllStem s h)

keep_byte-Ends :
    (c : ℕ) (s : Bytes) → (s ≡ []) ⊎ Ends s → (keep_byte c s ≡ []) ⊎ Ends (keep_byte c s)
unfolding keep_byte
keep_byte-Ends c [] h = elim (Bool-cases (is_cut c)) [
  | inl e ↦ rw e (inl refl)
  | inr e ↦ rw e (inr ([], c, refl, e))
]
keep_byte-Ends c (d ∷ s) (inl e) = absurd (cc)
keep_byte-Ends c (d ∷ s) (inr (t, x, e, k)) = inr (c ∷ t, x, cc, k)

trim_right-Ends : (s : Bytes) → (trim_right s ≡ []) ⊎ Ends (trim_right s)
unfolding trim_right
trim_right-Ends [] = inl refl
trim_right-Ends (c ∷ s) = keep_byte-Ends c (trim_right s) (trim_right-Ends s)

keep_byte-Begins : (c : ℕ) (s : Bytes) → is_cut c ≡ false → (t : Bytes) × (keep_byte c s ≡ c ∷ t)
unfolding keep_byte
keep_byte-Begins c [] h = ([], rw h)
keep_byte-Begins c (d ∷ s) h = (d ∷ s, refl)

trim_right-Begins : (s : Bytes) → Begins s → Begins (trim_right s)
unfolding trim_right
trim_right-Begins [] (c, t, e, h) = absurd (cc)
trim_right-Begins (d ∷ s) (c, t, e, h) =
    let head : is_cut d ≡ false = ground (arith, e, h) in
    let (u, k) = keep_byte-Begins d (trim_right s) head in (d, u, k, head)

or_snap-IsSafe : (s : Bytes) → AllStem s → (s ≡ []) ⊎ (Begins s × Ends s) → IsSafe (or_snap s)
unfolding or_snap is_stem_byte is_cut
or_snap-IsSafe [] h _ = record {
  bytes = (refl, (refl, (refl, (refl, tt))));
  begins = (b's', codes "nap", refl, refl);
  ends = (codes "sna", b'p', refl, refl);
}
or_snap-IsSafe (c ∷ s) h (inl e) = absurd (cc)
or_snap-IsSafe (c ∷ s) h (inr (b, e)) = record { bytes = h; begins = b; ends = e }

trim_right_nil : trim_right [] ≡ []
unfolding trim_right
trim_right_nil = refl

-- Of a text that begins well, or is empty, the right trim leaves nothing or a text with good ends.
trim_right_good :
    (s : Bytes)
    → (s ≡ []) ⊎ Begins s
    → (trim_right s ≡ []) ⊎ (Begins (trim_right s) × Ends (trim_right s))
trim_right_good s (inl e) = inl (rw (e, trim_right_nil))
trim_right_good s (inr b) = elim (trim_right-Ends s) [
  | inl e ↦ inl e
  | inr e ↦ inr (trim_right-Begins s b, e)
]

-- Whatever a snapshot is called, its file name consists of bytes of file names alone, and neither
-- begins nor ends with a dot or an underscore.
pub file_stem-IsSafe : (name : Bytes) → IsSafe (file_stem name)
unfolding file_stem
file_stem-IsSafe name =
    let left = trim_left (clean false name) in
    or_snap-IsSafe (trim_right left)
      (trim_right-AllStem left (trim_left-AllStem (clean false name) (clean-AllStem false name)))
      (trim_right_good left (trim_left-Begins (clean false name)))
