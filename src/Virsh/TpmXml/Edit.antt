-- ===== src/Virsh/TpmXml/Edit.antt =====
-- internal/virsh/tpm.go: what the edit of the TPM does to a configuration.
use zvm_extra.Base.{
  ℕ, zero, suc, ◌≡◌, refl, subst, ap, sym, ◌∙◌, ◌⊎◌, inl, inr, true, false, some, none, Result, ok,
  [], ◌∷◌, ◌++◌, arith, length, take, drop, Bool-cases, Option-cases, take-append-drop,
}
use zvm_extra.Bytes.{Bytes, codes, has_prefix, contains}
use zvm_extra.Bytes.Contains.{contains_suffix, contains_cons, contains_nil}
use zvm_extra.Bytes.Index.{has_prefix-split}
use zvm_extra.Virsh.TpmXml.{
  find_tpm, remove_tpm, tpm_device, tpm_info_xml, set_tpm_xml, last_text, devices_close,
}
use zvm_extra.Virsh.TpmXml.Search.{Found, Found-behind, find_here, device_match}

pub device-Found : (a : Bytes) → Found (tpm_device ++ a)
device-Found a = ([], _, find_here b' ' _ (device_match a))

pub present_of : (s : Bytes) → Found s → (tpm_info_xml s).present ≡ true
unfolding tpm_info_xml
present_of s (b, m, e) = ground (arith, e)

pub absent_of : (s : Bytes) → find_tpm s ≡ none → (tpm_info_xml s).present ≡ false
unfolding tpm_info_xml
absent_of s e = ground (arith, e)

last_nil : (p : Bytes) {i : ℕ} → last_text [] p ≡ some i → has_prefix (drop i []) p ≡ true
unfolding last_text
last_nil p {i} h = elim (Bool-cases (has_prefix [] p)) [
  | inl e ↦ let z : i ≡ 0 = ground (arith, e) in rw z e
  | inr e ↦ absurd (ground (arith, e))
]

last_first :
    (c : ℕ) (s p : Bytes) {i : ℕ}
    → last_text s p ≡ none
    → last_text (c ∷ s) p ≡ some i
    → has_prefix (drop i (c ∷ s)) p ≡ true
unfolding last_text
last_first c s p {i} n h = elim (Bool-cases (has_prefix (c ∷ s) p)) [
  | inl e ↦ let z : i ≡ 0 = ground (arith, e, n) in rw z e
  | inr e ↦ absurd (ground (arith, e, n))
]

last_later :
    (c : ℕ) (s p : Bytes) {i j : ℕ}
    → last_text s p ≡ some j
    → last_text (c ∷ s) p ≡ some i
    → i ≡ suc j
unfolding last_text
last_later c s p n h = ground (arith, n)

-- A last occurrence is an occurrence.
last_text-prefix : (s p : Bytes) {i : ℕ} → last_text s p ≡ some i → has_prefix (drop i s) p ≡ true
last_text-prefix [] p h = last_nil p h
last_text-prefix (c ∷ s) p h = elim (Option-cases (last_text s p)) [
  | inl e ↦ last_first c s p e h
  | inr (j, e) ↦ rw (last_later c s p e h) (last_text-prefix s p e)
]

last_none : (s : Bytes) → last_text s devices_close ≡ none → contains s devices_close ≡ false
unfolding last_text
last_none [] h = contains_nil devices_close (unfold has_prefix in refl)
last_none (c ∷ s) h = elim (Option-cases (last_text s devices_close)) [
  | inr (j, e) ↦ absurd (ground (arith, e, h))
  | inl e ↦ elim (Bool-cases (has_prefix (c ∷ s) devices_close)) [
    | inl here ↦ absurd (ground (arith, e, here, h))
    | inr away ↦ contains_cons c s devices_close away (last_none s e)
  ]
]

last_here :
    (c : ℕ) (s : Bytes) {i : ℕ}
    → last_text s devices_close ≡ none
    → last_text (c ∷ s) devices_close ≡ some i
    → i ≡ 0
unfolding last_text
last_here c s n h = elim (Bool-cases (has_prefix (c ∷ s) devices_close)) [
  | inl here ↦ ground (arith, n, here, h)
  | inr away ↦ absurd (ground (arith, n, away, h))
]

last_nowhere : {i : ℕ} → ¬ (last_text [] devices_close ≡ some i)
unfolding last_text has_prefix
last_nowhere h = absurd (ground (arith, h))

-- Behind the first byte of the last occurrence there is no other.
last_text-last :
    (s : Bytes) {i : ℕ}
    → last_text s devices_close ≡ some i
    → contains (drop (suc i) s) devices_close ≡ false
last_text-last [] h = absurd (last_nowhere h)
last_text-last (c ∷ s) h = elim (Option-cases (last_text s devices_close)) [
  | inl e ↦ rw (last_here c s e h) (last_none s e)
  | inr (j, e) ↦ rw (last_later c s devices_close e h) (last_text-last s e)
]

drop-suc : (i : ℕ) (s : Bytes) → drop (suc i) s ≡ drop 1 (drop i s)
drop-suc zero s = refl
drop-suc (suc i) [] = refl
drop-suc (suc i) (c ∷ s) = drop-suc i s

-- The text behind the last </devices>.
none_after :
    (xml after : Bytes) {i : ℕ}
    → last_text xml devices_close ≡ some i
    → drop i xml ≡ devices_close ++ after
    → contains after devices_close ≡ false
none_after xml after {i} h e = contains_suffix (codes "/devices>") after devices_close (
    subst (λ t. contains t devices_close ≡ false) (drop-suc i xml ∙ ap (drop 1) e)
      (last_text-last xml h))

set_present : (xml : Bytes) → (tpm_info_xml xml).present ≡ true → set_tpm_xml xml true ≡ ok xml
unfolding set_tpm_xml
set_present xml e = ground (arith, e)

set_absent :
    (xml : Bytes) {i : ℕ}
    → (tpm_info_xml xml).present ≡ false
    → last_text xml devices_close ≡ some i
    → set_tpm_xml xml true ≡ ok (take i xml ++ (tpm_device ++ drop i xml))
unfolding set_tpm_xml
set_absent xml e f = ground (arith, e, f)

set_nowhere :
    (xml out : Bytes)
    → (tpm_info_xml xml).present ≡ false
    → last_text xml devices_close ≡ none
    → ¬ (set_tpm_xml xml true ≡ ok out)
unfolding set_tpm_xml
set_nowhere xml out e f h = absurd (ground (arith, e, f))

pub clear_present :
    (xml : Bytes)
    → (tpm_info_xml xml).present ≡ true
    → set_tpm_xml xml false ≡ ok (remove_tpm (length xml) xml)
unfolding set_tpm_xml
clear_present xml e = ground (arith, e)

-- What enabling does where no TPM is there: it puts the device before the last </devices>.
pub record Inserted (xml out : Bytes) : Type 0 where
  pub before : Bytes
  pub after : Bytes
  pub absent : (tpm_info_xml xml).present ≡ false
  pub split : xml ≡ before ++ (devices_close ++ after)
  pub last : contains after devices_close ≡ false
  pub put : out ≡ before ++ (tpm_device ++ (devices_close ++ after))

ok_eq : {a b : Bytes} → ◌≡◌ {A = Result Bytes} (ok a) (ok b) → a ≡ b
ok_eq e = cc

pub inserted :
    (xml out : Bytes)
    → (tpm_info_xml xml).present ≡ false
    → set_tpm_xml xml true ≡ ok out
    → Inserted xml out
inserted xml out e h = elim (Option-cases (last_text xml devices_close)) [
  | inl n ↦ absurd (set_nowhere xml out e n h)
  | inr (i, f) ↦
      let tail =
        has_prefix-split (drop i xml) devices_close (last_text-prefix xml devices_close f) in
      let put = ok_eq (sym h ∙ set_absent xml e f) in
      record {
        before = take i xml;
        after = drop (length devices_close) (drop i xml);
        absent = e;
        split = sym (take-append-drop i xml) ∙ ap (λ t. take i xml ++ t) tail;
        last = none_after xml _ f tail;
        put = put ∙ ap (λ t. take i xml ++ (tpm_device ++ t)) tail;
      }
]

-- Enabling the TPM where it succeeds gives a configuration that has a TPM. One that had a TPM is left
-- as it is, whatever device it was; in another the device is put before the last </devices>,
-- behind which there is no other, and nothing else is changed.
pub enable_adds_tpm :
    (xml out : Bytes)
    → set_tpm_xml xml true ≡ ok out
    → ((tpm_info_xml out).present ≡ true) × ((out ≡ xml) ⊎ Inserted xml out)
enable_adds_tpm xml out h = elim (Bool-cases ((tpm_info_xml xml).present)) [
  | inl e ↦ let same = ok_eq (sym h ∙ set_present xml e) in (rw same e, inl same)
  | inr e ↦
      let r = inserted xml out e h in
      (
        rw r.put (present_of _ (Found-behind r.before _ (device-Found (devices_close ++ r.after)))),
        inr r,
      )
]
