-- ===== src/Virsh/TpmXml/Restore.antt =====
-- internal/virsh/tpm.go: a TPM that was put in is taken out again.
use zvm_extra.Base.{
  ℕ, zero, suc, ◌<◌, ◌≡◌, refl, ap, subst, ◌∙◌, true, false, some, none, ok, ◌++◌, arith, length,
  append_assoc, length-append,
}
use zvm_extra.Bytes.{Bytes, contains}
use zvm_extra.Bytes.Contains.{contains_suffix, contains_prefix}
use zvm_extra.Virsh.TpmXml.{
  TpmMatch, find_tpm, remove_tpm, tpm_open, tpm_device, set_tpm_xml, devices_close, span, is_white,
}
use zvm_extra.Virsh.TpmXml.Search.{device_match, Blanks, find_behind, find_none}
use zvm_extra.Virsh.TpmXml.Edit.{Inserted, inserted, present_of, absent_of, clear_present}

no_white : (a : Bytes) → (span is_white (devices_close ++ a)).1 ≡ devices_close ++ a
unfolding span is_white
no_white a = refl

remove_none : (n : ℕ) (s : Bytes) → find_tpm s ≡ none → remove_tpm n s ≡ s
unfolding remove_tpm
remove_none zero s e = refl
remove_none (suc n) s e = ground (arith, e)

remove_step :
    (n : ℕ) (s b : Bytes) {m : TpmMatch}
    → find_tpm s ≡ some (b, m)
    → remove_tpm (suc n) s ≡ b ++ remove_tpm n m.after
unfolding remove_tpm
remove_step n s b e = ground (arith, e)

remove_one :
    (n : ℕ) (s b : Bytes) {m : TpmMatch}
    → 0 < n
    → find_tpm s ≡ some (b, m)
    → find_tpm m.after ≡ none
    → remove_tpm n s ≡ b ++ m.after
remove_one zero s b p e f = absurd (omega arith)
remove_one (suc n) s b {m} p e f = remove_step n s b e ∙ ap (λ t. b ++ t) (remove_none n m.after f)

nonempty : (xml out : Bytes) → Inserted xml out → 0 < length out
nonempty xml out r =
    let e : length out ≡ length (r.before ++ (tpm_device ++ (devices_close ++ r.after))) =
      ap length r.put in
    omega (arith, e, length-append r.before (tpm_device ++ (devices_close ++ r.after)))

-- What the configuration was: the same but for blanks before what follows the device.
pub record Restored (xml out : Bytes) : Type 0 where
  pub kept : Bytes
  pub indent : Bytes
  pub rest : Bytes
  pub after : Bytes
  pub closed : rest ≡ devices_close ++ after
  pub last : contains after devices_close ≡ false
  pub original : xml ≡ kept ++ (indent ++ rest)
  pub blank : Blanks indent
  pub cleared : set_tpm_xml out false ≡ ok (kept ++ rest)

-- In a configuration that does not have the text <tpm, where enabling the TPM succeeds, disabling it then
-- gives the configuration that was there before, without the blanks in front of its last
-- </devices>, behind which there is no other.
pub disable_restores :
    (xml out : Bytes)
    → contains xml tpm_open ≡ false
    → set_tpm_xml xml true ≡ ok out
    → Restored xml out
disable_restores xml out h e =
    let r = inserted xml out (absent_of xml (find_none xml h)) e in
    let a = devices_close ++ r.after in
    let whole : contains (r.before ++ a) tpm_open ≡ false =
      subst (λ t. contains t tpm_open ≡ false) r.split h in
    let f = find_behind r.before _ (contains_prefix r.before a tpm_open whole) (device_match a) in
    let clean : find_tpm (span is_white a).1 ≡ none =
      rw (no_white r.after) (find_none a (contains_suffix r.before a tpm_open whole)) in
    let found : find_tpm out ≡ some (f.kept, _) = ap find_tpm r.put ∙ f.found in
    record {
      kept = f.kept;
      indent = f.indent;
      rest = a;
      after = r.after;
      closed = refl;
      last = r.last;
      original = r.split ∙ ap (λ t. t ++ a) f.spelled ∙ append_assoc f.kept f.indent a;
      blank = f.blank;
      cleared =
          clear_present out (present_of out (f.kept, _, found))
          ∙ ap ok (
              remove_one (length out) out f.kept (nonempty xml out r) found clean
              ∙ ap (λ t. f.kept ++ t) (no_white r.after));
    }
