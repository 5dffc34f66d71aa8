-- ===== src/Examples/TpmPins.antt =====
-- A domain that is to keep its TPM.
use zvm_extra.Base.{◌≡◌, refl, true, none, ok, [], ◌∷◌, arith, All, if◌then◌else◌}
use zvm_extra.Bytes.{Bytes, codes, bytes_eq}
use zvm_extra.FileStore.{Codec}
use zvm_extra.Reconciler.{Fine}
use zvm_extra.Examples.Hosts.{
  Attached, has, has-same, Has-more, running, no_files, all_well, codec_of, codec_of-ReadsBack,
}
use zvm_extra.Tpm.{Tpms, Controller, all, reconcile, pin, pinned, new_store}
use zvm_extra.Tpm.Saved.{Edit, edited, pinned_by, edit, reopen-edit_tpm}
use zvm_extra.Tpm.Reconcile.{IsLawful, InPlace, reconcile_restores_tpm}

abbrev host : Controller Attached
host = record {
  state = λ vm w. running;
  tpm_info = λ vm w. ok (has vm (codes "tpm") w, codes "tpm-crb", codes "2.0");
  set_tpm = λ vm on w. (ok tt, (vm, codes "tpm") ∷ w);
}

host-IsLawful : IsLawful host
host-IsLawful = record {
  state-set_tpm = λ vm dom w. refl;
  present-set_tpm = λ vm w _. rw (has-same vm (codes "tpm") w);
  present_kept =
      λ vm dom w h. rw (Has-more vm (codes "tpm") dom (codes "tpm") w (ground (arith, h)));
}

abbrev win : Bytes
win = codes "win11"

abbrev pins : Tpms
pins = record { pins = (win, true) ∷ []; disk = no_files }

reconcile_restores_tpm_example :
    All
      (λ vm. All (Fine vm) (reconcile host pins []).0 → InPlace host vm (reconcile host pins []).1)
      (all pins)
reconcile_restores_tpm_example = reconcile_restores_tpm host host-IsLawful pins []

win-Fine : All (λ vm. All (Fine vm) (reconcile host pins []).0) (all pins)
unfolding reconcile all has
win-Fine = ((tt, tt), tt)

abbrev empty_store : Tpms
empty_store = record { pins = []; disk = no_files }

abbrev codec : Codec Bytes
codec = codec_of (codes "[\"win11\"]") (win ∷ [])

reopen-edit_tpm_example :
    (t : Tpms) × (new_store codec none (edit codec all_well (Edit.pinning win) empty_store).1.disk
      ≡ ok t)
    × ((j : Bytes)
        → pinned j t ≡ (
            if bytes_eq (edited (Edit.pinning win)) j
            then pinned_by (Edit.pinning win)
            else pinned j empty_store))
unfolding all pin zvm_extra.Dict.put zvm_extra.Dict.remove
reopen-edit_tpm_example =
    reopen-edit_tpm codec all_well (Edit.pinning win) empty_store tt
      (codec_of-ReadsBack b'[' (codes "\"win11\"]") (win ∷ [])) refl
