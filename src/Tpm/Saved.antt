-- ===== src/Tpm/Saved.antt =====
-- The pins survive a restart.
use zvm_extra.Base.{
  ◌≡◌, refl, ◌∙◌, Bool, true, false, Option, none, some, Result, ok, List, [], ◌∷◌, arith,
  if◌then◌else◌, Bool-cases, inl, inr,
}
use zvm_extra.Bytes.{Bytes, bytes_eq, codes}
use zvm_extra.Dict.{get, put, remove, get-put, get-remove, remove-cons}
use zvm_extra.FileStore.{Codec, Disk, SaveCalls, save_entries, read_entries}
use zvm_extra.FileStore.Reload.{ReadsBack, read-save_entries}
use zvm_extra.Tpm.{Tpms, Pins, pin_all, names, new_store, save_locked, pin, unpin, all, pinned}

-- A change of the store.
pub data Edit : Type 0 where
  pinning : Bytes → Edit
  unpinning : Bytes → Edit

abbrev pub edited : Edit → Bytes
edited (pinning vm) = vm
edited (unpinning vm) = vm

abbrev pub pinned_by : Edit → Bool
pinned_by (pinning vm) = true
pinned_by (unpinning vm) = false

abbrev pub edit : Codec Bytes → SaveCalls → Edit → Tpms → Result (Unit {0}) × Tpms
edit codec calls (pinning vm) s = pin codec calls vm s
edit codec calls (unpinning vm) s = unpin codec calls vm s

-- The store never holds `false`.
abbrev AllTrue : Pins → Type 0
AllTrue [] = Unit
AllTrue ((vm, b) ∷ d) = (b ≡ true) × AllTrue d

abbrev pub IsValid : Tpms → Type 0
IsValid s = AllTrue s.pins

pinned-get : (vm : Bytes) (d : Pins) (b : Bool) → AllTrue d → get d vm ≡ some b → b ≡ true
unfolding get
pinned-get vm [] b t h = cc
pinned-get vm ((j, c) ∷ d) b (tc, t) h = ground (arith, pinned-get vm d b t)

AllTrue-remove : (vm : Bytes) (d : Pins) → AllTrue d → AllTrue (remove vm d)
AllTrue-remove vm [] t = unfold remove in tt
AllTrue-remove vm ((j, c) ∷ d) (tc, t) = elim (Bool-cases (bytes_eq j vm)) [
  | inl e ↦ rw (remove-cons vm j c d, e) (AllTrue-remove vm d t)
  | inr e ↦ rw (remove-cons vm j c d, e) (tc, AllTrue-remove vm d t)
]

abbrev or_else : Option Bool → Option Bool → Option Bool
or_else none o = o
or_else (some b) o = some b

get-pin_all :
    (c d : Pins) (vm : Bytes)
    → AllTrue d
    → get (pin_all c (names d)) vm ≡ or_else (get d vm) (get c vm)
unfolding pin_all names get
get-pin_all c [] vm t = refl
get-pin_all c ((j, b) ∷ d) vm (tb, t) =
    get-pin_all (put j true c) d vm t
    ∙ ground (arith, get-put j vm true c, pinned-get vm d true t, tb, pinned-get vm d false t)

put-AllTrue : (vm : Bytes) (d : Pins) → AllTrue d → AllTrue (put vm true d)
unfolding put
put-AllTrue vm d t = (refl, AllTrue-remove vm d t)

or_else-none : (vm : Bytes) (d : Pins) → or_else (get d vm) (get [] vm) ≡ get d vm
unfolding get
or_else-none vm d = ground arith

module _ (codec : Codec Bytes) where
  new_store_lem :
      (d : Disk) {vms : List Bytes}
      → read_entries codec (codes "tpm store decode: ") none d ≡ ok vms
      → new_store codec none d ≡ ok (record { pins = pin_all [] vms; disk = d })
  unfolding new_store
  new_store_lem d e = rw e

  module _ (calls : SaveCalls) where
    reopen-save :
        (s : Tpms)
        → IsValid s
        → ReadsBack codec (names s.pins)
        → (save_locked codec calls s).0 ≡ ok tt
        → (t : Tpms) × (new_store codec none (save_locked codec calls s).1.disk ≡ ok t)
          × ((vm : Bytes) → get t.pins vm ≡ get s.pins vm)
    unfolding save_locked
    reopen-save s v reads h = (
      record {
        pins = pin_all [] (names s.pins);
        disk = (save_entries codec calls (names s.pins) s.disk).1;
      },
      new_store_lem _ (
          read-save_entries codec (codes "tpm store decode: ") calls (names s.pins) s.disk reads h),
      λ vm. get-pin_all [] s.pins vm v ∙ or_else-none vm s.pins,
    )

    reopen-pin :
        (vm : Bytes) (s : Tpms)
        → IsValid s
        → ReadsBack codec (all (pin codec calls vm s).1)
        → (pin codec calls vm s).0 ≡ ok tt
        → (t : Tpms) × (new_store codec none (pin codec calls vm s).1.disk ≡ ok t)
          × ((j : Bytes) → pinned j t ≡ (if bytes_eq vm j then true else pinned j s))
    unfolding pin pinned all
    reopen-pin vm s v reads h =
        let (t, e, same) =
          reopen-save (record s { pins = put vm true s.pins }) (put-AllTrue vm s.pins v) reads h in
        (t, e, λ j. ground (arith, same j, get-put vm j true s.pins))

    reopen-unpin :
        (vm : Bytes) (s : Tpms)
        → IsValid s
        → ReadsBack codec (all (unpin codec calls vm s).1)
        → (unpin codec calls vm s).0 ≡ ok tt
        → (t : Tpms) × (new_store codec none (unpin codec calls vm s).1.disk ≡ ok t)
          × ((j : Bytes) → pinned j t ≡ (if bytes_eq vm j then false else pinned j s))
    unfolding unpin pinned all
    reopen-unpin vm s v reads h =
        let (t, e, same) =
          reopen-save (record s { pins = remove vm s.pins }) (AllTrue-remove vm s.pins v) reads h in
        (t, e, λ j. ground (arith, same j, get-remove vm j s.pins))

    -- In a valid store whose array JSON reads back, after a Pin or an Unpin that was saved and a
    -- restart that domain is pinned, or not, and every other one is pinned as it was before.
    pub reopen-edit_tpm :
        (e : Edit) (s : Tpms)
        → IsValid s
        → ReadsBack codec (all (edit codec calls e s).1)
        → (edit codec calls e s).0 ≡ ok tt
        → (t : Tpms) × (new_store codec none (edit codec calls e s).1.disk ≡ ok t)
          × ((j : Bytes) → pinned j t ≡ (if bytes_eq (edited e) j then pinned_by e else pinned j s))
    reopen-edit_tpm (pinning vm) s v reads h = reopen-pin vm s v reads h
    reopen-edit_tpm (unpinning vm) s v reads h = reopen-unpin vm s v reads h
