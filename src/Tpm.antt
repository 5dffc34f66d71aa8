-- ===== src/Tpm.antt =====
-- internal/tpm/store.go: the domains that keep a TPM device, and their reconciler.
pub mod Saved
pub mod Reconcile
use zvm_extra.Base.{Bool, true, false, Option, none, some, Result, ok, err, List, [], ◌∷◌, ◌>>=◌}
use zvm_extra.Bytes.{Bytes, codes}
use zvm_extra.Dict.{Dict, get, put, remove}
use zvm_extra.FileStore.{Codec, Disk, SaveCalls, Store, save_entries, read_entries}
use zvm_extra.ForEach.{for_each}
use zvm_extra.Reconciler.{Log, check_failed, repair_failed, restored}

-- Domain name to pinned.
abbrev pub Pins : Type 0
Pins = Dict Bool

pub record Tpms : Type 0 where
  pub pins : Pins
  pub disk : Disk

-- for _, vm := range vms { s.data[vm] = true }
pin_all : Pins → List Bytes → Pins
pin_all d [] = d
pin_all d (vm ∷ vms) = pin_all (put vm true d) vms

-- for vm := range s.data
names : Pins → List Bytes
names [] = []
names ((vm, b) ∷ d) = vm ∷ names d

module _ (codec : Codec Bytes) where
  unfoldable pub new_store : Option Bytes → Disk → Result Tpms
  unfolding read_entries pin_all
  new_store unreadable d = do
    vms ← read_entries codec (codes "tpm store decode: ") unreadable d
    ok (record { pins = pin_all [] vms; disk = d })

  unfoldable pub save_locked : SaveCalls → Tpms → Result (Unit {0}) × Tpms
  unfolding save_entries names
  save_locked calls s =
      let (r, d) = save_entries codec calls (names s.pins) s.disk in (r, record s { disk = d })

  unfoldable pub pin : SaveCalls → Bytes → Tpms → Result (Unit {0}) × Tpms
  unfolding save_locked
  pin calls vm s = save_locked calls (record s { pins = put vm true s.pins })

  unfoldable pub unpin : SaveCalls → Bytes → Tpms → Result (Unit {0}) × Tpms
  unfolding save_locked
  unpin calls vm s = save_locked calls (record s { pins = remove vm s.pins })

pinned_in : Option Bool → Bool
pinned_in none = false
pinned_in (some b) = b

unfoldable pub pinned : Bytes → Tpms → Bool
unfolding pinned_in
pinned vm s = pinned_in (get s.pins vm)

unfoldable pub all : Tpms → List Bytes
unfolding names
all s = names s.pins

pub record Controller (W : Type 0) : Type 0 where
  pub state : Bytes → W → Result Bytes
  -- whether a TPM is present, its model and its version
  pub tpm_info : Bytes → W → Result (Bool × Bytes × Bytes)
  pub set_tpm : Bytes → Bool → W → Result (Unit {0}) × W

module _ {W : Type 0} (vc : Controller W) where
  repair : Bytes → W → List (Log Bytes) × W
  repair vm w =
      let (r, w') = vc.set_tpm vm true w in
      elim r [ err m ↦ (repair_failed vm m ∷ [], w') | ok _ ↦ (restored vm ∷ [], w') ]

  unfoldable pub reconcile_one : Bytes → W → List (Log Bytes) × W
  unfolding repair
  reconcile_one vm w = elim (vc.state vm w) [
    | err _ ↦ ([], w)
    | ok _ ↦ elim (vc.tpm_info vm w) [
      | err m ↦ (check_failed vm m ∷ [], w)
      | ok (true, _, _) ↦ ([], w)
      | ok (false, _, _) ↦ repair vm w
    ]
  ]

  unfoldable pub reconcile : Tpms → W → List (Log Bytes) × W
  unfolding for_each reconcile_one
  reconcile s w = for_each reconcile_one (all s) w
