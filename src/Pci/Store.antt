-- ===== src/Pci/Store.antt =====
-- internal/pci/store.go: the pinned PCI devices and their reconciler.
pub mod Reconcile
use zvm_extra.Base.{Bool, true, false, Option, Result, ok, err, List, [], ◌∷◌, ◌++◌, if◌then◌else◌}
use zvm_extra.Bytes.{Bytes, codes, bytes_eq}
use zvm_extra.Dict.{values}
use zvm_extra.FileStore
use zvm_extra.FileStore.{Codec, Disk, SaveCalls, Store}
use zvm_extra.ForEach.{for_each}
use zvm_extra.Reconciler.{Log, check_failed, repair_failed, restored}
use zvm_extra.Pci.{hostdev_xml}

pub record PinnedDevice : Type 0 where
  pub vm : Bytes
  pub address : Bytes
  pub description : Bytes

unfoldable pub key : PinnedDevice → Bytes
key p = p.vm ++ b'/' ∷ p.address

module _ (codec : Codec PinnedDevice) where
  unfoldable pub new_store : Option Bytes → Disk → Result (Store PinnedDevice)
  unfolding FileStore.new_store
  new_store unreadable d = FileStore.new_store codec key (codes "pci store decode: ") unreadable d

  unfoldable pub save_locked :
      SaveCalls → Store PinnedDevice → Result (Unit {0}) × Store PinnedDevice
  unfolding FileStore.save_locked
  save_locked calls s = FileStore.save_locked codec key calls s

  unfoldable pub add :
      SaveCalls → PinnedDevice → Store PinnedDevice → Result (Unit {0}) × Store PinnedDevice
  unfolding FileStore.upsert
  add calls p s = FileStore.upsert codec key calls p s

  unfoldable pub remove :
      SaveCalls → Bytes → Bytes → Store PinnedDevice → Result (Unit {0}) × Store PinnedDevice
  unfolding FileStore.delete
  remove calls vm address s =
      FileStore.delete codec key calls
        (key (record { vm = vm; address = address; description = [] })) s

unfoldable pub all : Store PinnedDevice → List PinnedDevice
all s = values s.entries

of_vm : Bytes → List PinnedDevice → List PinnedDevice
of_vm vm [] = []
of_vm vm (p ∷ ps) = if bytes_eq p.vm vm then p ∷ of_vm vm ps else of_vm vm ps

unfoldable pub for_vm : Bytes → Store PinnedDevice → List PinnedDevice
unfolding of_vm
for_vm vm s = of_vm vm (values s.entries)

pub record Controller (W : Type 0) : Type 0 where
  pub state : Bytes → W → Result Bytes
  pub has_pci_hostdev : Bytes → Bytes → W → Result Bool
  pub attach_device_config : Bytes → Bytes → W → Result (Unit {0}) × W

module _ {W : Type 0} (vc : Controller W) where
  -- An address that is not valid is passed over without a line.
  repair : PinnedDevice → W → List (Log PinnedDevice) × W
  repair p w = elim (hostdev_xml p.address) [
    | err _ ↦ ([], w)
    | ok xml ↦
        let (r, w') = vc.attach_device_config p.vm xml w in
        elim r [ err m ↦ (repair_failed p m ∷ [], w') | ok _ ↦ (restored p ∷ [], w') ]
  ]

  unfoldable pub reconcile_one : PinnedDevice → W → List (Log PinnedDevice) × W
  unfolding repair
  reconcile_one p w = elim (vc.state p.vm w) [
    | err _ ↦ ([], w)
    | ok _ ↦ elim (vc.has_pci_hostdev p.vm p.address w) [
      | err m ↦ (check_failed p m ∷ [], w)
      | ok true ↦ ([], w)
      | ok false ↦ repair p w
    ]
  ]

  unfoldable pub reconcile : Store PinnedDevice → W → List (Log PinnedDevice) × W
  unfolding for_each reconcile_one
  reconcile s w = for_each reconcile_one (all s) w
