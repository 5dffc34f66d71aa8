-- ===== src/Examples/PciPins.antt =====
-- A PCI device that is pinned to a domain.
use zvm_extra.Base.{◌≡◌, refl, Bool, true, false, ◌↔◌, Result, ok, err, [], ◌∷◌, arith, All}
use zvm_extra.Bytes.{Bytes, codes, bytes_eq}
use zvm_extra.FileStore.{Store}
use zvm_extra.Reconciler.{Fine}
use zvm_extra.Examples.Hosts.{Attached, has, has-same, Has-more, running, no_files}
use zvm_extra.Pci.{hostdev_xml, valid_address}
use zvm_extra.Pci.Address.{IsAddress, valid_address_iff}
use zvm_extra.Pci.Store.{PinnedDevice, Controller, key, all, reconcile}
use zvm_extra.Pci.Store.Reconcile.{IsLawful, InPlace, reconcile_restores_pci}

-- Whether the domain has the device with this XML.
abbrev declares : Bytes → Result Bytes → Attached → Result Bool
declares vm (err m) w = ok false
declares vm (ok xml) w = ok (has vm xml w)

abbrev host : Controller Attached
host = record {
  state = λ vm w. running;
  has_pci_hostdev = λ vm address w. declares vm (hostdev_xml address) w;
  attach_device_config = λ vm xml w. (ok tt, (vm, xml) ∷ w);
}

declares_more :
    (vm dom x : Bytes) (r : Result Bytes) (w : Attached)
    → declares vm r w ≡ ok true
    → declares vm r ((dom, x) ∷ w) ≡ ok true
declares_more vm dom x (err m) w h = cc
declares_more vm dom x (ok xml) w h = rw (Has-more vm xml dom x w (ground (arith, h)))

host-IsLawful : IsLawful host
host-IsLawful = record {
  state-attach = λ vm dom xml w. refl;
  has-attach = λ vm address xml w e _. rw (e, has-same vm xml w);
  has_kept = λ vm address dom xml w h. declares_more vm dom xml (hostdev_xml address) w h;
}

abbrev card : PinnedDevice
card = record { vm = codes "debian"; address = codes "0000:01:00.0"; description = codes "GPU" }

abbrev pins : Store PinnedDevice
pins = record { entries = (key card, card) ∷ []; disk = no_files }

reconcile_restores_pci_example :
    All
      (λ p.
        valid_address p.address ≡ true
        → All (Fine p) (reconcile host pins []).0
        → InPlace host p (reconcile host pins []).1)
      (all pins)
reconcile_restores_pci_example = reconcile_restores_pci host host-IsLawful pins []

card_valid : All (λ p. valid_address p.address ≡ true) (all pins)
unfolding all zvm_extra.Dict.values valid_address zvm_extra.Bytes.cut bytes_eq
card_valid = (refl, tt)

card-Fine : All (λ p. All (Fine p) (reconcile host pins []).0) (all pins)
unfolding reconcile all has zvm_extra.Dict.values hostdev_xml valid_address zvm_extra.Bytes.cut
    bytes_eq zvm_extra.Pci.address_parts
card-Fine = ((tt, tt), tt)

valid_address_iff_example : (valid_address (codes "0000:01:00.0") ≡ true) ↔ (
    IsAddress (codes "0000:01:00.0")
    × ((xml : Bytes) × (hostdev_xml (codes "0000:01:00.0") ≡ ok xml)))
valid_address_iff_example = valid_address_iff (codes "0000:01:00.0")
