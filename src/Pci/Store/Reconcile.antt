-- ===== src/Pci/Store/Reconcile.antt =====
-- The PCI reconciler restores what is pinned, and comes to rest.
use zvm_extra.Base.{
  ◌≡◌, refl, ◌⊎◌, Bool, true, Option, none, some, Result, ok, err, [], All, All-map, arith, fun_ext,
}
use zvm_extra.Bytes.{Bytes}
use zvm_extra.FileStore.{Store}
use zvm_extra.Reconciler
use zvm_extra.Reconciler.{Fine, pass_restores, pass_rests}
use zvm_extra.Pci.{hostdev_xml, valid_address}
use zvm_extra.Pci.Address.{hostdev_xml_total}
use zvm_extra.Pci.Store.{PinnedDevice, Controller, reconcile_one, reconcile, all}

-- What libvirt does: a device that it attached to the persistent configuration reads back, an
-- attachment takes no other device away, and whether a domain is defined does not change by it.
pub record IsLawful {W : Type 0} (vc : Controller W) : Type 0 where
  pub state-attach :
      (vm dom xml : Bytes) (w : W)
      → vc.state vm (vc.attach_device_config dom xml w).1 ≡ vc.state vm w
  pub has-attach :
      (vm address xml : Bytes) (w : W)
      → hostdev_xml address ≡ ok xml
      → (vc.attach_device_config vm xml w).0 ≡ ok tt
      → vc.has_pci_hostdev vm address (vc.attach_device_config vm xml w).1 ≡ ok true
  pub has_kept :
      (vm address dom xml : Bytes) (w : W)
      → vc.has_pci_hostdev vm address w ≡ ok true
      → vc.has_pci_hostdev vm address (vc.attach_device_config dom xml w).1 ≡ ok true

module _ {W : Type 0} (vc : Controller W) where
  abbrev domain : PinnedDevice → W → Result Bytes
  domain p w = vc.state p.vm w

  abbrev declared : PinnedDevice → W → Result Bool
  declared p w = vc.has_pci_hostdev p.vm p.address w

  -- The domain of the pin is gone, or its persistent configuration declares the device.
  abbrev pub InPlace : PinnedDevice → W → Type 0
  InPlace p w =
      ((m : Bytes) × (vc.state p.vm w ≡ err m)) ⊎ (vc.has_pci_hostdev p.vm p.address w ≡ ok true)

  attach_xml : PinnedDevice → Result Bytes → W → Option (Result (Unit {0})) × W
  attach_xml p (err _) w = (none, w)
  attach_xml p (ok xml) w = let (r, w') = vc.attach_device_config p.vm xml w in (some r, w')

  abbrev attach : PinnedDevice → W → Option (Result (Unit {0})) × W
  attach p w = attach_xml p (hostdev_xml p.address) w

  attach-IsTried :
      (p : PinnedDevice)
      → valid_address p.address ≡ true
      → Reconciler.IsTried domain declared attach p
  unfolding attach_xml
  attach-IsTried p valid w none_tried =
      let (xml, e) = hostdev_xml_total p.address valid in ground (arith, e)

  reconcile_one-eq-round : reconcile_one vc ≡ Reconciler.round domain declared attach
  unfolding reconcile_one Reconciler.round attach_xml
  reconcile_one-eq-round = fun_ext λ p. fun_ext λ w. ground arith

  module _ (lawful : IsLawful vc) where
    state-attach_xml :
        (p q : PinnedDevice) (x : Result Bytes) (w : W) → domain q (attach_xml p x w).1 ≡ domain q w
    unfolding attach_xml
    state-attach_xml p q (err m) w = refl
    state-attach_xml p q (ok xml) w = lawful.state-attach q.vm p.vm xml w

    declared-attach_xml :
        (p : PinnedDevice) (x : Result Bytes) (w : W)
        → hostdev_xml p.address ≡ x
        → (attach_xml p x w).0 ≡ some (ok tt)
        → declared p (attach_xml p x w).1 ≡ ok true
    unfolding attach_xml
    declared-attach_xml p (err m) w e h = cc
    declared-attach_xml p (ok xml) w e h = lawful.has-attach p.vm p.address xml w e (ground arith)

    declared_kept :
        (p q : PinnedDevice) (x : Result Bytes) (w : W)
        → declared q w ≡ ok true
        → declared q (attach_xml p x w).1 ≡ ok true
    unfolding attach_xml
    declared_kept p q (err m) w h = h
    declared_kept p q (ok xml) w h = lawful.has_kept q.vm q.address p.vm xml w h

    attach-IsLawful : Reconciler.IsLawful domain declared attach (λ _. Unit {0})
    attach-IsLawful = record {
      state-repair = λ p q w. state-attach_xml p q (hostdev_xml p.address) w;
      check-repair = λ p w _ h. declared-attach_xml p (hostdev_xml p.address) w refl h;
      check_kept = λ p q w h. declared_kept p q (hostdev_xml p.address) w h;
    }

    -- Where the controller is lawful, after a pass every pin with a valid address at which no
    -- failure was logged is in place: its domain is gone, or its persistent configuration declares
    -- the device.
    pub reconcile_restores_pci :
        (s : Store PinnedDevice) (w : W)
        → All
            (λ p.
              valid_address p.address ≡ true
              → All (Fine p) (reconcile vc s w).0
              → InPlace p (reconcile vc s w).1)
            (all s)
    unfolding reconcile
    reconcile_restores_pci s w = rw reconcile_one-eq-round (
        All-map (λ p h valid. h (tt, attach-IsTried p valid)) (all s)
          (pass_restores domain declared attach (λ _. Unit {0}) attach-IsLawful (all s) w))

    -- Where the controller is lawful and every pinned address is valid, the pass after a pass that
    -- logged no failure at any pin changes nothing and logs nothing.
    pub reconcile_rests_pci :
        (s : Store PinnedDevice) (w : W)
        → All (λ p. valid_address p.address ≡ true) (all s)
        → All (λ p. All (Fine p) (reconcile vc s w).0) (all s)
        → reconcile vc s (reconcile vc s w).1 ≡ ([], (reconcile vc s w).1)
    unfolding reconcile
    reconcile_rests_pci s w valid = rw reconcile_one-eq-round (
        pass_rests domain declared attach (λ _. Unit {0}) attach-IsLawful (all s) w
          (All-map (λ p h. (tt, attach-IsTried p h)) (all s) valid))
