-- ===== src/Usb/Store/Reconcile.antt =====
-- The USB reconciler restores what is pinned, and comes to rest.
use zvm_extra.Base.{
  ◌≡◌, Bool, true, Option, some, Result, ok, err, ◌⊎◌, [], All, All-map, arith, fun_ext,
}
use zvm_extra.Bytes.{Bytes}
use zvm_extra.FileStore.{Store}
use zvm_extra.Reconciler
use zvm_extra.Reconciler.{Log, Fine, IsSettled, pass_restores, pass_rests}
use zvm_extra.Handlers.Names.{valid_hex_id}
use zvm_extra.Usb.{hostdev_xml}
use zvm_extra.Usb.Store.{PinnedDevice, Controller, reconcile_one, reconcile, all}

-- What libvirt does: a device of two valid ids that it attached to the persistent configuration reads back, an
-- attachment takes no other device away, and whether a domain is defined does not change by it.
pub record IsLawful {W : Type 0} (vc : Controller W) : Type 0 where
  pub state-attach :
      (vm dom xml : Bytes) (w : W)
      → vc.state vm (vc.attach_device_config dom xml w).1 ≡ vc.state vm w
  pub has-attach :
      (vm vendor product : Bytes) (w : W)
      → valid_hex_id vendor ≡ true
      → valid_hex_id product ≡ true
      → (vc.attach_device_config vm (hostdev_xml vendor product) w).0 ≡ ok tt
      → vc.has_usb_hostdev vm vendor product
          (vc.attach_device_config vm (hostdev_xml vendor product) w).1
        ≡ ok true
  pub has_kept :
      (vm vendor product dom xml : Bytes) (w : W)
      → vc.has_usb_hostdev vm vendor product w ≡ ok true
      → vc.has_usb_hostdev vm vendor product (vc.attach_device_config dom xml w).1 ≡ ok true

-- The ids of the pin are four hexadecimal digits each, as those of a pin that a request makes are.
abbrev pub HasIds : PinnedDevice → Type 0
HasIds p = (valid_hex_id p.vendor_id ≡ true) × (valid_hex_id p.product_id ≡ true)

module _ {W : Type 0} (vc : Controller W) where
  -- Whether the domain of a pin is defined, and whether its configuration declares the device.
  abbrev pub domain : PinnedDevice → W → Result Bytes
  domain p w = vc.state p.vm w

  abbrev pub declared : PinnedDevice → W → Result Bool
  declared p w = vc.has_usb_hostdev p.vm p.vendor_id p.product_id w

  -- The domain of the pin is gone, or its persistent configuration declares the device.
  abbrev pub InPlace : PinnedDevice → W → Type 0
  InPlace p w = ((m : Bytes) × (domain p w ≡ err m)) ⊎ (declared p w ≡ ok true)

  abbrev attach : PinnedDevice → W → Option (Result (Unit {0})) × W
  attach p w =
      let (r, w') = vc.attach_device_config p.vm (hostdev_xml p.vendor_id p.product_id) w in
      (some r, w')

  attach-IsTried : (p : PinnedDevice) → Reconciler.IsTried domain declared attach p
  attach-IsTried p w = cc

  reconcile_one-eq-round : reconcile_one vc ≡ Reconciler.round domain declared attach
  unfolding reconcile_one Reconciler.round
  reconcile_one-eq-round = fun_ext λ p. fun_ext λ w. ground arith

  module _ (lawful : IsLawful vc) where
    attach-IsLawful : Reconciler.IsLawful domain declared attach HasIds
    attach-IsLawful = record {
      state-repair = λ p q w. lawful.state-attach q.vm p.vm _ w;
      check-repair =
          λ p w ids h. lawful.has-attach p.vm p.vendor_id p.product_id w ids.0 ids.1 (ground arith);
      check_kept = λ p q w h. lawful.has_kept q.vm q.vendor_id q.product_id p.vm _ w h;
    }

    -- Where the controller is lawful, after a pass every pin of valid ids at which no failure was
    -- logged is in place: its domain is gone, or its persistent configuration declares the device.
    pub reconcile_restores_usb :
        (s : Store PinnedDevice) (w : W)
        → All
            (λ p. HasIds p → All (Fine p) (reconcile vc s w).0 → InPlace p (reconcile vc s w).1)
            (all s)
    unfolding reconcile
    reconcile_restores_usb s w = rw reconcile_one-eq-round (
        All-map (λ p h ids. h (ids, attach-IsTried p)) (all s)
          (pass_restores domain declared attach HasIds attach-IsLawful (all s) w))

    -- Where the controller is lawful and every pin has valid ids, the pass after a pass that
    -- logged no failure at any pin changes nothing and logs nothing.
    pub reconcile_rests_usb :
        (s : Store PinnedDevice) (w : W)
        → All HasIds (all s)
        → All (λ p. All (Fine p) (reconcile vc s w).0) (all s)
        → reconcile vc s (reconcile vc s w).1 ≡ ([], (reconcile vc s w).1)
    unfolding reconcile
    reconcile_rests_usb s w ids = rw reconcile_one-eq-round (
        pass_rests domain declared attach HasIds attach-IsLawful (all s) w
          (All-map (λ p h. (h, attach-IsTried p)) (all s) ids))
