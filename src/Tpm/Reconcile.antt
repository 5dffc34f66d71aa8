-- ===== src/Tpm/Reconcile.antt =====
-- The TPM reconciler restores what is pinned, and comes to rest.
use zvm_extra.Base.{
  ◌≡◌, ◌⊎◌, Bool, true, Option, some, Result, ok, err, [], All, All-map, All-intro, arith, fun_ext,
  ◌>>=◌,
}
use zvm_extra.Bytes.{Bytes}
use zvm_extra.Reconciler
use zvm_extra.Reconciler.{Fine, pass_restores, pass_rests}
use zvm_extra.Tpm.{Tpms, Controller, reconcile_one, reconcile, all}

module _ {W : Type 0} (vc : Controller W) where
  abbrev domain : Bytes → W → Result Bytes
  domain vm w = vc.state vm w

  -- The first result of `TPMInfo`.
  abbrev pub present : Bytes → W → Result Bool
  present vm w = do info ← vc.tpm_info vm w; ok (info.0)

  -- What libvirt does: a TPM that was defined reads back, defining one takes no other away, and
  -- whether a domain is defined does not change by it.
  pub record IsLawful : Type 0 where
    pub state-set_tpm :
        (vm dom : Bytes) (w : W) → vc.state vm (vc.set_tpm dom true w).1 ≡ vc.state vm w
    pub present-set_tpm :
        (vm : Bytes) (w : W)
        → (vc.set_tpm vm true w).0 ≡ ok tt
        → present vm (vc.set_tpm vm true w).1 ≡ ok true
    pub present_kept :
        (vm dom : Bytes) (w : W)
        → present vm w ≡ ok true
        → present vm (vc.set_tpm dom true w).1 ≡ ok true

  -- The domain is gone, or its persistent configuration declares a TPM.
  abbrev pub InPlace : Bytes → W → Type 0
  InPlace vm w = ((m : Bytes) × (vc.state vm w ≡ err m)) ⊎ (present vm w ≡ ok true)

  abbrev enable : Bytes → W → Option (Result (Unit {0})) × W
  enable vm w = let (r, w') = vc.set_tpm vm true w in (some r, w')

  enable-IsTried : (vm : Bytes) → Reconciler.IsTried domain present enable vm
  enable-IsTried vm w = cc

  reconcile_one-eq-round : reconcile_one vc ≡ Reconciler.round domain present enable
  unfolding reconcile_one Reconciler.round
  reconcile_one-eq-round = fun_ext λ vm. fun_ext λ w. ground arith

  module _ (lawful : IsLawful) where
    enable-IsLawful : Reconciler.IsLawful domain present enable (λ _. Unit {0})
    enable-IsLawful = record {
      state-repair = λ vm q w. lawful.state-set_tpm q vm w;
      check-repair = λ vm w _ h. lawful.present-set_tpm vm w (ground arith);
      check_kept = λ vm q w h. lawful.present_kept q vm w h;
    }

    -- Where the controller is lawful, after a pass every pinned domain at which no failure was
    -- logged is gone or has its TPM.
    pub reconcile_restores_tpm :
        (s : Tpms) (w : W)
        → All (λ vm. All (Fine vm) (reconcile vc s w).0 → InPlace vm (reconcile vc s w).1) (all s)
    unfolding reconcile
    reconcile_restores_tpm s w = rw reconcile_one-eq-round (
        All-map (λ vm h. h (tt, enable-IsTried vm)) (all s)
          (pass_restores domain present enable (λ _. Unit {0}) enable-IsLawful (all s) w))

    -- Where the controller is lawful, the pass after a pass that logged no failure at any pinned
    -- domain changes nothing and logs nothing.
    pub reconcile_rests_tpm :
        (s : Tpms) (w : W)
        → All (λ vm. All (Fine vm) (reconcile vc s w).0) (all s)
        → reconcile vc s (reconcile vc s w).1 ≡ ([], (reconcile vc s w).1)
    unfolding reconcile
    reconcile_rests_tpm s w = rw reconcile_one-eq-round (
        pass_rests domain present enable (λ _. Unit {0}) enable-IsLawful (all s) w
          (All-intro (λ vm. (tt, enable-IsTried vm)) (all s)))
