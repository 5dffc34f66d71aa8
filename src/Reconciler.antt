-- ===== src/Reconciler.antt =====
-- The round that the USB, PCI and TPM reconcilers make for one pin: skip a domain that is gone,
-- check the persistent configuration, repair it if the device is missing.
use zvm_extra.Base.{
  ◌≡◌, ◌≢◌, ◌∙◌, ◌⊎◌, inl, inr, Bool, true, false, Option, none, some, Result, ok, err, List, [],
  ◌∷◌, arith, All, All-apply, All-intro, Pairwise-intro, Result-cases,
}
use zvm_extra.Bytes.{Bytes}
use zvm_extra.ForEach.{for_each, for_each-settles, for_each_idle}

-- The lines that a reconciler writes about a pin.
pub data Log (E : Type 0) : Type 0 where
  check_failed : E → Bytes → Log E
  repair_failed : E → Bytes → Log E
  restored : E → Log E

-- The line tells of no failure at the pin `q`.
abbrev pub Fine : {E : Type 0} → E → Log E → Type 0
Fine q (check_failed e m) = e ≢ q
Fine q (repair_failed e m) = e ≢ q
Fine q (restored e) = Unit

-- `repair` gives `none` where no repair is tried.
module _ {E W : Type 0} (state : E → W → Result Bytes) (check : E → W → Result Bool)
    (repair : E → W → Option (Result (Unit {0})) × W) where
  report : E → Option (Result (Unit {0})) → List (Log E)
  report e none = []
  report e (some (err m)) = repair_failed e m ∷ []
  report e (some (ok _)) = restored e ∷ []

  mend : E → W → List (Log E) × W
  mend e w = (report e (repair e w).0, (repair e w).1)

  unfoldable pub round : E → W → List (Log E) × W
  unfolding mend report
  round e w = elim (state e w) [
    | err _ ↦ ([], w)
    | ok _ ↦ elim (check e w) [
      | err m ↦ (check_failed e m ∷ [], w)
      | ok true ↦ ([], w)
      | ok false ↦ mend e w
    ]
  ]

  -- A query gives what the repairs of the pins with `Ok` have written, and a repair undoes nothing.
  pub record IsLawful (Ok : E → Type 0) : Type 0 where
    pub state-repair : (e q : E) (w : W) → state q (repair e w).1 ≡ state q w
    pub check-repair :
        (e : E) (w : W) → Ok e → (repair e w).0 ≡ some (ok tt) → check e (repair e w).1 ≡ ok true
    pub check_kept : (e q : E) (w : W) → check q w ≡ ok true → check q (repair e w).1 ≡ ok true

  -- The domain is gone, or its configuration declares the device.
  abbrev pub IsSettled : E → W → Type 0
  IsSettled e w = ((m : Bytes) × (state e w ≡ err m)) ⊎ (check e w ≡ ok true)

  -- A repair of the pin is tried in every world.
  abbrev pub IsTried : E → Type 0
  IsTried e = (w : W) → (repair e w).0 ≢ none

  round_idle : (e : E) (w : W) → IsSettled e w → round e w ≡ ([], w)
  unfolding round
  round_idle e w (inl (m, g)) = rw (g, round)
  round_idle e w (inr g) = ground (arith, g)

  round_missing :
      (e : E) (w : W) {st : Bytes} → state e w ≡ ok st → check e w ≡ ok false → round e w ≡ mend e w
  unfolding round
  round_missing e w g f = ground (arith, g, f)

  check_blamed :
      (e : E) (w : W) {st m : Bytes}
      → state e w ≡ ok st
      → check e w ≡ err m
      → ¬ All (Fine e) (round e w).0
  unfolding round
  check_blamed e w g f fine = ground (arith, g, f)

  world-round : (e : E) (w : W) → ((round e w).1 ≡ w) ⊎ ((round e w).1 ≡ (repair e w).1)
  unfolding round mend
  world-round e w = ground arith

  mend-Fine :
      (e : E) (w : W)
      → (repair e w).0 ≢ none
      → All (Fine e) (mend e w).0
      → (repair e w).0 ≡ some (ok tt)
  unfolding mend report
  mend-Fine e w tried fine = ground arith

  module _ (Ok : E → Type 0) (lawful : IsLawful Ok) where
    -- Pins that can be repaired.
    abbrev pub Able : E → Type 0
    Able e = Ok e × IsTried e

    round_keeps : (e q : E) (w : W) → IsSettled q w → IsSettled q (round e w).1
    round_keeps e q w h = elim (world-round e w) [
      | inl g ↦ rw g h
      | inr g ↦ rw g (elim h [
        | inl (m, gone) ↦ inl (m, lawful.state-repair e q w ∙ gone)
        | inr has ↦ inr (lawful.check_kept e q w has)
      ])
    ]

    mend_settles : (e : E) (w : W) → Able e → All (Fine e) (mend e w).0 → IsSettled e (mend e w).1
    mend_settles e w (good, tried) fine =
        unfold mend in inr (lawful.check-repair e w good (mend-Fine e w (tried w) fine))

    round_settles :
        (e : E) (w : W) → Able e → All (Fine e) (round e w).0 → IsSettled e (round e w).1
    round_settles e w able fine = elim (Result-cases (state e w)) [
      | inl (m, g) ↦ rw (round_idle e w (inl (m, g))) (inl (m, g))
      | inr (st, g) ↦ elim (Result-cases (check e w)) [
        | inl (m, f) ↦ absurd (check_blamed e w g f fine)
        | inr (true, f) ↦ rw (round_idle e w (inr f)) (inr f)
        | inr (false, f) ↦
            rw (round_missing e w g f) (mend_settles e w able (rw (round_missing e w g f) at fine))
      ]
    ]

    -- After a pass, every pin that can be repaired and at which no failure was logged is in place.
    pub pass_restores :
        (es : List E) (w : W)
        → All
            (λ e.
              Able e → All (Fine e) (for_each round es w).0 → IsSettled e (for_each round es w).1)
            es
    pass_restores es w =
        for_each-settles round IsSettled Fine Able (λ _ _. Unit {0}) (λ _. Unit {0}) (λ _. Unit {0})
          (λ e w _ _. tt) (λ e q w _ _. round_keeps e q w) (λ e w _. round_settles e w) es w
          (All-intro (λ _. tt) es) tt (Pairwise-intro (λ _ _. tt) es)

    -- The pass after a pass with no failure does nothing and logs nothing.
    pub pass_rests :
        (es : List E) (w : W)
        → All Able es
        → All (λ e. All (Fine e) (for_each round es w).0) es
        → for_each round es (for_each round es w).1 ≡ ([], (for_each round es w).1)
    pass_rests es w able fine =
        for_each_idle round IsSettled round_idle es _
          (All-apply _ _ es (All-apply _ _ es (pass_restores es w) able) fine)
