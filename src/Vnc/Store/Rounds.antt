-- ===== src/Vnc/Store/Rounds.antt =====
-- The steps of one round of the VNC reconciler.
use zvm_extra.Base.{
  ◌≡◌, ◌≢◌, ◌⊎◌, inl, inr, Bool, true, false, ok, err, [], ◌∷◌, arith, All, Bool-cases,
  if◌then◌else◌,
}
use zvm_extra.Bytes.{Bytes, bytes_eq}
use zvm_extra.Bytes.Laws.{bytes_eq_iff}
use zvm_extra.Vnc.Store.{
  Entry, ListenInfo, Controller, password_restored, port_drifted, has_password, reconcile_listen,
  repair_listen, repair_password, reconcile_one,
}
use zvm_extra.Vnc.Store.Laws.{Shows, Fine, HasPassword, Listens, InPlace}

pub port_of_Shows :
    (e : Entry) (info : ListenInfo) → Shows e.listen e.port info → port_drifted e info ≡ false
unfolding port_drifted
port_of_Shows e info (_, fixed, free) = ground arith

pub Shows-of_port :
    (e : Entry) (info : ListenInfo)
    → bytes_eq info.listen e.listen ≡ true
    → port_drifted e info ≡ false
    → Shows e.listen e.port info
unfolding port_drifted
Shows-of_port e info h d = (
  (bytes_eq_iff info.listen e.listen).0 h,
  (λ p. (ground arith, ground arith)),
  λ p. ground arith,
)

pub listen_right :
    (e : Entry) (info : ListenInfo)
    → Shows e.listen e.port info
      ⊎ ((bytes_eq info.listen e.listen ≡ false) ⊎ (port_drifted e info ≡ true))
listen_right e info = elim (Bool-cases (bytes_eq info.listen e.listen)) [
  | inr h ↦ inr (inl h)
  | inl h ↦ elim (Bool-cases (port_drifted e info)) [
    | inl d ↦ inr (inr d)
    | inr d ↦ inl (Shows-of_port e info h d)
  ]
]

module _ {W : Type 0} (vc : Controller W) where
  pub has_password_ok : (e : Entry) (w : W) → HasPassword vc e w → has_password vc e w ≡ ok true
  unfolding has_password
  has_password_ok e w h = elim (Bool-cases (bytes_eq e.password [])) [
    | inl none_set ↦ rw none_set
    | inr some_set ↦ rw some_set (h (λ q. ground (arith, bytes_eq_iff e.password [])))
  ]

  pub HasPassword-of : (e : Entry) (w : W) → has_password vc e w ≡ ok true → HasPassword vc e w
  unfolding has_password
  HasPassword-of e w h ne = ground (arith, bytes_eq_iff e.password [])

  pub password_pinned : (e : Entry) (w : W) → has_password vc e w ≡ ok false → e.password ≢ []
  unfolding has_password
  password_pinned e w h q = ground (arith, bytes_eq_iff e.password [])

  pub listen_idle : (e : Entry) (w : W) → Listens vc e w → reconcile_listen vc e w ≡ ([], w)
  unfolding reconcile_listen
  listen_idle e w h = elim (Bool-cases (bytes_eq e.listen [])) [
    | inl none_set ↦ rw none_set
    | inr some_set ↦
        let (info, i, shows) = h (λ q. ground (arith, bytes_eq_iff e.listen [])) in
        ground (
          arith,
          some_set,
          i,
          bytes_eq_iff info.listen e.listen,
          port_of_Shows e info shows,
          shows.0,
        )
  ]

  pub reconcile_one_idle : (e : Entry) (w : W) → InPlace vc e w → reconcile_one vc e w ≡ ([], w)
  unfolding reconcile_one
  reconcile_one_idle e w (inl (m, g)) = rw (g, reconcile_one)
  reconcile_one_idle e w (inr (hp, hl)) = ground (arith, has_password_ok e w hp, listen_idle e w hl)

  pub world-reconcile_listen :
      (e : Entry) (w : W)
      → ((reconcile_listen vc e w).1 ≡ w)
        ⊎ ((reconcile_listen vc e w).1 ≡ (vc.set_vnc_listen e.vm e.listen e.port w).1)
  unfolding reconcile_listen
  world-reconcile_listen e w = ground arith

  pub world-repair_password :
      (e : Entry) (w : W)
      → let w' = (vc.set_vnc_password e.vm e.password w).1 in
        ((repair_password vc e w).1 ≡ w')
        ⊎ ((repair_password vc e w).1 ≡ (reconcile_listen vc e w').1)
  unfolding repair_password
  world-repair_password e w = ground arith

  pub world-reconcile_one :
      (e : Entry) (w : W)
      → ((reconcile_one vc e w).1 ≡ w)
        ⊎ (((reconcile_one vc e w).1 ≡ (reconcile_listen vc e w).1)
            ⊎ ((has_password vc e w ≡ ok false)
                × ((reconcile_one vc e w).1 ≡ (repair_password vc e w).1)))
  unfolding reconcile_one
  world-reconcile_one e w = ground arith

  -- What the two repairs of the entry keep, its round keeps.
  module _ (P : W → Type 0) (e : Entry)
      (by_password : (w : W) → e.password ≢ [] → P w → P (vc.set_vnc_password e.vm e.password w).1)
      (by_listen : (w : W) → P w → P (vc.set_vnc_listen e.vm e.listen e.port w).1) where
    pub listen_keeps : (w : W) → P w → P (reconcile_listen vc e w).1
    listen_keeps w h = elim (world-reconcile_listen e w) [
      | inl q ↦ rw q h
      | inr q ↦ rw q (by_listen w h)
    ]

    password_keeps : (w : W) → e.password ≢ [] → P w → P (repair_password vc e w).1
    password_keeps w ne h = elim (world-repair_password e w) [
      | inl q ↦ rw q (by_password w ne h)
      | inr q ↦ rw q (listen_keeps _ (by_password w ne h))
    ]

    pub one_keeps : (w : W) → P w → P (reconcile_one vc e w).1
    one_keeps w h = elim (world-reconcile_one e w) [
      | inl q ↦ rw q h
      | inr (inl q) ↦ rw q (listen_keeps w h)
      | inr (inr (missing, q)) ↦ rw q (password_keeps w (password_pinned e w missing) h)
    ]

  pub listen_blamed :
      (e : Entry) (w : W) {m : Bytes}
      → bytes_eq e.listen [] ≡ false
      → vc.vnc_listen_info e.vm w ≡ err m
      → ¬ All (Fine e) (reconcile_listen vc e w).0
  unfolding reconcile_listen
  listen_blamed e w s i fine = ground (arith, s, i)

  pub listen_missing :
      (e : Entry) (w : W) {info : ListenInfo}
      → bytes_eq e.listen [] ≡ false
      → vc.vnc_listen_info e.vm w ≡ ok info
      → (bytes_eq info.listen e.listen ≡ false) ⊎ (port_drifted e info ≡ true)
      → reconcile_listen vc e w ≡ repair_listen vc e w
  unfolding reconcile_listen
  listen_missing e w s i h = ground (arith, s, i)

  pub repair_listen-Fine :
      (e : Entry) (w : W)
      → All (Fine e) (repair_listen vc e w).0
      → (vc.set_vnc_listen e.vm e.listen e.port w).0 ≡ ok tt
  unfolding repair_listen
  repair_listen-Fine e w fine = ground arith

  pub world-repair_listen :
      (e : Entry) (w : W) → (repair_listen vc e w).1 ≡ (vc.set_vnc_listen e.vm e.listen e.port w).1
  unfolding repair_listen
  world-repair_listen e w = ground arith

  pub set_password-Fine :
      (e : Entry) (w : W)
      → All (Fine e) (repair_password vc e w).0
      → (vc.set_vnc_password e.vm e.password w).0 ≡ ok tt
  unfolding repair_password
  set_password-Fine e w fine = ground arith

  pub repair_password_ok :
      (e : Entry) (w : W)
      → (vc.set_vnc_password e.vm e.password w).0 ≡ ok tt
      → let rest = reconcile_listen vc e (vc.set_vnc_password e.vm e.password w).1 in
        repair_password vc e w ≡ (password_restored e ∷ rest.0, rest.1)
  unfolding repair_password
  repair_password_ok e w h = rw (h, repair_password)

  pub check_blamed :
      (e : Entry) (w : W) {st m : Bytes}
      → vc.state e.vm w ≡ ok st
      → has_password vc e w ≡ err m
      → ¬ All (Fine e) (reconcile_one vc e w).0
  unfolding reconcile_one
  check_blamed e w g f fine = ground (arith, g, f)

  pub one_checked :
      (e : Entry) (w : W) {st : Bytes} (b : Bool)
      → vc.state e.vm w ≡ ok st
      → has_password vc e w ≡ ok b
      → reconcile_one vc e w ≡ (if b then reconcile_listen vc e w else repair_password vc e w)
  unfolding reconcile_one
  one_checked e w b g f = ground (arith, g, f)
