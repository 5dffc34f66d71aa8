-- ===== src/Vnc/Store/Laws.antt =====
-- What libvirt does with a console, and what the reconciler is to reach.
use zvm_extra.Base.{◌≡◌, ◌≢◌, ◌⊎◌, inl, inr, true, false, ok, err, []}
use zvm_extra.Base.Int.{ℤ, pos, ◌≤ℤ◌}
use zvm_extra.Bytes.{Bytes}
use zvm_extra.Bytes.Cuts.{Lacks}
use zvm_extra.Vnc.{valid_password}
use zvm_extra.Handlers.Consoles.{is_listen, is_port}
use zvm_extra.Vnc.Store.{
  Entry, ListenInfo, Controller, Log, password_check_failed, password_repair_failed,
  password_restored, listen_check_failed, listen_repair_failed, listen_restored,
}

-- The console shows the address and the port: a positive port is fixed, any other is left to
-- libvirt.
abbrev pub Shows : Bytes → ℤ → ListenInfo → Type 0
Shows listen port info =
    (info.listen ≡ listen)
    × (pos 1 ≤ℤ port → (info.port ≡ port) × (info.autoport ≡ false))
    × (port ≤ℤ pos 0 → info.autoport ≡ true)

-- The line tells of no failure at the entry.
abbrev pub Fine : Entry → Log → Type 0
Fine q (password_check_failed e m) = e ≢ q
Fine q (password_repair_failed e m) = e ≢ q
Fine q (password_restored e) = Unit
Fine q (listen_check_failed e m) = e ≢ q
Fine q (listen_repair_failed e m) = e ≢ q
Fine q (listen_restored e) = Unit

-- A password that a request may set, and that has no `=`: the client looks for the attributes of the
-- console as texts, and would take the end of the password `port=` for the port.
abbrev pub IsPlainPassword : Bytes → Type 0
IsPlainPassword pw = (valid_password pw ≡ true) × Lacks b'=' pw

-- An address and a port that a request may set.
abbrev pub IsPlainAddress : Bytes → ℤ → Type 0
IsPlainAddress listen port = (is_listen listen ≡ true) × (is_port port ≡ true)

-- An entry that a request may make, without a password or with one that has no `=`.
abbrev pub IsPlain : Entry → Type 0
IsPlain e = ((e.password ≡ []) ⊎ IsPlainPassword e.password) × IsPlainAddress e.listen e.port

pub password_of_plain : (e : Entry) → IsPlain e → e.password ≢ [] → IsPlainPassword e.password
password_of_plain e (inl blank, _) ne = absurd (ne blank)
password_of_plain e (inr plain, _) ne = plain

module _ {W : Type 0} (vc : Controller W) where
  -- What a request may define reads back, and its definition changes nothing else: in worlds whose
  -- definitions are as libvirt writes them, which `Sane` stands for, and which such a definition
  -- leads to again.
  pub record IsLawful : Type 1 where
    pub Sane : W → Type 0
    pub sane-set_password :
        (dom pw : Bytes) (w : W)
        → IsPlainPassword pw
        → Sane w
        → Sane (vc.set_vnc_password dom pw w).1
    pub sane-set_listen :
        (dom listen : Bytes) (port : ℤ) (w : W)
        → IsPlainAddress listen port
        → Sane w
        → Sane (vc.set_vnc_listen dom listen port w).1
    pub state-set_password :
        (vm dom pw : Bytes) (w : W) → vc.state vm (vc.set_vnc_password dom pw w).1 ≡ vc.state vm w
    pub state-set_listen :
        (vm dom listen : Bytes) (port : ℤ) (w : W)
        → vc.state vm (vc.set_vnc_listen dom listen port w).1 ≡ vc.state vm w
    pub password-set :
        (vm pw : Bytes) (w : W)
        → IsPlainPassword pw
        → Sane w
        → (vc.set_vnc_password vm pw w).0 ≡ ok tt
        → vc.vnc_has_password vm (vc.set_vnc_password vm pw w).1 ≡ ok true
    pub password_kept :
        (vm dom pw : Bytes) (w : W)
        → IsPlainPassword pw
        → Sane w
        → vc.vnc_has_password vm w ≡ ok true
        → vc.vnc_has_password vm (vc.set_vnc_password dom pw w).1 ≡ ok true
    pub password-set_listen :
        (vm dom listen : Bytes) (port : ℤ) (w : W)
        → IsPlainAddress listen port
        → Sane w
        → vc.vnc_has_password vm w ≡ ok true
        → vc.vnc_has_password vm (vc.set_vnc_listen dom listen port w).1 ≡ ok true
    pub listen-set :
        (vm listen : Bytes) (port : ℤ) (w : W)
        → IsPlainAddress listen port
        → Sane w
        → (vc.set_vnc_listen vm listen port w).0 ≡ ok tt
        → (info : ListenInfo) × (vc.vnc_listen_info vm (vc.set_vnc_listen vm listen port w).1
            ≡ ok info)
          × Shows listen port info
    pub listen_kept :
        (vm dom listen : Bytes) (port : ℤ) (w : W)
        → dom ≢ vm
        → Sane w
        → vc.vnc_listen_info vm (vc.set_vnc_listen dom listen port w).1 ≡ vc.vnc_listen_info vm w
    pub listen-set_password :
        (vm dom pw : Bytes) (w : W)
        → IsPlainPassword pw
        → Sane w
        → vc.vnc_listen_info vm (vc.set_vnc_password dom pw w).1 ≡ vc.vnc_listen_info vm w

  abbrev pub Gone : Entry → W → Type 0
  Gone e w = (m : Bytes) × (vc.state e.vm w ≡ err m)

  -- A pinned password is set.
  abbrev pub HasPassword : Entry → W → Type 0
  HasPassword e w = e.password ≢ [] → vc.vnc_has_password e.vm w ≡ ok true

  -- A pinned address is set, with its port.
  abbrev pub Listens : Entry → W → Type 0
  Listens e w =
      e.listen ≢ []
      → (info : ListenInfo) × (vc.vnc_listen_info e.vm w ≡ ok info) × Shows e.listen e.port info

  abbrev pub InPlace : Entry → W → Type 0
  InPlace e w = Gone e w ⊎ (HasPassword e w × Listens e w)
