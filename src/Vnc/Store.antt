-- ===== src/Vnc/Store.antt =====
-- internal/vnc/store.go: the console password and address kept for each domain, and the reconciler.
pub mod Laws
pub mod Rounds
pub mod Reconcile
pub mod Saved
use zvm_extra.Base.{
  ℕ, Bool, true, false, not, Option, none, some, Result, ok, err, List, [], ◌∷◌, ◌++◌, ◌&&◌, ◌||◌,
  if◌then◌else◌,
}
use zvm_extra.Base.Int.{ℤ, pos, ltb_ℤ, eq_ℤ}
use zvm_extra.Bytes.{Bytes, codes, bytes_eq}
use zvm_extra.Dict
use zvm_extra.Dict.{values}
use zvm_extra.FileStore
use zvm_extra.FileStore.{Codec, Disk, SaveCalls, Store}
use zvm_extra.ForEach.{for_each}

pub record Entry : Type 0 where
  pub vm : Bytes
  pub password : Bytes
  pub listen : Bytes
  pub port : ℤ

-- s.data is keyed by the name of the domain.
unfoldable pub key : Entry → Bytes
key e = e.vm

module _ (codec : Codec Entry) where
  unfoldable pub new_store : Option Bytes → Disk → Result (Store Entry)
  unfolding FileStore.new_store
  new_store unreadable d = FileStore.new_store codec key (codes "vnc store decode: ") unreadable d

  unfoldable pub save_locked : SaveCalls → Store Entry → Result (Unit {0}) × Store Entry
  unfolding FileStore.save_locked
  save_locked calls s = FileStore.save_locked codec key calls s

  unfoldable pub set : SaveCalls → Entry → Store Entry → Result (Unit {0}) × Store Entry
  unfolding FileStore.upsert
  set calls e s = FileStore.upsert codec key calls e s

  unfoldable pub remove : SaveCalls → Bytes → Store Entry → Result (Unit {0}) × Store Entry
  unfolding FileStore.delete
  remove calls vm s = FileStore.delete codec key calls vm s

unfoldable pub all : Store Entry → List Entry
all s = values s.entries

unfoldable pub get : Bytes → Store Entry → Option Entry
get vm s = Dict.get s.entries vm

-- The address, the port, and whether libvirt picks the port.
pub record ListenInfo : Type 0 where
  pub listen : Bytes
  pub port : ℤ
  pub autoport : Bool

pub record Controller (W : Type 0) : Type 0 where
  pub state : Bytes → W → Result Bytes
  pub vnc_has_password : Bytes → W → Result Bool
  pub set_vnc_password : Bytes → Bytes → W → Result (Unit {0}) × W
  pub vnc_listen_info : Bytes → W → Result ListenInfo
  pub set_vnc_listen : Bytes → Bytes → ℤ → W → Result (Unit {0}) × W

-- The lines that the reconciler writes.
pub data Log : Type 0 where
  password_check_failed : Entry → Bytes → Log
  password_repair_failed : Entry → Bytes → Log
  password_restored : Entry → Log
  listen_check_failed : Entry → Bytes → Log
  listen_repair_failed : Entry → Bytes → Log
  listen_restored : Entry → Log

unfoldable pub port_drifted : Entry → ListenInfo → Bool
port_drifted e info =
    (ltb_ℤ (pos 0) e.port && (info.autoport || not (eq_ℤ info.port e.port)))
    || (not (ltb_ℤ (pos 0) e.port) && not info.autoport)

module _ {W : Type 0} (vc : Controller W) where
  pub repair_listen : Entry → W → List Log × W
  repair_listen e w =
      let (r, w') = vc.set_vnc_listen e.vm e.listen e.port w in
      elim r [ err m ↦ (listen_repair_failed e m ∷ [], w') | ok _ ↦ (listen_restored e ∷ [], w') ]

  -- The second half of a round.
  pub reconcile_listen : Entry → W → List Log × W
  unfolding repair_listen port_drifted
  reconcile_listen e w =
      if bytes_eq e.listen [] then ([], w) else elim (vc.vnc_listen_info e.vm w) [
        | err m ↦ (listen_check_failed e m ∷ [], w)
        | ok info ↦
            if bytes_eq info.listen e.listen && not (port_drifted e info)
            then ([], w)
            else repair_listen e w
      ]

  -- `has` of the round: an entry with no password is not checked.
  pub has_password : Entry → W → Result Bool
  has_password e w = if not (bytes_eq e.password []) then vc.vnc_has_password e.vm w else ok true

  -- A failed repair of the password ends the round, a repair that succeeds does not.
  pub repair_password : Entry → W → List Log × W
  unfolding reconcile_listen
  repair_password e w =
      let (r, w') = vc.set_vnc_password e.vm e.password w in
      elim r [
        | err m ↦ (password_repair_failed e m ∷ [], w')
        | ok _ ↦ let (lines, w'') = reconcile_listen e w' in (password_restored e ∷ lines, w'')
      ]

  unfoldable pub reconcile_one : Entry → W → List Log × W
  unfolding has_password repair_password
  reconcile_one e w = elim (vc.state e.vm w) [
    | err _ ↦ ([], w)
    | ok _ ↦ elim (has_password e w) [
      | err m ↦ (password_check_failed e m ∷ [], w)
      | ok false ↦ repair_password e w
      | ok true ↦ reconcile_listen e w
    ]
  ]

  unfoldable pub reconcile : Store Entry → W → List Log × W
  unfolding for_each reconcile_one
  reconcile s w = for_each reconcile_one (all s) w
