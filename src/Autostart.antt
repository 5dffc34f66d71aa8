-- ===== src/Autostart.antt =====
-- internal/autostart/store.go: which domains start at boot, in which order, and the watchdog.
pub mod Calls
pub mod Order
pub mod Boot
pub mod Watch
use zvm_extra.Base.{
  ℕ, zero, suc, Bool, true, false, not, Option, none, some, Result, ok, err, List, [], ◌∷◌, ◌++◌,
  ◌||◌, ◌>>=◌, if◌then◌else◌,
}
use zvm_extra.Base.Int.{ℤ, pos, ltb_ℤ, leb_ℤ}
use zvm_extra.Bytes.{Bytes, codes, bytes_eq}
use zvm_extra.Dict.{Dict, get, put, remove, values}
use zvm_extra.FileStore
use zvm_extra.FileStore.{Codec, Disk, SaveCalls, Store, save_entries}

pub record Entry : Type 0 where
  pub name : Bytes
  pub enabled : Bool
  pub order : ℤ
  pub delay_s : ℤ
  pub watchdog : Bool

unfoldable pub key : Entry → Bytes
key e = e.name

-- sort.Slice by Order. It leaves the order of entries of one Order open.
unfoldable pub insert : Entry → List Entry → List Entry
insert e [] = e ∷ []
insert e (f ∷ es) = let rest = insert e es in if leb_ℤ e.order f.order then e ∷ f ∷ es else f ∷ rest

unfoldable pub sort_order : List Entry → List Entry
unfolding insert
sort_order [] = []
sort_order (e ∷ es) = insert e (sort_order es)

unfoldable pub all : Store Entry → List Entry
unfolding sort_order
all s = sort_order (values s.entries)

module _ (codec : Codec Entry) where
  unfoldable pub new : Option Bytes → Disk → Result (Store Entry)
  unfolding FileStore.new_store
  new unreadable d = FileStore.new_store codec key (codes "autostart store decode: ") unreadable d

  unfoldable pub save_locked : SaveCalls → Store Entry → Result (Unit {0}) × Store Entry
  unfolding save_entries all
  save_locked calls s =
      let (r, d) = save_entries codec calls (all s) s.disk in (r, record s { disk = d })

  unfoldable pub set : SaveCalls → Entry → Store Entry → Result Entry × Store Entry
  unfolding save_locked
  set calls e s =
      if bytes_eq e.name []
      then (err (codes "entry.Name required"), s)
      else let e' : Entry = if ltb_ℤ e.delay_s (pos 0) then record e { delay_s = pos 0 } else e in
        let (r, s') = save_locked calls (record s { entries = put e'.name e' s.entries }) in
        elim r [ err m ↦ (err m, s') | ok _ ↦ (ok e', s') ]

  unfoldable pub delete : SaveCalls → Bytes → Store Entry → Result (Unit {0}) × Store Entry
  unfolding save_locked
  delete calls name s = save_locked calls (record s { entries = remove name s.entries })

unfoldable pub get_entry : Bytes → Store Entry → Entry
get_entry name s = elim (get s.entries name) [
  | some e ↦ e
  | none ↦ record { name = name; enabled = false; order = pos 0; delay_s = pos 0; watchdog = false }
]

-- The subset of the virsh client that the orchestrator needs, the marker of this boot, and the
-- clock, over a world `W`.
pub record Controller (W : Type 0) : Type 0 where
  pub list_domains : W → Result (List Bytes) × W
  pub state : Bytes → W → Result Bytes
  pub start : Bytes → W → Result (Unit {0}) × W
  pub set_autostart : Bytes → Bool → W → Result (Unit {0}) × W
  pub marked : W → Bool
  pub write_marker : W → Result (Unit {0}) × W
  pub sleep : ℤ → W → W

-- The lines that the orchestrator and the watchdog write.
pub data Log : Type 0 where
  not_ready : Log
  clear_failed : Entry → Bytes → Log
  state_failed : Entry → Bytes → Log
  starting : Entry → Log
  start_failed : Entry → Bytes → Log
  marker_failed : Bytes → Log
  complete : Log
  restarting : Entry → Bytes → Log
  restart_failed : Entry → Bytes → Log

module _ {W : Type 0} (vc : Controller W) where
  -- Starting a domain, and the wait behind it.
  pub start_one : Entry → W → List Log × W
  start_one e w =
      let (r, w') = vc.start e.name w in
      elim r [
        | err m ↦ (starting e ∷ start_failed e m ∷ [], w')
        | ok _ ↦ (starting e ∷ [], if ltb_ℤ (pos 0) e.delay_s then vc.sleep e.delay_s w' else w')
      ]

  -- From State on.
  pub boot_stopped : Entry → W → List Log × W
  unfolding start_one
  boot_stopped e w = elim (vc.state e.name w) [
    | err m ↦ (state_failed e m ∷ [], w)
    | ok state ↦ if bytes_eq state (codes "running") then ([], w) else start_one e w
  ]

  pub boot_one : Entry → W → List Log × W
  unfolding boot_stopped
  boot_one e w =
      if not e.enabled
      then ([], w)
      else let (r, w') = vc.set_autostart e.name false w in
        let (lines, w'') = boot_stopped e w' in
        elim r [ err m ↦ (clear_failed e m ∷ lines, w'') | ok _ ↦ (lines, w'') ]

  pub boot_all : List Entry → W → List Log × W
  unfolding boot_one
  boot_all [] w = ([], w)
  boot_all (e ∷ es) w =
      let (lines, w') = boot_one e w in let (more, w'') = boot_all es w' in (lines ++ more, w'')

  -- `n` tries, with five seconds behind each that fails.
  pub wait_ready : ℕ → W → Bool × W
  wait_ready zero w = (false, w)
  wait_ready (suc n) w =
      let (r, w') = vc.list_domains w in
      let later = wait_ready n (vc.sleep (pos 5) w') in elim r [ ok _ ↦ (true, w') | err _ ↦ later ]

  -- The marker, and the last lines.
  pub finish : W → List Log × W
  finish w =
      let (r, w') = vc.write_marker w in
      elim r [ err m ↦ (marker_failed m ∷ complete ∷ [], w') | ok _ ↦ (complete ∷ [], w') ]

  unfoldable pub run : Store Entry → W → List Log × W
  unfolding wait_ready boot_all finish
  run s w =
      if vc.marked w
      then ([], w)
      else let (ready, w') = wait_ready 12 w in
        if not ready
        then (not_ready ∷ [], w')
        else let (lines, w'') = boot_all (all s) w' in
          let (last, w''') = finish w'' in (lines ++ last, w''')

  pub restart : Entry → Bytes → W → List Log × W
  restart e state w =
      let (r, w') = vc.start e.name w in
      elim r [
        | err m ↦ (restarting e state ∷ restart_failed e m ∷ [], w')
        | ok _ ↦ (restarting e state ∷ [], w')
      ]

  pub watch_one : Entry → W → List Log × W
  unfolding restart
  watch_one e w = if not e.watchdog then ([], w) else elim (vc.state e.name w) [
    | err _ ↦ ([], w)
    | ok state ↦
        if bytes_eq state (codes "shut off") || bytes_eq state (codes "crashed")
        then restart e state w
        else ([], w)
  ]

  pub watch_all : List Entry → W → List Log × W
  unfolding watch_one
  watch_all [] w = ([], w)
  watch_all (e ∷ es) w =
      let (lines, w') = watch_one e w in let (more, w'') = watch_all es w' in (lines ++ more, w'')

  -- One tick of RunWatchdog.
  unfoldable pub watch : Store Entry → W → List Log × W
  unfolding watch_all
  watch s w = if not (vc.marked w) then ([], w) else watch_all (all s) w
