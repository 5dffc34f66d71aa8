-- ===== src/Schedule/Snapshots.antt =====
-- internal/schedule/schedule.go: the snapshots of one tick, and the pruning of old ones.
use zvm_extra.Base.{
  ℕ, ◌-◌, Bool, true, false, Result, ok, err, List, [], ◌∷◌, ◌++◌, ◌||◌, if◌then◌else◌, leb, length,
  take,
}
use zvm_extra.Base.Int.{pos, pos_part, leb_ℤ}
use zvm_extra.Bytes.{Bytes, codes, bytes_eq, has_prefix}
use zvm_extra.FileStore.{Codec, SaveCalls, Store}
use zvm_extra.Schedule.{Entry, Time, auto_prefix, collect_due}
use zvm_extra.Schedule.Order.{sort}

-- The subset of the virsh client that the scheduler needs, and os.MkdirAll, over a world `W`. Of a
-- snapshot only its name is used.
pub record Controller (W : Type 0) : Type 0 where
  pub state : Bytes → W → Result Bytes
  pub create_snapshot : Bytes → Bytes → Bytes → Bool → Bytes → W → Result (Unit {0}) × W
  pub list_snapshots : Bytes → W → Result (List Bytes)
  pub delete_snapshot : Bytes → Bytes → Bool → W → Result (Unit {0}) × W
  pub mkdir_all : Bytes → W → Result (Unit {0}) × W

-- The lines that the scheduler writes.
pub data Log : Type 0 where
  state_failed : Bytes → Bytes → Log
  mkdir_failed : Bytes → Bytes → Log
  create_failed : Bytes → Bytes → Bytes → Log
  created : Bytes → Bytes → Log
  prune_failed : Bytes → Bytes → Bytes → Log
  pruned : Bytes → Bytes → Log

unfoldable pub auto_names : List Bytes → List Bytes
auto_names [] = []
auto_names (n ∷ ns) =
    let rest = auto_names ns in if has_prefix n auto_prefix then n ∷ rest else rest

-- The names that a prune goes through.
unfoldable pub victims : ℕ → List Bytes → List Bytes
unfolding sort
victims keep autos =
    let sorted = sort autos in
    if leb (length sorted) keep then [] else take (length sorted - keep) sorted

module _ {W : Type 0} (vc : Controller W) where
  unfoldable pub delete_all : Bytes → List Bytes → W → List Log × W
  delete_all vm [] w = ([], w)
  delete_all vm (name ∷ names) w =
      let (r, w') = vc.delete_snapshot vm name false w in
      let (lines, w'') = delete_all vm names w' in
      elim r [
        | err m ↦ (prune_failed vm name m ∷ lines, w'')
        | ok _ ↦ (pruned vm name ∷ lines, w'')
      ]

  unfoldable pub prune : Entry → W → List Log × W
  unfolding delete_all victims auto_names
  prune e w = if leb_ℤ e.keep (pos 0) then ([], w) else elim (vc.list_snapshots e.vm w) [
    | err _ ↦ ([], w)
    | ok names ↦ delete_all e.vm (victims (pos_part e.keep) (auto_names names)) w
  ]

  -- From CreateSnapshot on.
  create : Entry → Bytes → Bool → Bytes → W → List Log × W
  unfolding prune
  create e name external dir w =
      let (r, w') = vc.create_snapshot e.vm name (codes "scheduled snapshot") external dir w in
      elim r [
        | err m ↦ (create_failed e.vm name m ∷ [], w')
        | ok _ ↦ let (lines, w'') = prune e w' in (created name e.vm ∷ lines, w'')
      ]

  -- `stamp` is the time as `Format` writes it, `ext_dir` joins the root of the snapshots and a name.
  unfoldable pub snapshot : Bytes → (Bytes → Bytes) → Entry → W → List Log × W
  unfolding create
  snapshot stamp ext_dir e w = elim (vc.state e.vm w) [
    | err m ↦ (state_failed e.vm m ∷ [], w)
    | ok state ↦
        let name = auto_prefix ++ stamp in
        if bytes_eq state (codes "running") || bytes_eq state (codes "paused")
        then (let (r, w') = vc.mkdir_all (ext_dir e.vm) w in
            elim r [
              | err m ↦ (mkdir_failed e.vm m ∷ [], w')
              | ok _ ↦ create e name true (ext_dir e.vm) w'
            ])
        else create e name false [] w
  ]

  unfoldable pub snapshot_all : Bytes → (Bytes → Bytes) → List Entry → W → List Log × W
  unfolding snapshot
  snapshot_all stamp ext_dir [] w = ([], w)
  snapshot_all stamp ext_dir (e ∷ es) w =
      let (lines, w') = snapshot stamp ext_dir e w in
      let (more, w'') = snapshot_all stamp ext_dir es w' in (lines ++ more, w'')

  unfoldable pub tick :
      Codec Entry
      → SaveCalls
      → (Time → Bytes)
      → (Bytes → Bytes)
      → Time
      → Store Entry
      → W
      → List Log × Store Entry × W
  unfolding collect_due snapshot_all
  tick codec calls format ext_dir now s w =
      let (due, s') = collect_due codec calls now s in
      let (lines, w') = snapshot_all (format now) ext_dir due w in (lines, s', w')
