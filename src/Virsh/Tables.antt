-- ===== src/Virsh/Tables.antt =====
-- internal/virsh/virsh.go: what the client reads out of the tables and lists that virsh prints.
pub mod Columns
use zvm_extra.Base.{
  ℕ, zero, suc, ◌+◌, ◌-◌, Bool, true, false, not, Option, none, some, List, [], ◌∷◌, ◌++◌, ◌&&◌,
  ◌||◌, if◌then◌else◌, leb, ltb, ◌==◌, length, take, drop, map,
}
use zvm_extra.Bytes.{Bytes, codes, bytes_eq, has_prefix, contains, trim_space, split, cut, index}
use zvm_extra.Dict.{Dict, get, put}

-- A blank byte may end a column, and another byte may stand behind a blank.
abbrev pub is_blank : ℕ → Bool
is_blank r = r == b' ' || r == b'\t'

-- The loop of `regexpSplitMulti`: the column so far, and the blanks behind it.
unfoldable pub split_from : Bytes → Bytes → ℕ → List Bytes
split_from [] [] spaces = []
split_from [] (c ∷ cur) spaces = (c ∷ cur) ∷ []
split_from (r ∷ s) cur spaces = elim (is_blank r) [
  | true ↦ elim (leb 2 (suc spaces) && not (bytes_eq cur [])) [
    | true ↦ cur ∷ split_from s [] (suc spaces)
    | false ↦ split_from s cur (suc spaces)
  ]
  | false ↦ elim (ltb 0 spaces && not (bytes_eq cur [])) [
    | true ↦ split_from s (cur ++ b' ' ∷ r ∷ []) 0
    | false ↦ split_from s (cur ++ r ∷ []) 0
  ]
]

-- `regexpSplitMulti`, and each part trimmed; the number of columns is only a capacity.
unfoldable pub split_columns : Bytes → List Bytes
split_columns line = map trim_space (split_from line [] 0)

-- The lines behind the one of dashes.
unfoldable pub rows : List Bytes → List Bytes
rows [] = []
rows (line ∷ lines) =
    let more = rows lines in if has_prefix (trim_space line) (codes "---") then lines else more

-- A line of dashes among the rows is passed over as well.
unfoldable pub is_rule : Bytes → Bool
is_rule line = has_prefix (trim_space line) (codes "---")

pub record Snapshot : Type 0 where
  pub name : Bytes
  pub created_at : Bytes
  pub state : Bytes
  pub parent : Bytes
  pub description : Bytes
  pub current : Bool

unfoldable pub snapshot_of : List Bytes → Option Snapshot
snapshot_of (name ∷ created ∷ state ∷ more) =
    if bytes_eq name []
    then none
    else some (record {
      name = name;
      created_at = created;
      state = state;
      parent = elim more [ [] ↦ [] | parent ∷ _ ↦ parent ];
      description = [];
      current = false;
    })
snapshot_of _ = none

-- The rows of a table that give an entry.
unfoldable pub read_rows : {A : Type 0} → (List Bytes → Option A) → List Bytes → List A
read_rows read [] = []
read_rows read (line ∷ lines) = elim (is_rule line) [
  | true ↦ read_rows read lines
  | false ↦ elim (read (split_columns line)) [
    | none ↦ read_rows read lines
    | some a ↦ a ∷ read_rows read lines
  ]
]

unfoldable pub read_table : {A : Type 0} → (List Bytes → Option A) → Bytes → List A
read_table read out = read_rows read (rows (split out b'\n'))

unfoldable pub mark_current : Bytes → List Snapshot → List Snapshot
mark_current cur [] = []
mark_current cur (s ∷ snaps) =
    let rest = mark_current cur snaps in
    if bytes_eq s.name cur then record s { current = true } ∷ rest else s ∷ rest

-- `current` is what CurrentSnapshot gives, empty on an error.
unfoldable pub list_snapshots : Bytes → Bytes → List Snapshot
list_snapshots out current =
    let snaps = read_table snapshot_of out in
    if bytes_eq current [] then snaps else mark_current current snaps

-- The source is "-" where nothing is in the drive.
pub record Disk : Type 0 where
  pub kind : Bytes
  pub device : Bytes
  pub target : Bytes
  pub source : Bytes

unfoldable pub disk_of : List Bytes → Option Disk
disk_of (kind ∷ device ∷ target ∷ source ∷ more) =
    if bytes_eq target []
    then none
    else if bytes_eq source (codes "-")
    then none
    else some (record { kind = kind; device = device; target = target; source = source })
disk_of _ = none

unfoldable pub domain_disks : Bytes → List Disk
domain_disks out = read_table disk_of out

pub record Network : Type 0 where
  pub name : Bytes
  pub active : Bool

unfoldable pub network_of : List Bytes → Option Network
network_of (name ∷ state ∷ more) =
    if bytes_eq name []
    then none
    else some (record { name = name; active = bytes_eq state (codes "active") })
network_of _ = none

unfoldable pub network_list : Bytes → List Network
network_list out = read_table network_of out

-- The lines that are not empty, trimmed.
unfoldable pub names_of : List Bytes → List Bytes
names_of [] = []
names_of (line ∷ lines) =
    let rest = names_of lines in
    let name = trim_space line in if bytes_eq name [] then rest else name ∷ rest

unfoldable pub list_domains : Bytes → List Bytes
list_domains out = names_of (split out b'\n')

-- The first line that begins with "Autostart:".
autostart_in : List Bytes → Option Bool
autostart_in [] = none
autostart_in (line ∷ lines) =
    let rest = autostart_in lines in
    if has_prefix line (codes "Autostart:") then some (contains line (codes "enable")) else rest

unfoldable pub is_autostart : Bytes → Option Bool
unfolding autostart_in
is_autostart out = autostart_in (split out b'\n')

-- The map of `domstats`; a later line counts.
stats_from : Dict Bytes → List Bytes → Dict Bytes
stats_from m [] = m
stats_from m (line ∷ lines) = elim (cut (trim_space line) b'=') [
  | none ↦ stats_from m lines
  | some (k, v) ↦ stats_from (put (trim_space k) (trim_space v) m) lines
]

unfoldable pub domain_stats : Bytes → Dict Bytes
unfolding stats_from
domain_stats out = stats_from [] (split out b'\n')

unfoldable pub has_uefi : Bytes → Bool
has_uefi xml = contains xml (codes "<loader") && contains xml (codes "pflash")

abbrev title_open : Bytes
title_open = codes "<title>"

unfoldable pub title : Bytes → Bytes
title xml = elim (index xml title_open) [
  | none ↦ []
  | some o ↦ elim (index xml (codes "</title>")) [
    | none ↦ []
    | some c ↦ if leb c o then [] else trim_space (drop (o + length title_open) (take c xml))
  ]
]
