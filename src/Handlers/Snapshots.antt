-- ===== src/Handlers/Snapshots.antt =====
-- internal/handlers/handlers.go: the handlers of snapshots, of backups and of the settings that
-- remember their directories.
pub mod Guarded
use zvm_extra.Base.{
  ℕ, Bool, true, false, not, Result, ok, err, List, [], ◌∷◌, ◌++◌, ◌||◌, if◌then◌else◌, leb, length,
  ◌==◌,
}
use zvm_extra.Bytes.{Bytes, codes, bytes_eq, trim_prefix, trim_space, all_bytes}
use zvm_extra.Paths.{join_path, base, dir}
use zvm_extra.Settings
use zvm_extra.Backup
use zvm_extra.Virsh.Tables.{Snapshot}
use zvm_extra.Virsh.Commands.{
  list_snapshots, current_snapshot, state, has_uefi, create_snapshot, revert_snapshot,
  delete_snapshot,
}
use zvm_extra.Handlers.Names.{valid_name, valid_snapshot_name}
use zvm_extra.Handlers.Server.{
  Server, Env, Request, Reply, Handler, Answer, ◌>>=◌, ◌>>◌, pure, gets, fail_if, reply, or_fail,
  decoded, on_host, or_else, run, not_allowed, is_method, path_parts, check_vm, check_dir,
}

-- The bodies: of the request that creates a snapshot, and of the one that reverts to one.
pub record CreateSnapshot : Type 0 where
  pub name : Bytes
  pub description : Bytes
  pub external : Bool
  pub external_dir : Bytes

pub record SnapshotsBody : Type 0 where
  pub data_list : List Snapshot
  pub current : Bytes
  pub uefi : Bool
  pub state : Bytes
  pub external_required : Bool
  pub default_external_dir : Bytes

pub data SnapshotBody : Type 0 where
  listing : SnapshotsBody → SnapshotBody
  created : Bytes → Bool → Bytes → SnapshotBody
  reverted : SnapshotBody
  deleted : SnapshotBody

-- A request on snapshots: the body of a creation, the `force` of a revert, which is false where it
-- cannot be read, and whether the query has children=1.
pub record SnapshotRequest : Type 0 where
  pub creation : Result CreateSnapshot
  pub force : Bool
  pub children : Bool

unfoldable pub is_live : Bytes → Bool
is_live st = bytes_eq st (codes "running") || bytes_eq st (codes "paused")

-- A byte that a description may hold.
unfoldable pub is_text_byte : ℕ → Bool
is_text_byte c = not (c == b'\n' || (c == b'\r' || c == 0))

unfoldable pub has_name : Bytes → List Snapshot → Bool
has_name snap [] = false
has_name snap (e ∷ es) = let rest = has_name snap es in if bytes_eq e.name snap then true else rest

unfoldable pub starts_with_dash : Bytes → Bool
starts_with_dash [] = false
starts_with_dash (c ∷ s) = c == b'-'

-- The rest of the path begins with "revert".
unfoldable pub is_revert : List Bytes → Bool
is_revert [] = false
is_revert (p ∷ ps) = bytes_eq p (codes "revert")

module _ {W : Type 0} (env : Env W) where
  unfoldable pub settings_set : Settings.Data → Server W → Result (Unit {0}) × Server W
  settings_set d s =
      let (r, t) = Settings.set env.settings_json (env.saves s.host) d s.settings in
      (r, record s { settings = t })

  unfoldable pub snapshot_base : Server W → Bytes
  snapshot_base s =
      if bytes_eq (Settings.get s.settings).snapshot_dir []
      then env.snapshot_root
      else (Settings.get s.settings).snapshot_dir

  unfoldable pub snapshot_exists : Bytes → Bytes → Handler W SnapshotBody Bool
  snapshot_exists vm snap = do
    snaps ← or_fail 500 [] (on_host (list_snapshots env.virsh vm))
    pure (has_name snap snaps)

  unfoldable pub snapshot_list : Bytes → Handler W SnapshotBody (Reply SnapshotBody)
  snapshot_list vm = do
    snaps ← or_fail 500 [] (on_host (list_snapshots env.virsh vm))
    cur ← or_else (on_host (current_snapshot env.virsh vm)) []
    st ← or_else (on_host (state env.virsh vm)) []
    uefi ← or_else (on_host (has_uefi env.virsh vm)) false
    root ← gets snapshot_base
    reply 200 (
        SnapshotBody.listing (record {
          data_list = snaps;
          current = cur;
          uefi = uefi;
          state = st;
          external_required = is_live st;
          default_external_dir = join_path root vm;
        }))

  -- The checks of a request before anything is done.
  unfoldable pub check_create : CreateSnapshot → Handler W SnapshotBody (Unit {0})
  check_create q = do
    fail_if (bytes_eq q.name []) 400 (codes "snapshot name required")
    fail_if (not (valid_snapshot_name q.name)) 400 (
        codes
          "snapshot name may contain letters, digits, single spaces and _ . - + — no leading '-', no '..', no double spaces")
    fail_if (not (leb (length q.description) 256)) 400
        (codes "description must be 256 characters or fewer")
    fail_if (not (all_bytes is_text_byte q.description)) 400
        (codes "description must not contain control characters")

  -- The directory of an external snapshot, which is made.
  unfoldable pub external_dir : Bytes → Bytes → Handler W SnapshotBody Bytes
  external_dir vm wanted = do
    root ← gets snapshot_base
    let d = if bytes_eq (trim_space wanted) [] then join_path root vm else trim_space wanted
    check_dir (codes "external_dir") d
    or_fail 500 (codes "mkdir snapshot dir: ") (on_host (env.mkdir_all d))
    pure d

  -- The directory without the one of the domain, kept for the next time; an error is only logged.
  unfoldable pub remember_snapshot_dir : Bytes → Bytes → Server W → Server W
  remember_snapshot_dir vm d s =
      let kept = if bytes_eq (base d) vm then dir d else d in
      if bytes_eq (Settings.get s.settings).snapshot_dir kept
      then s
      else (settings_set (record (Settings.get s.settings) { snapshot_dir = kept }) s).1

  unfoldable pub snapshot_create :
      Bytes → Result CreateSnapshot → Handler W SnapshotBody (Reply SnapshotBody)
  snapshot_create vm body = do
    q ← decoded 400 body
    check_create q
    st ← or_else (on_host (state env.virsh vm)) []
    d ← (if is_live st then external_dir vm q.external_dir else pure [])
    or_fail 500 [] (on_host (create_snapshot env.virsh vm q.name q.description (is_live st) d))
    (λ s. pure tt (if is_live st then remember_snapshot_dir vm d s else s))
    reply 201 (SnapshotBody.created q.name (is_live st) d)

  unfoldable pub snapshot_revert :
      Bytes → Bytes → Bool → Handler W SnapshotBody (Reply SnapshotBody)
  snapshot_revert vm snap force = do
    or_fail 500 [] (on_host (revert_snapshot env.virsh vm snap force))
    reply 200 SnapshotBody.reverted

  unfoldable pub snapshot_delete :
      Bytes → Bytes → Bool → Handler W SnapshotBody (Reply SnapshotBody)
  snapshot_delete vm snap children = do
    or_fail 500 [] (on_host (delete_snapshot env.virsh vm snap children))
    reply 200 SnapshotBody.deleted

  -- A snapshot that libvirt has.
  unfoldable pub check_snapshot : Bytes → Bytes → Handler W SnapshotBody (Unit {0})
  check_snapshot vm snap = do
    fail_if (bytes_eq snap []) 400 (codes "snapshot name required")
    fail_if (starts_with_dash snap) 400 (codes "invalid snapshot name")
    known ← snapshot_exists vm snap
    fail_if (not known) 404 (codes "no snapshot named \"" ++ (snap ++ codes "\" on this VM"))

  unfoldable pub snapshot_item :
      Request (Unit {0})
      → SnapshotRequest
      → Bytes
      → List Bytes
      → Handler W SnapshotBody (Reply SnapshotBody)
  snapshot_item r q vm [] =
      if is_method r (codes "GET")
      then snapshot_list vm
      else if is_method r (codes "POST")
      then snapshot_create vm q.creation
      else not_allowed
  snapshot_item r q vm (snap ∷ more) = do
    check_snapshot vm snap
    (if is_revert more
        then (if is_method r (codes "POST") then snapshot_revert vm snap q.force else not_allowed)
        else if is_method r (codes "DELETE")
        then snapshot_delete vm snap q.children
        else not_allowed)

  unfoldable pub snapshot_handler : Request (Unit {0}) → SnapshotRequest → Answer W SnapshotBody
  snapshot_handler r q = run (elim (path_parts (codes "/api/snapshot/") r.path) [
    | [] ↦ not_allowed
    | vm ∷ parts ↦ check_vm vm >> snapshot_item r q vm parts
  ])

pub data SettingsBody : Type 0 where
  settings : Settings.Data → SettingsBody

-- The directories of the settings are checked where they are not empty. The source checks them in an
-- order that Go leaves open.
unfoldable pub check_setting : {W : Type 0} → Bytes → Bytes → Handler W SettingsBody (Unit {0})
check_setting label p = if bytes_eq p [] then pure tt else check_dir label p

module _ {W : Type 0} (env : Env W) where
  unfoldable pub settings_put : Result Settings.Data → Handler W SettingsBody (Reply SettingsBody)
  settings_put body = do
    sent ← decoded 400 body
    let d : Settings.Data = record {
      backup_dir = trim_space sent.backup_dir;
      snapshot_dir = trim_space sent.snapshot_dir;
    }
    check_setting (codes "backup_dir") d.backup_dir
    check_setting (codes "snapshot_dir") d.snapshot_dir
    or_fail 500 [] (settings_set env d)
    now ← gets (λ s. Settings.get s.settings)
    reply 200 (SettingsBody.settings now)

  unfoldable pub settings_handler : Request Settings.Data → Answer W SettingsBody
  settings_handler r = run (
      if is_method r (codes "GET")
      then (λ s. reply 200 (SettingsBody.settings (Settings.get s.settings)) s)
      else if is_method r (codes "PUT")
      then settings_put r.body
      else not_allowed)

pub data BackupBody : Type 0 where
  all_jobs : List Backup.Job → BackupBody
  started : Backup.Job → BackupBody

module _ {W : Type 0} (env : Env W) where
  -- The directory of the request, the one used last, or the one beside the snapshots.
  unfoldable pub backup_dest : Bytes → Server W → Bytes
  backup_dest wanted s =
      if not (bytes_eq (trim_space wanted) [])
      then trim_space wanted
      else if not (bytes_eq (Settings.get s.settings).backup_dir [])
      then (Settings.get s.settings).backup_dir
      else join_path (dir env.snapshot_root) (codes "backups")

  unfoldable pub backup_start :
      Backup.Clock → Bytes → Bytes → Bytes → Server W → Result Backup.Job × Server W
  backup_start now id vm dest s =
      let (r, jobs, w) = Backup.start env.virsh env.copier now id vm dest s.jobs s.host in
      (elim r [ err m ↦ err m | ok (job, _, _) ↦ ok job ], record s { host = w; jobs = jobs })

  unfoldable pub remember_backup_dir : Bytes → Server W → Server W
  remember_backup_dir d s =
      if bytes_eq (Settings.get s.settings).backup_dir d
      then s
      else (settings_set env (record (Settings.get s.settings) { backup_dir = d }) s).1

  -- POST, with the directory of the body, which is empty where it cannot be read.
  unfoldable pub backup_item :
      Request (Unit {0}) → Bytes → Backup.Clock → Bytes → Answer W BackupBody
  backup_item r wanted now id = run (
      let vm = trim_prefix r.path (codes "/api/backup/") in
      (do
        fail_if (bytes_eq vm [] || not (valid_name vm)) 400 (codes "invalid vm name")
        fail_if (not (is_method r (codes "POST"))) 405 (codes "method not allowed")
        d ← gets (backup_dest wanted)
        check_dir (codes "dest_dir") d
        job ← or_fail 400 [] (backup_start now id vm d)
        (λ s. pure tt (remember_backup_dir d s))
        reply 202 (BackupBody.started job)))

  unfoldable pub backup_collection : Request (Unit {0}) → Answer W BackupBody
  backup_collection r = run (
      if not (is_method r (codes "GET"))
      then not_allowed
      else (λ s. reply 200 (BackupBody.all_jobs (Backup.list s.jobs)) s))
