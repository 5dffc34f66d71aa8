-- ===== src/Mounts/Commands.antt =====
-- internal/mounts/mounts.go: the calls of mount and umount.
use zvm_extra.Base.{
  Option, none, some, Result, ok, err, List, [], ◌∷◌, ◌++◌, ◌||◌, not, if◌then◌else◌,
}
use zvm_extra.Bytes.{Bytes, codes, bytes_eq, trim_prefix}
use zvm_extra.Dict.{get, Dict}
use zvm_extra.Action.{Action, raise, ◌>>◌, finally}
use zvm_extra.Mounts.{Entry, Manager, is_mounted, set_error}

-- The calls of the system: the text of /proc/mounts, the making of a directory, a process, and
-- those on the file of the credentials.
pub record Host (W : Type 0) : Type 0 where
  pub proc_mounts : W → Option Bytes
  pub mkdir_all : Bytes → Action W (Unit {0})
  pub run_cmd : Bytes → List Bytes → Action W (Unit {0})
  pub create_creds : Action W Bytes
  pub write_creds : Bytes → Bytes → Action W (Unit {0})
  pub close_creds : Bytes → Action W (Unit {0})
  pub chmod_creds : Bytes → Action W (Unit {0})
  pub remove_creds : Bytes → W → W

unfoldable pub nfs_args : Entry → List Bytes
nfs_args e =
    codes "-t"
    ∷ (if bytes_eq e.kind (codes "nfs4") then codes "nfs4" else codes "nfs")
    ∷ codes "-o"
    ∷ ((if e.read_only then codes "ro" else codes "rw")
        ++ (codes ",nosuid,nodev,hard,timeo=600,retrans=2,_netdev"
            ++ (if bytes_eq e.options [] then [] else b',' ∷ e.options)))
    ∷ codes "--"
    ∷ (e.host ++ b':' ∷ e.share)
    ∷ e.mountpoint
    ∷ []

-- The text of the credentials file.
unfoldable pub creds_content : Entry → Bytes
creds_content e =
    codes "username=" ++ (e.username ++ (codes "\npassword=" ++ (e.password ++ codes "\n")))

unfoldable pub cifs_args : Bytes → Entry → List Bytes
cifs_args creds e =
    codes "-t"
    ∷ codes "cifs"
    ∷ codes "-o"
    ∷ (codes "credentials="
        ++ (creds
            ++ (codes ",uid=0,gid=0,iocharset=utf8,vers=3.0,nosuid,nodev,_netdev"
                ++ ((if e.read_only then codes ",ro" else [])
                    ++ (if bytes_eq e.options [] then [] else b',' ∷ e.options)))))
    ∷ codes "--"
    ∷ (codes "//" ++ (e.host ++ b'/' ∷ trim_prefix e.share (codes "/")))
    ∷ e.mountpoint
    ∷ []

-- The ids of the entries that are mounted at start.
unfoldable pub auto_ids : Dict Entry → List Bytes
auto_ids [] = []
auto_ids ((id, e) ∷ d) = let rest = auto_ids d in if e.auto_mount then id ∷ rest else rest

module _ {W : Type 0} (host : Host W) where
  unfoldable pub because : Bytes → Action W (Unit {0}) → Action W (Unit {0})
  because what m w =
      let (r, w') = m w in elim r [ ok a ↦ (ok a, w') | err e ↦ (err (what ++ e), w') ]

  unfoldable pub do_mount_nfs : Entry → Action W (Unit {0})
  do_mount_nfs e = host.run_cmd (codes "/usr/bin/mount") (nfs_args e)

  -- A file that cannot be written is closed.
  write_file : Bytes → Entry → Action W (Unit {0})
  write_file creds e w =
      let (r, w') = host.write_creds creds (creds_content e) w in
      elim r [
        | err m ↦ (err (codes "write creds: " ++ m), (host.close_creds creds w').1)
        | ok _ ↦ because (codes "write creds: ") (host.close_creds creds) w'
      ]

  unfoldable pub do_mount_cifs : Entry → Action W (Unit {0})
  unfolding write_file
  do_mount_cifs e w =
      let (r, w') = host.create_creds w in
      elim r [
        | err m ↦ (err (codes "create creds file: " ++ m), w')
        | ok creds ↦
            finally
              (do
                write_file creds e
                because (codes "chmod creds: ") (host.chmod_creds creds)
                host.run_cmd (codes "/usr/bin/mount") (cifs_args creds e))
              (host.remove_creds creds) w'
      ]

  unfoldable pub do_mount : Entry → Action W (Unit {0})
  do_mount e =
      if bytes_eq e.kind (codes "nfs") || bytes_eq e.kind (codes "nfs4")
      then do_mount_nfs e
      else if bytes_eq e.kind (codes "cifs") || bytes_eq e.kind (codes "smb")
      then do_mount_cifs e
      else raise (codes "unsupported mount type \"" ++ (e.kind ++ codes "\""))

  abbrev unknown : Bytes → Bytes
  unknown id = codes "mount id \"" ++ (id ++ codes "\" not found")

  -- The mount of an entry that is not mounted; its error is kept for the page.
  unfoldable pub mount_entry : Bytes → Entry → Manager → W → Result (Unit {0}) × Manager × W
  mount_entry id e m w =
      let (r, w') = host.mkdir_all e.mountpoint w in
      elim r [
        | err msg ↦ (err (codes "mkdir mountpoint: " ++ msg), m, w')
        | ok _ ↦
            let (s, v) = do_mount e w' in
            elim s [
              | err msg ↦ (err msg, set_error id msg m, v)
              | ok _ ↦ (ok tt, set_error id [] m, v)
            ]
      ]

  unfoldable pub mount : Bytes → Manager → W → Result (Unit {0}) × Manager × W
  mount id m w = elim (get m.store.entries id) [
    | none ↦ (err (unknown id), m, w)
    | some e ↦
        if is_mounted (host.proc_mounts w) e.mountpoint then (ok tt, m, w) else mount_entry id e m w
  ]

  unfoldable pub unmount : Bytes → Manager → Action W (Unit {0})
  unmount id m w = elim (get m.store.entries id) [
    | none ↦ (err (unknown id), w)
    | some e ↦
        if not (is_mounted (host.proc_mounts w) e.mountpoint)
        then (ok tt, w)
        else host.run_cmd (codes "/usr/bin/umount") (e.mountpoint ∷ []) w
  ]

  -- The failed ids with their errors, the manager and the world.
  unfoldable pub mount_ids : List Bytes → Manager → W → List (Bytes × Bytes) × Manager × W
  mount_ids [] m w = ([], m, w)
  mount_ids (id ∷ ids) m w =
      let (r, m', w') = mount id m w in
      let (log, m'', w'') = mount_ids ids m' w' in
      (elim r [ ok _ ↦ log | err msg ↦ (id, msg) ∷ log ], m'', w'')

  unfoldable pub mount_all_auto : Manager → W → List (Bytes × Bytes) × Manager × W
  mount_all_auto m w = mount_ids (auto_ids m.store.entries) m w
