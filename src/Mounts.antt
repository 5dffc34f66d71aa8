-- ===== src/Mounts.antt =====
-- internal/mounts/mounts.go: the network mounts and their file.
pub mod Commands
pub mod Safe
pub mod Runs
use zvm_extra.Base.{
  ℕ, suc, ◌+◌, ◌-◌, ◌/◌, ◌%◌, Bool, true, false, not, Option, none, some, Result, ok, err, List, [],
  ◌∷◌, ◌++◌, ◌&&◌, ◌||◌, if◌then◌else◌, leb, ◌==◌, ◌>>=◌, ◌>>◌, map,
}
use zvm_extra.Bytes.{
  Bytes, codes, bytes_eq, has_prefix, contains, trim_space, split, fields, all_bytes,
}
use zvm_extra.Dict.{Dict, get, put, remove, values}
use zvm_extra.FileStore.{Codec, Disk, SaveCalls, Store}
use zvm_extra.FileStore
use zvm_extra.Paths.{is_abs, clean}

pub record Entry : Type 0 where
  pub id : Bytes
  pub name : Bytes
  pub kind : Bytes
  pub host : Bytes
  pub share : Bytes
  pub mountpoint : Bytes
  pub username : Bytes
  pub password : Bytes
  pub read_only : Bool
  pub auto_mount : Bool
  pub options : Bytes

-- What the page gets: no password.
pub record PublicView : Type 0 where
  pub id : Bytes
  pub name : Bytes
  pub kind : Bytes
  pub host : Bytes
  pub share : Bytes
  pub mountpoint : Bytes
  pub username : Bytes
  pub has_password : Bool
  pub read_only : Bool
  pub auto_mount : Bool
  pub options : Bytes
  pub mounted : Bool
  pub last_error : Bytes

-- `last` holds the last error of each id.
pub record Manager : Type 0 where
  pub store : Store Entry
  pub last : Dict Bytes

unfoldable pub is_type : Bytes → Bool
is_type t =
    bytes_eq t (codes "nfs")
    || (bytes_eq t (codes "nfs4") || (bytes_eq t (codes "cifs") || bytes_eq t (codes "smb")))

abbrev pub system_paths : List Bytes
system_paths =
    codes "/"
    ∷ codes "/proc"
    ∷ codes "/sys"
    ∷ codes "/dev"
    ∷ codes "/run"
    ∷ codes "/boot"
    ∷ codes "/usr"
    ∷ codes "/etc"
    ∷ codes "/opt"
    ∷ codes "/var"
    ∷ []

-- The system path that a clean path is or is below.
unfoldable pub system_path_of : List Bytes → Bytes → Option Bytes
system_path_of [] p = none
system_path_of (f ∷ fs) p =
    let rest = system_path_of fs p in
    if bytes_eq p f || has_prefix p (f ++ codes "/") then some f else rest

-- No byte of "`$;|&<>\"\\\n"
unfoldable pub is_plain : ℕ → Bool
is_plain c = not (
    c == b'`'
    || (c == b'$'
        || (c == b';'
            || (c == b'|'
                || (c == b'&'
                    || (c == b'<' || (c == b'>' || (c == b'"' || (c == b'\\' || c == b'\n')))))))))

-- A digit of the ids that newID makes.
unfoldable pub is_id_byte : ℕ → Bool
is_id_byte r = (leb b'0' r && leb r b'9') || (leb b'a' r && leb r b'f')

unfoldable pub plain_fields : Entry → Bool
plain_fields e =
    (all_bytes is_plain e.host && all_bytes is_plain e.share)
    && (all_bytes is_plain e.username
        && (all_bytes is_plain e.options && all_bytes is_plain e.password))

abbrev guard : Bool → Bytes → Result (Unit {0})
guard bad m = if bad then err m else ok tt

unfoldable pub validate : Entry → Result (Unit {0})
validate e = do
  guard (not (is_type e.kind)) (codes "type must be nfs|nfs4|cifs|smb")
  guard (bytes_eq (trim_space e.host) []) (codes "host required")
  guard (bytes_eq (trim_space e.share) []) (codes "share required")
  guard (has_prefix e.host (codes "-")) (codes "host must not start with '-'")
  guard (has_prefix e.share (codes "-")) (codes "share must not start with '-'")
  guard (not (is_abs e.mountpoint)) (codes "mountpoint must be absolute path")
  guard (contains e.mountpoint (codes "..")) (codes "mountpoint must not contain '..'")
  elim (system_path_of system_paths (clean e.mountpoint)) [
    | some f ↦ err (codes "mountpoint not allowed (system path " ++ (f ++ codes ")"))
    | none ↦ ok tt
  ]
  guard (not (plain_fields e)) (codes "invalid characters in input")
  guard (not (all_bytes is_id_byte e.id)) (codes "invalid id")

-- A digit of `hex.EncodeToString`.
unfoldable pub hex_digit : ℕ → ℕ
hex_digit n = if leb n 9 then b'0' + n else b'a' + (n - 10)

-- newID, of the eight bytes that crypto/rand gives.
unfoldable pub new_id : List ℕ → Bytes
unfolding hex_digit
new_id [] = []
new_id (b ∷ bs) = hex_digit (b / 16 % 16) ∷ hex_digit (b % 16) ∷ new_id bs

-- The text of /proc/mounts, or `none` where it cannot be read.
unfoldable pub is_mount_line : Bytes → List Bytes → Bool
is_mount_line path (a ∷ b ∷ more) = bytes_eq b path
is_mount_line path _ = false

unfoldable pub any_line : Bytes → List Bytes → Bool
any_line path [] = false
any_line path (line ∷ lines) =
    let rest = any_line path lines in if is_mount_line path (fields line) then true else rest

unfoldable pub is_mounted : Option Bytes → Bytes → Bool
is_mounted proc_mounts path = elim proc_mounts [
  | none ↦ false
  | some b ↦ any_line (clean path) (split b b'\n')
]

abbrev key : Entry → Bytes
key e = e.id

-- The label of an unreadable file's error.
abbrev label : Bytes
label = codes "mounts decode: "

unfoldable pub to_view : Option Bytes → Manager → Entry → PublicView
to_view proc_mounts m e = record {
  id = e.id;
  name = e.name;
  kind = e.kind;
  host = e.host;
  share = e.share;
  mountpoint = e.mountpoint;
  username = e.username;
  has_password = not (bytes_eq e.password []);
  read_only = e.read_only;
  auto_mount = e.auto_mount;
  options = e.options;
  mounted = is_mounted proc_mounts e.mountpoint;
  last_error = elim (get m.last e.id) [ none ↦ [] | some msg ↦ msg ];
}

unfoldable pub list : Option Bytes → Manager → List PublicView
list proc_mounts m = map (to_view proc_mounts m) (values m.store.entries)

unfoldable pub get_view : Option Bytes → Bytes → Manager → Option PublicView
get_view proc_mounts id m = elim (get m.store.entries id) [
  | none ↦ none
  | some e ↦ some (to_view proc_mounts m e)
]

-- A new entry gets an id.
unfoldable pub with_id : List ℕ → Entry → Entry
with_id random e = if bytes_eq e.id [] then record e { id = new_id random } else e

-- An empty password stands for the one that is stored.
unfoldable pub keep_password : Dict Entry → Entry → Entry
keep_password d e = elim (get d e.id) [
  | none ↦ e
  | some old ↦ if bytes_eq e.password [] then record e { password = old.password } else e
]

unfoldable pub set_error : Bytes → Bytes → Manager → Manager
set_error id msg m =
    if bytes_eq msg []
    then record m { last = remove id m.last }
    else record m { last = put id msg m.last }

module _ (codec : Codec Entry) where
  unfoldable pub new : Option Bytes → Disk → Result Manager
  new unreadable d = do
    s ← FileStore.new_store codec key label unreadable d
    ok (record { store = s; last = [] })

  -- `random` are the bytes of crypto/rand, for an entry without an id.
  unfoldable pub upsert : SaveCalls → List ℕ → Entry → Manager → Result Entry × Manager
  upsert calls random e m = elim (validate e) [
    | err msg ↦ (err msg, m)
    | ok _ ↦
        let stored = keep_password m.store.entries (with_id random e) in
        let (r, s) = FileStore.upsert codec key calls stored m.store in
        (elim r [ err msg ↦ err msg | ok _ ↦ ok stored ], record m { store = s })
  ]

  unfoldable pub delete : SaveCalls → Bytes → Manager → Result (Unit {0}) × Manager
  delete calls id m =
      let (r, s) = FileStore.delete codec key calls id m.store in
      (r, record { store = s; last = remove id m.last })
