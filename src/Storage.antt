-- ===== src/Storage.antt =====
-- internal/storage/storage.go: the mount points that are offered as targets of snapshots.
pub mod Offered
use zvm_extra.Base.{
  leb, length, ℕ, ◌+◌, ◌*◌, ◌%◌, ◌^◌, Bool, true, false, not, Option, none, some, Result, ok, err,
  List, [], ◌∷◌, ◌++◌, ◌&&◌, ◌||◌, ◌>>=◌, if◌then◌else◌,
}
use zvm_extra.Bytes.{Bytes, codes, bytes_eq, has_prefix, fields, split}
use zvm_extra.Schedule.Order.{bytes_leb}

pub record Target : Type 0 where
  pub path : Bytes
  pub fs_type : Bytes
  pub source : Bytes
  pub avail_bytes : ℕ
  pub total_bytes : ℕ
  pub is_remote : Bool
  pub suggested : Bool

unfoldable pub member : Bytes → List Bytes → Bool
member s [] = false
member s (t ∷ ts) = let rest = member s ts in if bytes_eq s t then true else rest

abbrev pub pseudo_fs : List Bytes
pseudo_fs =
    codes "proc"
    ∷ codes "sysfs"
    ∷ codes "tmpfs"
    ∷ codes "devtmpfs"
    ∷ codes "cgroup"
    ∷ codes "cgroup2"
    ∷ codes "devpts"
    ∷ codes "mqueue"
    ∷ codes "fusectl"
    ∷ codes "rpc_pipefs"
    ∷ codes "overlay"
    ∷ codes "overlayfs"
    ∷ codes "squashfs"
    ∷ codes "nfsd"
    ∷ codes "binfmt_misc"
    ∷ codes "configfs"
    ∷ codes "debugfs"
    ∷ codes "tracefs"
    ∷ codes "pstore"
    ∷ codes "bpf"
    ∷ codes "hugetlbfs"
    ∷ codes "ramfs"
    ∷ codes "autofs"
    ∷ codes "securityfs"
    ∷ codes "fuse.gvfsd-fuse"
    ∷ []

abbrev pub remote_fs : List Bytes
remote_fs =
    codes "cifs"
    ∷ codes "smbfs"
    ∷ codes "nfs"
    ∷ codes "nfs4"
    ∷ codes "sshfs"
    ∷ codes "fuse.sshfs"
    ∷ codes "fuse.rclone"
    ∷ []

abbrev pub system_paths : List Bytes
system_paths =
    codes "/proc"
    ∷ codes "/sys"
    ∷ codes "/run"
    ∷ codes "/dev"
    ∷ codes "/boot"
    ∷ codes "/usr"
    ∷ codes "/etc"
    ∷ codes "/var/log"
    ∷ codes "/var/lib/bluetooth"
    ∷ codes "/var/lib/casaos"
    ∷ codes "/var/lib/casaos_data"
    ∷ codes "/var/lib/docker"
    ∷ codes "/var/lib/icewhale"
    ∷ codes "/var/lib/libvirt"
    ∷ codes "/var/lib/extensions"
    ∷ codes "/var/lib/rauc"
    ∷ codes "/var/lib/zerotier-one"
    ∷ codes "/var"
    ∷ codes "/opt"
    ∷ codes "/mnt/boot"
    ∷ codes "/mnt/overlay"
    ∷ []

-- The path is one of these, or lies below one.
below : Bytes → List Bytes → Bool
below p [] = false
below p (s ∷ ss) =
    let rest = below p ss in if bytes_eq p s || has_prefix p (s ++ b'/' ∷ []) then true else rest

unfoldable pub is_system_path : Bytes → Bool
unfolding below
is_system_path p = below p system_paths

-- What statfs says of a mount point: free blocks, blocks, and the size of one.
pub record Statfs : Type 0 where
  pub bavail : ℕ
  pub blocks : ℕ
  pub bsize : ℕ

-- Whether a line of /proc/mounts is passed over, whatever was seen before.
unfoldable pub is_hidden : Bytes → Bytes → Bytes → Bool
unfolding is_system_path
is_hidden mnt fs_type opts =
    member fs_type pseudo_fs
    || ((has_prefix fs_type (codes "fuse.")
          && not (bytes_eq fs_type (codes "fuse.sshfs"))
          && not (bytes_eq fs_type (codes "fuse.rclone")))
        || (is_system_path mnt || member (codes "ro") (split opts b',')))

-- The product of two uint64.
mul_64 : ℕ → ℕ → ℕ
mul_64 a b = (a * b) % 2 ^ 64

module _ (statfs : Bytes → Option Statfs) where
  target : Bytes → Bytes → Bytes → Target
  unfolding mul_64
  target src mnt fs_type = record {
    path = mnt;
    fs_type = fs_type;
    source = src;
    avail_bytes = elim (statfs mnt) [ none ↦ 0 | some st ↦ mul_64 st.bavail st.bsize ];
    total_bytes = elim (statfs mnt) [ none ↦ 0 | some st ↦ mul_64 st.blocks st.bsize ];
    is_remote = member fs_type remote_fs;
    suggested = false;
  }

  -- The target of a line, if it is not passed over; `seen` holds the sources so far.
  offered : List Bytes → List Bytes → Option Target
  unfolding is_hidden target
  offered (src ∷ mnt ∷ fs_type ∷ opts ∷ rest) seen =
      if is_hidden mnt fs_type opts || member src seen then none else some (target src mnt fs_type)
  offered _ seen = none

  scan : List Bytes → List Bytes → List Target
  unfolding offered
  scan [] seen = []
  scan (line ∷ lines) seen = elim (offered (fields line) seen) [
    | none ↦ scan lines seen
    | some t ↦ t ∷ scan lines (t.source ∷ seen)
  ]

-- The order of the list: /DATA first, then by path.
unfoldable pub comes_first : Target → Target → Bool
unfolding bytes_leb
comes_first a b =
    let da = bytes_eq a.path (codes "/DATA") in
    let db = bytes_eq b.path (codes "/DATA") in
    if da && not db then true else if db && not da then false else bytes_leb a.path b.path

insert : Target → List Target → List Target
unfolding comes_first
insert a [] = a ∷ []
insert a (b ∷ bs) = let rest = insert a bs in if comes_first a b then a ∷ b ∷ bs else b ∷ rest

sort : List Target → List Target
unfolding insert
sort [] = []
sort (t ∷ ts) = insert t (sort ts)

mark_first : List Target → List Target
mark_first [] = []
mark_first (t ∷ ts) = record t { suggested = true } ∷ ts

-- A line that the buffer of bufio.Scanner cannot hold.
abbrev pub max_line : ℕ
max_line = 65536

unfoldable pub is_too_long : List Bytes → Bool
is_too_long [] = false
is_too_long (line ∷ lines) =
    let rest = is_too_long lines in if leb max_line (length line) then true else rest

-- `mounts` is what reading /proc/mounts gives.
unfoldable pub list : (Bytes → Option Statfs) → Result Bytes → Result (List Target)
unfolding scan sort mark_first is_too_long
list statfs mounts = do
  out ← mounts
  (if is_too_long (split out b'\n')
      then err (codes "bufio.Scanner: token too long")
      else ok (mark_first (sort (scan statfs (split out b'\n') []))))
