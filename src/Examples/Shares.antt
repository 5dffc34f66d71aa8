-- ===== src/Examples/Shares.antt =====
-- A share of a file server.
use zvm_extra.Base.{refl, true, false, [], ◌∷◌}
use zvm_extra.Bytes.{Bytes, codes, has_prefix, split}
use zvm_extra.Dict.{values}
use zvm_extra.FileStore.{Codec}
use zvm_extra.Examples.Hosts.{no_files, all_well, codec_of}
use zvm_extra.Mounts.{Entry, Manager, validate, upsert, delete}
use zvm_extra.Mounts.Safe.{IsSafe, AllSafe, edits_keep_safe}

abbrev share : Entry
share = record {
  id = codes "0a1b";
  name = codes "media";
  kind = codes "cifs";
  host = codes "nas";
  share = codes "media";
  mountpoint = codes "/media/nas";
  username = codes "tom";
  password = codes "s3cret";
  read_only = true;
  auto_mount = false;
  options = [];
}

abbrev manager : Manager
manager = record {
  store = record { entries = (codes "0a1b", share) ∷ []; disk = no_files };
  last = [];
}

abbrev codec : Codec Entry
codec = codec_of (codes "[{}]") (share ∷ [])

share_safe : IsSafe share
unfolding zvm_extra.Mounts.is_type zvm_extra.Bytes.bytes_eq zvm_extra.Bytes.trim_space has_prefix
    zvm_extra.Paths.is_abs zvm_extra.Bytes.contains zvm_extra.Mounts.system_path_of
    zvm_extra.Paths.clean zvm_extra.Bytes.join zvm_extra.Paths.clean_parts split
    zvm_extra.Mounts.plain_fields zvm_extra.Bytes.all_bytes zvm_extra.Mounts.is_plain
    zvm_extra.Mounts.is_id_byte
share_safe = record {
  typed = refl;
  host_named = refl;
  host_no_flag = refl;
  share_no_flag = refl;
  absolute = refl;
  no_parent = refl;
  outside = refl;
  plain = refl;
  hex = refl;
}

manager_safe : AllSafe manager.store.entries
unfolding values
manager_safe = (share_safe, tt)

edits_keep_safe_example :
    AllSafe (upsert codec all_well [] (record share { password = [] }) manager).1.store.entries
    × AllSafe (delete codec all_well (codes "0a1b") manager).1.store.entries
edits_keep_safe_example =
    edits_keep_safe codec all_well [] (record share { password = [] }) (codes "0a1b") manager
      manager_safe
