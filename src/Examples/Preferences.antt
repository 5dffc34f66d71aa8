-- ===== src/Examples/Preferences.antt =====
-- A backup directory that is set, and the file name of a snapshot.
use zvm_extra.Virsh.FileStem.{file_stem}
use zvm_extra.Virsh.FileStem.Safe.{IsSafe, file_stem-IsSafe}
use zvm_extra.Base.{◌≡◌, arith, none, ok, err, [], ◌++◌, if◌then◌else◌}
use zvm_extra.Bytes.{Bytes, codes, bytes_eq}
use zvm_extra.Examples.Hosts.{no_files, all_well}
use zvm_extra.Settings.{Data, Codec, Store, no_data, new_store, set, get}
use zvm_extra.Settings.Saved.{ReadsBack, new_store-set}

abbrev remote : Data
remote = record { backup_dir = codes "/media/nas"; snapshot_dir = [] }

abbrev codec : Codec
codec = record {
  encode = λ d. ok (codes "{" ++ (d.backup_dir ++ codes "}"));
  decode = λ b old.
      if bytes_eq b (codes "{/media/nas}") then ok remote else err (codes "invalid character");
}

codec-ReadsBack : ReadsBack codec remote
unfolding bytes_eq
codec-ReadsBack b e = (ground (arith, e), λ h. ground (arith, e, h))

abbrev store : Store
store = record { data_set = no_data; disk = no_files }

new_store-set_example :
    ((set codec all_well remote store).0 ≡ ok tt
      → (t : Store) × (new_store codec none (set codec all_well remote store).1.disk ≡ ok t)
        × (get t ≡ remote))
    × ((m : Bytes)
        → (set codec all_well remote store).0 ≡ err m
        → (set codec all_well remote store).1.disk.file ≡ store.disk.file)
new_store-set_example = new_store-set codec all_well remote store codec-ReadsBack

file_stem-IsSafe_example : IsSafe (file_stem (codes "../before the update?"))
file_stem-IsSafe_example = file_stem-IsSafe (codes "../before the update?")
