-- ===== src/Examples/Targets.antt =====
-- The mounts of a host with a data disk, a share and its system.
use zvm_extra.Base.{Option, some, ok, refl, [], ◌∷◌, true, false}
use zvm_extra.Bytes.{Bytes, codes}
use zvm_extra.Storage.{Target, Statfs, list}
use zvm_extra.Storage.Offered.{IsOffer, list-IsOffer}

abbrev mounts : Bytes
mounts =
    codes
      "proc /proc proc rw 0 0\n/dev/sda8 /media/old ext4 ro,noatime 0 0\n/dev/sdb1 /media/usb ext4 rw 0 0\n/dev/sda7 /DATA ext4 rw 0 0\n/dev/sda7 /media/again ext4 rw 0 0\n"

abbrev statfs : Bytes → Option Statfs
statfs path = some (record { bavail = 10; blocks = 100; bsize = 4096 })

abbrev data_disk : Target
data_disk = record {
  path = codes "/DATA";
  fs_type = codes "ext4";
  source = codes "/dev/sda7";
  avail_bytes = 40960;
  total_bytes = 409600;
  is_remote = false;
  suggested = true;
}

abbrev usb : Target
usb = record {
  path = codes "/media/usb";
  fs_type = codes "ext4";
  source = codes "/dev/sdb1";
  avail_bytes = 40960;
  total_bytes = 409600;
  is_remote = false;
  suggested = false;
}

list-IsOffer_example : IsOffer (data_disk ∷ usb ∷ [])
unfolding list zvm_extra.Bytes.split zvm_extra.Bytes.fields zvm_extra.Storage.member
    zvm_extra.Bytes.bytes_eq zvm_extra.Bytes.has_prefix
list-IsOffer_example = list-IsOffer statfs (ok mounts) refl
