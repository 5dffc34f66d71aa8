-- ===== src/Examples/Machines.antt =====
-- A domain with a snapshot, disks, host devices and a TPM.
use zvm_extra.Base.{
  inr, ◌≡◌, ◌≢◌, ◌⊎◌, refl, true, ok, Result, List, [], ◌∷◌, ◌++◌, arith, All, map, inl, Pairwise,
}
use zvm_extra.Bytes.{Bytes, codes}
use zvm_extra.Virsh.Tables.{Disk, list_snapshots}
use zvm_extra.Virsh.Tables.Columns.{IsColumn}
use zvm_extra.Handlers.Names.Listing.{Row, IsListed, shown, list_snapshots_shows}
use zvm_extra.Virsh.Hostdevs.{Hostdev}
use zvm_extra.Virsh.Hostdevs.Found.{attached_pci, attached_usb}
use zvm_extra.Virsh.Commands.{disk_specs}
use zvm_extra.Virsh.Commands.Overlays.{overlays, specs_with, disk_specs_distinct}
use zvm_extra.Virsh.TpmXml.{set_tpm_xml, tpm_info_xml, tpm_device}
use zvm_extra.Virsh.TpmXml.Edit.{Inserted, enable_adds_tpm}
use zvm_extra.Virsh.TpmXml.Restore.{Restored, disable_restores}

abbrev listing : Bytes
listing =
    codes
      " Name   Creation Time   State     Parent\n----------------------\n a b    now             shutoff    \n c      now             shutoff   a b\n"

abbrev row : Row
row = record {
  name = codes "a b";
  created_at = codes "now";
  state = codes "shutoff";
  parent = [];
  lead = 1;
  gap = 2;
  wide = 11;
  more = 0;
  trail = 4;
}

abbrev child : Row
child = record {
  name = codes "c";
  created_at = codes "now";
  state = codes "shutoff";
  parent = codes "a b";
  lead = 1;
  gap = 4;
  wide = 11;
  more = 1;
  trail = 0;
}

now_IsColumn : IsColumn (codes "now")
unfolding zvm_extra.Bytes.trim_space
now_IsColumn = record {
  first = b'n';
  rest = codes "ow";
  spelled = refl;
  first_solid = refl;
  spaced = inl (refl, inl (refl, refl));
  trimmed = refl;
}

shutoff_IsColumn : IsColumn (codes "shutoff")
unfolding zvm_extra.Bytes.trim_space
shutoff_IsColumn = record {
  first = b's';
  rest = codes "hutoff";
  spelled = refl;
  first_solid = refl;
  spaced = inl (refl, inl (refl, inl (refl, inl (refl, inl (refl, inl (refl, refl))))));
  trimmed = refl;
}

row-IsListed : All IsListed (row ∷ child ∷ [])
unfolding zvm_extra.Handlers.Names.valid_snapshot_name zvm_extra.Bytes.bytes_eq
    zvm_extra.Bytes.trim_space zvm_extra.Bytes.contains zvm_extra.Bytes.all_bytes
    zvm_extra.Handlers.Names.is_snapshot_byte zvm_extra.Handlers.Names.is_name_byte
row-IsListed = (
  record { accepted = refl; created = now_IsColumn; standing = shutoff_IsColumn; child = inl refl },
  (
    record {
      accepted = refl;
      created = now_IsColumn;
      standing = shutoff_IsColumn;
      child = inr refl;
    },
    tt,
  ),
)

list_snapshots_shows_example :
    list_snapshots listing (codes "a b") ≡ map (shown (codes "a b")) (row ∷ child ∷ [])
unfolding zvm_extra.Virsh.Tables.rows zvm_extra.Bytes.split zvm_extra.Bytes.has_prefix
    zvm_extra.Bytes.trim_space zvm_extra.Handlers.Names.Listing.line_of
    zvm_extra.Handlers.Names.Listing.columns zvm_extra.Handlers.Names.Listing.last_columns
    zvm_extra.Virsh.Tables.Columns.print
list_snapshots_shows_example =
    list_snapshots_shows listing (codes "a b") (row ∷ child ∷ []) ([] ∷ []) row-IsListed (refl, tt)
      refl

abbrev unmarshal : Bytes → Result (List Hostdev)
unmarshal xml = ok (
    map attached_pci (codes "0000:01:00.0" ∷ [])
    ++ map attached_usb ((codes "0781", codes "5581") ∷ []))

abbrev disks : List Disk
disks =
    record {
      kind = codes "file";
      device = codes "disk";
      target = codes "vda";
      source = codes "/DATA/a.qcow2";
    }
    ∷ record {
      kind = codes "file";
      device = codes "cdrom";
      target = codes "sda";
      source = codes "/DATA/a.iso";
    }
    ∷ record {
      kind = codes "file";
      device = codes "disk";
      target = codes "vdb";
      source = codes "/DATA/b.qcow2";
    }
    ∷ []

disk_specs_distinct_example :
    (disk_specs (codes "/DATA/s") (codes "a") 0 disks
      ≡ specs_with disks (overlays (codes "/DATA/s") (codes "a") 0 disks))
    × Pairwise (λ p q. p ≢ q) (overlays (codes "/DATA/s") (codes "a") 0 disks)
disk_specs_distinct_example = disk_specs_distinct (codes "/DATA/s") (codes "a") disks (omega arith)

abbrev plain_xml : Bytes
plain_xml = codes "<domain><devices> </devices></domain>"

abbrev tpm_xml : Bytes
tpm_xml = codes "<domain><devices> " ++ (tpm_device ++ codes "</devices></domain>")

enable_adds_tpm_example :
    ((tpm_info_xml tpm_xml).present ≡ true) × ((tpm_xml ≡ plain_xml) ⊎ Inserted plain_xml tpm_xml)
unfolding set_tpm_xml tpm_info_xml zvm_extra.Virsh.TpmXml.find_tpm zvm_extra.Virsh.TpmXml.match_tpm
    zvm_extra.Bytes.has_prefix zvm_extra.Virsh.TpmXml.span zvm_extra.Virsh.TpmXml.last_text
enable_adds_tpm_example = enable_adds_tpm plain_xml tpm_xml refl

disable_restores_example : Restored plain_xml tpm_xml
unfolding zvm_extra.Bytes.contains set_tpm_xml tpm_info_xml zvm_extra.Virsh.TpmXml.find_tpm
    zvm_extra.Virsh.TpmXml.match_tpm zvm_extra.Virsh.TpmXml.span zvm_extra.Virsh.TpmXml.last_text
disable_restores_example = disable_restores plain_xml tpm_xml refl refl
