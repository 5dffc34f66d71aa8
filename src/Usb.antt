-- ===== src/Usb.antt =====
-- internal/usb/usb.go: host devices from the output of `lsusb`, and the XML of a passthrough.
pub mod Lsusb
pub mod Store
use zvm_extra.Base.{
  Bool, true, false, Option, none, some, Result, ok, err, List, [], ◌∷◌, ◌++◌, ◌&&◌, if◌then◌else◌,
  ◌>>=◌,
}
use zvm_extra.Bytes.{
  Bytes, codes, bytes_eq, to_lower, trim_space, split, fields, cut, join, trim_suffix,
}
use zvm_extra.Dict.{Dict, get}

pub record Device : Type 0 where
  pub bus : Bytes
  pub device_id : Bytes
  pub vendor_id : Bytes
  pub product_id : Bytes
  pub description : Bytes

abbrev pub blocked_vendors : Dict (Unit {0})
blocked_vendors = (codes "1d6b", tt) ∷ []

unfoldable pub is_root_hub : Bytes → Bool
is_root_hub vendor_id = elim (get blocked_vendors (to_lower vendor_id)) [
  | none ↦ false
  | some _ ↦ true
]

-- One line of the output, trimmed; `none` where the loop goes on to the next.
parse_fields : List Bytes → Option Device
parse_fields (p0 ∷ p1 ∷ p2 ∷ p3 ∷ p4 ∷ p5 ∷ rest) =
    if bytes_eq p0 (codes "Bus") && bytes_eq p2 (codes "Device") && bytes_eq p4 (codes "ID")
    then elim (cut p5 b':') [
      | none ↦ none
      | some (vendor, product) ↦ some (record {
        bus = p1;
        device_id = trim_suffix p3 (codes ":");
        vendor_id = to_lower vendor;
        product_id = to_lower product;
        description = join rest (codes " ");
      })
    ]
    else none
parse_fields _ = none

parse_line : Bytes → Option Device
unfolding parse_fields
parse_line line = if bytes_eq line [] then none else parse_fields (fields line)

parse_lines : List Bytes → List Device
unfolding parse_line
parse_lines [] = []
parse_lines (line ∷ lines) = elim (parse_line (trim_space line)) [
  | none ↦ parse_lines lines
  | some d ↦ d ∷ parse_lines lines
]

unfoldable pub parse_lsusb : Bytes → List Device
unfolding parse_lines
parse_lsusb out = parse_lines (split out b'\n')

unfoldable pub without_root_hubs : List Device → List Device
without_root_hubs [] = []
without_root_hubs (d ∷ ds) =
    if is_root_hub d.vendor_id then without_root_hubs ds else d ∷ without_root_hubs ds

-- `lsusb` is what the run of the program gives: its output, or an error.
unfoldable pub host_list : Result Bytes → Result (List Device)
unfolding parse_lsusb without_root_hubs
host_list lsusb = do out ← lsusb; ok (without_root_hubs (parse_lsusb out))

unfoldable pub hostdev_xml : Bytes → Bytes → Bytes
hostdev_xml vendor_id product_id =
    codes "<hostdev mode='subsystem' type='usb' managed='yes'>\n  <source>\n    <vendor id='0x"
    ++ to_lower vendor_id
    ++ codes "'/>\n    <product id='0x"
    ++ to_lower product_id
    ++ codes "'/>\n  </source>\n</hostdev>"
