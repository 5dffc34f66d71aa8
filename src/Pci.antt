-- ===== src/Pci.antt =====
-- internal/pci/pci.go: host devices from the output of `lspci -Dvmmnnk`, PCI addresses, and the XML
-- of a passthrough.
pub mod Address
pub mod Store
use zvm_extra.Base.{
  ℕ, suc, ◌+◌, Bool, true, false, not, Option, none, some, Result, ok, err, List, [], ◌∷◌, ◌++◌,
  ◌&&◌, ◌>>=◌, leb, ◌==◌, if◌then◌else◌, length, take,
}
use zvm_extra.Bytes.{
  Bytes, codes, bytes_eq, to_lower, trim_space, split, cut, slice, last_index, has_prefix,
  all_bytes, is_hex_digit,
}

pub record Device : Type 0 where
  pub address : Bytes
  pub vendor_id : Bytes
  pub device_id : Bytes
  pub class : Bytes
  pub class_name : Bytes
  pub description : Bytes
  pub driver : Bytes
  pub iommu_group : Bytes
  pub passable : Bool

abbrev no_device : Device
no_device = record {
  address = [];
  vendor_id = [];
  device_id = [];
  class = [];
  class_name = [];
  description = [];
  driver = [];
  iommu_group = [];
  passable = false;
}

unfoldable pub last_bracket_id : Bytes → Bytes
last_bracket_id s = elim (last_index s b']') [
  | none ↦ []
  | some close ↦ elim (last_index (take close s) b'[') [
    | none ↦ []
    | some start ↦ slice s (start + 1) close
  ]
]

unfoldable pub strip_last_bracket : Bytes → Bytes
strip_last_bracket s = elim (last_index s b']') [
  | none ↦ trim_space s
  | some close ↦ elim (last_index (take close s) b'[') [
    | none ↦ trim_space s
    | some start ↦ trim_space (take start s)
  ]
]

unfoldable pub is_passable : Bytes → Bool
is_passable class =
    if bytes_eq class [] then false else not (has_prefix (to_lower class) (codes "06"))

-- The record that is being read, and the devices so far.
flush : Device → List Device → List Device
unfolding is_passable
flush cur devs =
    if bytes_eq cur.address []
    then devs
    else devs
      ++ record cur { description = trim_space cur.description; passable = is_passable cur.class }
        ∷ []

set_key : Bytes → Bytes → Device → Device
unfolding last_bracket_id strip_last_bracket
set_key key val cur =
    if bytes_eq key (codes "Slot")
    then record cur { address = val }
    else if bytes_eq key (codes "Class")
    then record cur { class_name = strip_last_bracket val; class = last_bracket_id val }
    else if bytes_eq key (codes "Vendor")
    then record cur { description = strip_last_bracket val; vendor_id = last_bracket_id val }
    else if bytes_eq key (codes "Device")
    then record cur {
      description = trim_space (cur.description ++ codes " " ++ strip_last_bracket val);
      device_id = last_bracket_id val;
    }
    else if bytes_eq key (codes "Driver")
    then record cur { driver = val }
    else cur

parse_line : Bytes → Device → Device
unfolding set_key
parse_line line cur = elim (cut line b':') [
  | none ↦ cur
  | some (key, val) ↦ set_key key (trim_space val) cur
]

parse_lines : List Bytes → Device → List Device → List Device
unfolding parse_line flush
parse_lines [] cur devs = flush cur devs
parse_lines (line ∷ lines) cur devs = elim (bytes_eq (trim_space line) []) [
  | true ↦ parse_lines lines no_device (flush cur devs)
  | false ↦ parse_lines lines (parse_line line cur) devs
]

unfoldable pub parse_lspci : Bytes → List Device
unfolding parse_lines
parse_lspci out = parse_lines (split out b'\n') no_device []

set_groups : (Bytes → Bytes) → List Device → List Device
set_groups iommu_group [] = []
set_groups iommu_group (d ∷ ds) =
    record d { iommu_group = iommu_group d.address } ∷ set_groups iommu_group ds

-- `lspci` is the output of the program, or an error; `iommu_group` reads a link in sysfs.
unfoldable pub host_list : (Bytes → Bytes) → Result Bytes → Result (List Device)
unfolding parse_lspci set_groups
host_list iommu_group lspci = do out ← lspci; ok (set_groups iommu_group (parse_lspci out))

unfoldable pub is_hex : Bytes → Bool
unfolding all_bytes is_hex_digit
is_hex s = if all_bytes is_hex_digit s then not (bytes_eq s []) else false

is_function : Bytes → Bool
is_function [] = false
is_function (c ∷ s) = length (c ∷ s) == 1 && leb b'0' c && leb c b'7'

unfoldable pub valid_address : Bytes → Bool
unfolding is_hex is_function
valid_address s = elim (cut s b':') [
  | none ↦ false
  | some (dom, rest) ↦ if not (length dom == 4 && is_hex dom) then false else elim (cut rest b':') [
    | none ↦ false
    | some (bus, sf) ↦ if not (length bus == 2 && is_hex bus) then false else elim (cut sf b'.') [
      | none ↦ false
      | some (slot, fn) ↦ if not (length slot == 2 && is_hex slot) then false else is_function fn
    ]
  ]
]

-- The three cuts of an address; `none` if a separator is missing.
unfoldable pub address_parts : Bytes → Option (Bytes × Bytes × Bytes × Bytes)
address_parts s = elim (cut s b':') [
  | none ↦ none
  | some (dom, rest) ↦ elim (cut rest b':') [
    | none ↦ none
    | some (bus, sf) ↦ elim (cut sf b'.') [
      | none ↦ none
      | some (slot, fn) ↦ some (dom, bus, slot, fn)
    ]
  ]
]

address_xml : Bytes → Bytes → Bytes → Bytes → Bytes
address_xml dom bus slot fn =
    codes "<hostdev mode='subsystem' type='pci' managed='yes'>\n  <source>\n    <address domain='0x"
    ++ to_lower dom
    ++ codes "' bus='0x"
    ++ to_lower bus
    ++ codes "' slot='0x"
    ++ to_lower slot
    ++ codes "' function='0x"
    ++ to_lower fn
    ++ codes "'/>\n  </source>\n</hostdev>"

-- A valid address has all its separators.
unfoldable pub hostdev_xml : Bytes → Result Bytes
unfolding address_xml
hostdev_xml address =
    if not (valid_address address)
    then err (codes "invalid pci address " ++ address)
    else elim (address_parts address) [
      | none ↦ err []
      | some (dom, bus, slot, fn) ↦ ok (address_xml dom bus slot fn)
    ]
