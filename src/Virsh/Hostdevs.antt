-- ===== src/Virsh/Hostdevs.antt =====
-- internal/virsh/virsh.go: the host devices and the network cards in the configuration of a domain.
-- What `xml.Unmarshal` reads into the structures of the source is a parameter.
pub mod Hex
pub mod Parts
pub mod Found
use zvm_extra.Base.{
  ℕ, zero, suc, ◌+◌, ◌-◌, ◌*◌, ◌^◌, Bool, true, false, not, Option, none, some, Result, ok, err,
  List, [], ◌∷◌, ◌++◌, ◌&&◌, ◌||◌, if◌then◌else◌, leb, ltb, ◌==◌, map,
}
use zvm_extra.Bytes.{Bytes, codes, bytes_eq, to_lower, trim_space, trim_prefix, is_hex_digit}
use zvm_extra.Action.{Action, pure, asks, ◌>>=◌, ◌>>◌}
use zvm_extra.Pci.{address_parts}
use zvm_extra.Virsh.Commands.{Runner, inactive_xml}

-- An element <hostdev> under <devices>; an attribute that is not there is empty.
pub record Hostdev : Type 0 where
  pub kind : Bytes
  pub vendor : Bytes
  pub product : Bytes
  pub domain : Bytes
  pub bus : Bytes
  pub slot : Bytes
  pub function : Bytes

unfoldable pub is_usb_hostdev : Bytes → Bytes → Hostdev → Bool
is_usb_hostdev want_v want_p h =
    if not (bytes_eq h.kind (codes "usb"))
    then false
    else bytes_eq (to_lower h.vendor) want_v && bytes_eq (to_lower h.product) want_p

unfoldable pub any_hostdev : (Hostdev → Bool) → List Hostdev → Bool
any_hostdev f [] = false
any_hostdev f (h ∷ hs) = let rest = any_hostdev f hs in if f h then true else rest

-- The documents: what `xml.Unmarshal` gives, or its error.
unfoldable pub has_usb_hostdev : (Bytes → Result (List Hostdev)) → Bytes → Bytes → Bytes → Bool
has_usb_hostdev unmarshal dom_xml vendor_id product_id = elim (unmarshal dom_xml) [
  | err _ ↦ false
  | ok hostdevs ↦
      any_hostdev
        (is_usb_hostdev (codes "0x" ++ to_lower vendor_id) (codes "0x" ++ to_lower product_id))
        hostdevs
]

-- The value of a hexadecimal digit.
unfoldable pub hex_value : ℕ → ℕ
hex_value c = if leb c b'9' then c - b'0' else if leb b'a' c then c - b'a' + 10 else c - b'A' + 10

-- strconv.ParseUint(s, 16, 64) without its error, from the digits `n` read so far: 0 at a byte that is
-- no digit, the largest number where the number is too large.
unfoldable pub parse_digits : ℕ → Bytes → ℕ
parse_digits n [] = n
parse_digits n (c ∷ s) =
    let rest = parse_digits (n * 16 + hex_value c) s in
    if not (is_hex_digit c) then 0 else if leb (2 ^ 60) n then 2 ^ 64 - 1 else rest

unfoldable pub parse_hex_u : Bytes → ℕ
parse_hex_u s = parse_digits 0 (trim_prefix (to_lower (trim_space s)) (codes "0x"))

-- The numbers of an address: domain, bus, slot and function.
unfoldable pub parse_pci_addr : Bytes → Option (ℕ × ℕ × ℕ × ℕ)
parse_pci_addr addr = elim (address_parts addr) [
  | none ↦ none
  | some (d, b, s, f) ↦ some (parse_hex_u d, parse_hex_u b, parse_hex_u s, parse_hex_u f)
]

unfoldable pub is_pci_hostdev : ℕ → ℕ → ℕ → ℕ → Hostdev → Bool
is_pci_hostdev wd wb ws wf h =
    if not (bytes_eq h.kind (codes "pci"))
    then false
    else (parse_hex_u h.domain == wd && parse_hex_u h.bus == wb)
      && (parse_hex_u h.slot == ws && parse_hex_u h.function == wf)

unfoldable pub has_pci_hostdev : (Bytes → Result (List Hostdev)) → Bytes → Bytes → Bool
has_pci_hostdev unmarshal dom_xml address = elim (parse_pci_addr address) [
  | none ↦ false
  | some (wd, wb, ws, wf) ↦ elim (unmarshal dom_xml) [
    | err _ ↦ false
    | ok hostdevs ↦ any_hostdev (is_pci_hostdev wd wb ws wf) hostdevs
  ]
]

-- An element <interface> as it is read.
pub record InterfaceDoc : Type 0 where
  pub mac : Bytes
  pub kind : Bytes
  pub network : Bytes
  pub bridge : Bytes
  pub dev : Bytes
  pub model : Bytes

pub record Interface : Type 0 where
  pub mac : Bytes
  pub kind : Bytes
  pub source : Bytes
  pub model : Bytes

-- The network of a card, its bridge where it has no network, else the device of the host.
unfoldable pub interface_of : InterfaceDoc → Interface
interface_of i = record {
  mac = i.mac;
  kind = i.kind;
  source =
      if not (bytes_eq i.network [])
      then i.network
      else if not (bytes_eq i.bridge [])
      then i.bridge
      else i.dev;
  model = i.model;
}

module _ {W : Type 0} (virsh : Runner W) where
  unfoldable pub usb_hostdev_in :
      (Bytes → Result (List Hostdev)) → Bytes → Bytes → Bytes → Action W Bool
  usb_hostdev_in unmarshal domain vendor_id product_id = do
    out ← inactive_xml virsh domain
    pure (has_usb_hostdev unmarshal out vendor_id product_id)

  unfoldable pub pci_hostdev_in : (Bytes → Result (List Hostdev)) → Bytes → Bytes → Action W Bool
  pci_hostdev_in unmarshal domain address = do
    out ← inactive_xml virsh domain
    pure (has_pci_hostdev unmarshal out address)

  unfoldable pub domain_interfaces :
      (Bytes → Result (List InterfaceDoc)) → Bytes → Action W (List Interface)
  domain_interfaces unmarshal domain = do
    out ← inactive_xml virsh domain
    docs ← asks (λ _. unmarshal out)
    pure (map interface_of docs)
