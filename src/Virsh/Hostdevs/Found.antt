-- ===== src/Virsh/Hostdevs/Found.antt =====
-- internal/virsh/virsh.go, internal/pci/pci.go, internal/usb/usb.go: the host devices that the program
-- attaches are the ones it finds again.
use zvm_extra.Base.{
  ℕ, Bool, true, false, Option, some, none, List, [], ◌∷◌, ◌++◌, ◌&&◌, if◌then◌else◌,
}
use zvm_extra.Bytes.{Bytes, codes, bytes_eq, to_lower}
use zvm_extra.Pci.{address_parts}
use zvm_extra.Pci.Address.{IsAddress}
use zvm_extra.Virsh.Hostdevs.{Hostdev, parse_hex_u}

-- What is read of the element that `usb.HostdevXML` writes.
unfoldable pub attached_usb : Bytes × Bytes → Hostdev
attached_usb (vendor, product) = record {
  kind = codes "usb";
  vendor = codes "0x" ++ to_lower vendor;
  product = codes "0x" ++ to_lower product;
  domain = [];
  bus = [];
  slot = [];
  function = [];
}

-- A device of the same ids, upper and lower case aside.
unfoldable pub among_usb : Bytes → Bytes → List (Bytes × Bytes) → Bool
among_usb vendor product [] = false
among_usb vendor product ((v, p) ∷ ds) =
    let rest = among_usb vendor product ds in
    if bytes_eq (to_lower v) (to_lower vendor) && bytes_eq (to_lower p) (to_lower product)
    then true
    else rest

abbrev device : Bytes → Bytes → Bytes → Bytes → Hostdev
device dom bus slot fn = record {
  kind = codes "pci";
  vendor = [];
  product = [];
  domain = codes "0x" ++ to_lower dom;
  bus = codes "0x" ++ to_lower bus;
  slot = codes "0x" ++ to_lower slot;
  function = codes "0x" ++ to_lower fn;
}

-- What is read of the element that `pci.HostdevXML` writes for a valid address.
unfoldable pub attached_pci : Bytes → Hostdev
attached_pci address = elim (address_parts address) [
  | none ↦ device [] [] [] []
  | some (dom, bus, slot, fn) ↦ device dom bus slot fn
]

unfoldable pub among_pci : Bytes → List Bytes → Bool
among_pci address [] = false
among_pci address (b ∷ bs) =
    let rest = among_pci address bs in
    if bytes_eq (to_lower b) (to_lower address) then true else rest

-- The numbers that a valid address asks for.
abbrev wanted : (s : Bytes) (a : IsAddress s) → Option (ℕ × ℕ × ℕ × ℕ)
wanted s a =
    some (parse_hex_u a.dom, parse_hex_u a.bus, parse_hex_u a.slot, parse_hex_u (a.fn ∷ []))
