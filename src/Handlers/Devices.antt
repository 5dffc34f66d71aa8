-- ===== src/Handlers/Devices.antt =====
-- internal/handlers/handlers.go: the handlers of USB and PCI devices.
use zvm_extra.Base.{
  Bool, true, not, Option, none, some, Result, List, [], ◌∷◌, ◌&&◌, ◌||◌, if◌then◌else◌,
}
use zvm_extra.Bytes.{Bytes, codes, bytes_eq, cut, trim_prefix}
use zvm_extra.Usb
use zvm_extra.Pci
use zvm_extra.Usb.Store as UsbStore
use zvm_extra.Pci.Store as PciStore
use zvm_extra.Virsh.Commands.{attach_device_xml, detach_device_xml}
use zvm_extra.Handlers.Names.{valid_hex_id}
use zvm_extra.Handlers.Server.{
  Server, Env, Request, Reply, Handler, Answer, ◌>>=◌, ◌>>◌, pure, fail, fail_if, reply, or_fail,
  decoded, on_host, or_else, run, not_allowed, is_method, path_parts, check_vm,
}

-- The bodies of the requests that attach a device.
pub record UsbAttach : Type 0 where
  pub vendor_id : Bytes
  pub product_id : Bytes
  pub persistent : Bool
  pub description : Bytes

pub record PciAttach : Type 0 where
  pub address : Bytes
  pub persistent : Bool
  pub description : Bytes

pub data UsbBody : Type 0 where
  devices : List Usb.Device → UsbBody
  pins : List UsbStore.PinnedDevice → UsbBody
  attached : UsbAttach → UsbBody
  detached : UsbBody

pub data PciBody : Type 0 where
  devices : List Pci.Device → PciBody
  pins : List PciStore.PinnedDevice → PciBody
  attached : PciAttach → PciBody
  detached : PciBody

-- The ids behind the name of the domain.
unfoldable pub usb_ids : Bytes → Option (Bytes × Bytes)
usb_ids part = elim (cut part b':') [
  | none ↦ none
  | some (v, p) ↦ if valid_hex_id v && valid_hex_id p then some (v, p) else none
]

module _ {W : Type 0} (env : Env W) where
  unfoldable pub usb_add : UsbStore.PinnedDevice → Server W → Result (Unit {0}) × Server W
  usb_add p s =
      let (r, t) = UsbStore.add env.usb_json (env.saves s.host) p s.usb in (r, record s { usb = t })

  unfoldable pub usb_remove : Bytes → Bytes → Bytes → Server W → Result (Unit {0}) × Server W
  usb_remove vm vendor product s =
      let (r, t) = UsbStore.remove env.usb_json (env.saves s.host) vm vendor product s.usb in
      (r, record s { usb = t })

  unfoldable pub usb_host : Request UsbAttach → Handler W UsbBody (Reply UsbBody)
  usb_host r = do
    fail_if (not (is_method r (codes "GET"))) 405 (codes "method not allowed")
    devs ← (λ s. or_fail 500 [] (λ t. (Usb.host_list (env.lsusb t.host), t)) s)
    reply 200 (UsbBody.devices devs)

  unfoldable pub usb_attach : Bytes → Result UsbAttach → Handler W UsbBody (Reply UsbBody)
  usb_attach vm body = do
    req ← decoded 400 body
    fail_if (not (valid_hex_id req.vendor_id) || not (valid_hex_id req.product_id)) 400
        (codes "vendor_id and product_id must be 4 hex digits")
    fail_if (Usb.is_root_hub req.vendor_id) 400
        (codes "USB root hubs (vendor 1d6b) cannot be passed through to a guest")
    or_fail 500 [] (
        on_host (
          attach_device_xml env.virsh vm (Usb.hostdev_xml req.vendor_id req.product_id)
            req.persistent))
    (if req.persistent
        then or_fail 500 (codes "attached, but pinning failed: ") (
            usb_add (record {
              vm = vm;
              vendor_id = req.vendor_id;
              product_id = req.product_id;
              description = req.description;
            }))
        else pure tt)
    reply 201 (UsbBody.attached req)

  -- The pin goes first, so that the reconciler does not attach the device again.
  unfoldable pub usb_detach : Bytes → Bytes → Handler W UsbBody (Reply UsbBody)
  usb_detach vm part = elim (usb_ids part) [
    | none ↦ fail 400 (codes "expected <vendor>:<product> as 4 hex digits each")
    | some (v, p) ↦ (do
      _ ← or_else (usb_remove vm v p) tt
      or_fail 500 [] (on_host (detach_device_xml env.virsh vm (Usb.hostdev_xml v p) true))
      reply 200 UsbBody.detached)
  ]

  unfoldable pub usb_item :
      Request UsbAttach → Bytes → List Bytes → Handler W UsbBody (Reply UsbBody)
  usb_item r vm [] = if is_method r (codes "POST") then usb_attach vm r.body else not_allowed
  usb_item r vm (part ∷ []) =
      if bytes_eq part (codes "pinned") && is_method r (codes "GET")
      then (λ s. reply 200 (UsbBody.pins (UsbStore.for_vm vm s.usb)) s)
      else if is_method r (codes "DELETE")
      then usb_detach vm part
      else not_allowed
  usb_item r vm (part ∷ more ∷ rest) = not_allowed

  unfoldable pub usb_domain : Request UsbAttach → Answer W UsbBody
  usb_domain r = run (
      if bytes_eq (trim_prefix r.path (codes "/api/usb/")) (codes "host")
      then usb_host r
      else elim (path_parts (codes "/api/usb/") r.path) [
        | [] ↦ not_allowed
        | vm ∷ parts ↦ check_vm vm >> usb_item r vm parts
      ])

  unfoldable pub pci_add : PciStore.PinnedDevice → Server W → Result (Unit {0}) × Server W
  pci_add p s =
      let (r, t) = PciStore.add env.pci_json (env.saves s.host) p s.pci in (r, record s { pci = t })

  unfoldable pub pci_remove : Bytes → Bytes → Server W → Result (Unit {0}) × Server W
  pci_remove vm address s =
      let (r, t) = PciStore.remove env.pci_json (env.saves s.host) vm address s.pci in
      (r, record s { pci = t })

  unfoldable pub pci_host : Request PciAttach → Handler W PciBody (Reply PciBody)
  pci_host r = do
    fail_if (not (is_method r (codes "GET"))) 405 (codes "method not allowed")
    devs ← (λ s.
        or_fail 500 [] (λ t. (Pci.host_list (env.iommu_group t.host) (env.lspci t.host), t)) s)
    reply 200 (PciBody.devices devs)

  unfoldable pub pci_attach : Bytes → Result PciAttach → Handler W PciBody (Reply PciBody)
  pci_attach vm body = do
    req ← decoded 400 body
    fail_if (not (Pci.valid_address req.address)) 400
        (codes "address must be a PCI address like 0000:00:02.0")
    xml ← decoded 400 (Pci.hostdev_xml req.address)
    or_fail 500 [] (on_host (attach_device_xml env.virsh vm xml req.persistent))
    (if req.persistent
        then or_fail 500 (codes "attached, but pinning failed: ")
            (pci_add (record { vm = vm; address = req.address; description = req.description }))
        else pure tt)
    reply 201 (PciBody.attached req)

  unfoldable pub pci_detach : Bytes → Bytes → Handler W PciBody (Reply PciBody)
  pci_detach vm addr = do
    fail_if (not (Pci.valid_address addr)) 400 (codes "invalid pci address")
    xml ← decoded 400 (Pci.hostdev_xml addr)
    _ ← or_else (pci_remove vm addr) tt
    or_fail 500 [] (on_host (detach_device_xml env.virsh vm xml true))
    reply 200 PciBody.detached

  unfoldable pub pci_item :
      Request PciAttach → Bytes → List Bytes → Handler W PciBody (Reply PciBody)
  pci_item r vm [] = if is_method r (codes "POST") then pci_attach vm r.body else not_allowed
  pci_item r vm (part ∷ []) =
      if bytes_eq part (codes "pinned") && is_method r (codes "GET")
      then (λ s. reply 200 (PciBody.pins (PciStore.for_vm vm s.pci)) s)
      else if is_method r (codes "DELETE")
      then pci_detach vm part
      else not_allowed
  pci_item r vm (part ∷ more ∷ rest) = not_allowed

  unfoldable pub pci_domain : Request PciAttach → Answer W PciBody
  pci_domain r = run (
      if bytes_eq (trim_prefix r.path (codes "/api/pci/")) (codes "host")
      then pci_host r
      else elim (path_parts (codes "/api/pci/") r.path) [
        | [] ↦ not_allowed
        | vm ∷ parts ↦ check_vm vm >> pci_item r vm parts
      ])
