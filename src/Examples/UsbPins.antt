-- ===== src/Examples/UsbPins.antt =====
-- A USB stick that is pinned to a domain.
use zvm_extra.Base.{List, some, ◌≡◌, refl, none, ok, err, [], ◌∷◌, arith, All, if◌then◌else◌}
use zvm_extra.Bytes.{Bytes, codes, bytes_eq}
use zvm_extra.Dict.{get}
use zvm_extra.Dict.Keyed.{put_all, last_with}
use zvm_extra.FileStore.{Codec, Disk, Store, save_entries, read_entries}
use zvm_extra.FileStore.Reload.{save_entries_failed, new_store-IsValid, IsValid}
use zvm_extra.Reconciler.{Fine}
use zvm_extra.Examples.Hosts.{
  Attached, has, has-same, Has-more, running, no_files, all_well, codec_of, codec_of-ReadsBack,
}
use zvm_extra.Usb.{Device, hostdev_xml, host_list}
use zvm_extra.Usb.Lsusb.{IsOffered, host_list_offers}
use zvm_extra.Usb.Store.{PinnedDevice, Controller, key, all, add, new_store, reconcile}
use zvm_extra.Usb.Store.Reconcile.{
  IsLawful, HasIds, InPlace, reconcile_restores_usb, reconcile_rests_usb,
}
use zvm_extra.Usb.Store.Saved.{key_injective, Edit, edited_key, left_by, edit, reopen-edit}

abbrev host : Controller Attached
host = record {
  state = λ vm w. running;
  has_usb_hostdev = λ vm vendor product w. ok (has vm (hostdev_xml vendor product) w);
  attach_device_config = λ vm xml w. (ok tt, (vm, xml) ∷ w);
}

host-IsLawful : IsLawful host
host-IsLawful = record {
  state-attach = λ vm dom xml w. refl;
  has-attach = λ vm vendor product w _ _ _. rw (has-same vm (hostdev_xml vendor product) w);
  has_kept = λ vm vendor product dom xml w h.
      rw (Has-more vm (hostdev_xml vendor product) dom xml w (ground (arith, h)));
}

abbrev stick : PinnedDevice
stick = record {
  vm = codes "debian";
  vendor_id = codes "0781";
  product_id = codes "5581";
  description = codes "SanDisk";
}

abbrev pins : Store PinnedDevice
pins = record { entries = (key stick, stick) ∷ []; disk = no_files }

pins-IsValid : IsValid key pins
unfolding get
pins-IsValid = (refl, refl, tt)

reconcile_restores_usb_example :
    All
      (λ p.
        HasIds p
        → All (Fine p) (reconcile host pins []).0
        → InPlace host p (reconcile host pins []).1)
      (all pins)
reconcile_restores_usb_example = reconcile_restores_usb host host-IsLawful pins []

stick-Fine : All (λ p. All (Fine p) (reconcile host pins []).0) (all pins)
unfolding reconcile all has zvm_extra.Dict.values
stick-Fine = ((tt, tt), tt)

stick-HasIds : All HasIds (all pins)
unfolding all zvm_extra.Dict.values zvm_extra.Handlers.Names.valid_hex_id zvm_extra.Bytes.all_bytes
    zvm_extra.Bytes.is_hex_digit
stick-HasIds = ((refl, refl), tt)

reconcile_rests_usb_example :
    reconcile host pins (reconcile host pins []).1 ≡ ([], (reconcile host pins []).1)
reconcile_rests_usb_example = reconcile_rests_usb host host-IsLawful pins [] stick-HasIds stick-Fine

key_injective_example :
    (stick.vm ≡ stick.vm)
    × (stick.vendor_id ≡ stick.vendor_id)
    × (stick.product_id ≡ stick.product_id)
key_injective_example =
    key_injective stick stick (omega arith, omega arith) (omega arith, omega arith) refl

abbrev codec : Codec PinnedDevice
codec = codec_of (codes "[{}]") (stick ∷ [])

abbrev empty_store : Store PinnedDevice
empty_store = record { entries = []; disk = no_files }

reopen-edit_example :
    (t : Store PinnedDevice) × (new_store codec none
        (edit codec all_well (Edit.adding stick) empty_store).1.disk
      ≡ ok t)
    × ((k : Bytes)
        → get t.entries k ≡ (
            if bytes_eq (edited_key (Edit.adding stick)) k
            then left_by (Edit.adding stick)
            else get [] k))
unfolding all zvm_extra.Dict.values add zvm_extra.Dict.put zvm_extra.Dict.remove
reopen-edit_example =
    reopen-edit codec all_well empty_store tt (Edit.adding stick)
      (codec_of-ReadsBack b'[' (codes "{}]") (stick ∷ [])) refl

save_entries_failed_example :
    (save_entries codec
      (record all_well { rename = err (codes "EIO") })
      (stick ∷ [])
      no_files).1.file
    ≡ none
unfolding save_entries
save_entries_failed_example =
    save_entries_failed codec (record all_well { rename = err (codes "EIO") }) (stick ∷ []) no_files
      refl

-- The same stick twice, under another description.
abbrev twice : List PinnedDevice
twice = stick ∷ record stick { description = codes "backup stick" } ∷ []

abbrev codec_twice : Codec PinnedDevice
codec_twice = codec_of (codes "[{},{}]") twice

abbrev saved_twice : Disk
saved_twice = record { file = some (codes "[{},{}]"); tmp = none }

abbrev opened : Store PinnedDevice
opened = record { entries = put_all key [] twice; disk = saved_twice }

new_store-IsValid_example :
    (arr : List PinnedDevice) × (read_entries codec_twice
        (codes "usb store decode: ")
        none
        saved_twice
      ≡ ok arr)
    × IsValid key opened
    × ((k : Bytes) → get opened.entries k ≡ last_with key k arr)
unfolding zvm_extra.FileStore.new_store zvm_extra.FileStore.read_entries bytes_eq
new_store-IsValid_example =
    new_store-IsValid codec_twice key (codes "usb store decode: ") none saved_twice refl

abbrev mouse : Device
mouse = record {
  bus = codes "001";
  device_id = codes "002";
  vendor_id = codes "046d";
  product_id = codes "c077";
  description = codes "Mouse";
}

host_list_offers_example : All IsOffered (mouse ∷ [])
unfolding host_list zvm_extra.Bytes.split bytes_eq zvm_extra.Bytes.trim_space zvm_extra.Bytes.fields
    zvm_extra.Bytes.cut zvm_extra.Usb.is_root_hub get zvm_extra.Bytes.to_lower
host_list_offers_example =
    host_list_offers
      (ok (codes "Bus 001 Device 002: ID 046D:C077 Mouse\nBus 001 Device 001: ID 1d6b:0002 hub\n"))
      refl
