-- ===== src/Usb/Store/Saved.antt =====
-- What Add and Remove leave in the store and in its file.
use zvm_extra.Base.{
  ◌≡◌, Option, none, some, Result, ok, List, [], ◌∷◌, ◌++◌, All, All-map, if◌then◌else◌, Bool-cases,
  inl, inr,
}
use zvm_extra.Bytes.{Bytes, bytes_eq, codes}
use zvm_extra.Bytes.Laws.{bytes_eq_iff}
use zvm_extra.Bytes.Cuts.{Lacks, last_sep_injective, first_sep_injective}
use zvm_extra.Dict.{get, values}
use zvm_extra.Dict.Keyed.{values-remove}
use zvm_extra.FileStore.{Codec, SaveCalls, Store}
use zvm_extra.FileStore.Reload.{IsValid, ReadsBack, reopen-upsert, reopen-delete}
use zvm_extra.Usb.Store.{PinnedDevice, key, new_store, add, remove, all, for_vm, of_vm}

-- The ids hold no separator of a key, as hexadecimal ids do not.
abbrev pub IsPlain : PinnedDevice → Type 0
IsPlain p = Lacks b'/' (p.vendor_id ++ b':' ∷ p.product_id) × Lacks b':' p.vendor_id

-- Two pins of plain ids stand under one key only if they name the same device of the same domain,
-- whatever the name of the domain.
pub key_injective :
    (p q : PinnedDevice)
    → IsPlain p
    → IsPlain q
    → key p ≡ key q
    → (p.vm ≡ q.vm) × (p.vendor_id ≡ q.vendor_id) × (p.product_id ≡ q.product_id)
unfolding key
key_injective p q (hp, cp) (hq, cq) e =
    let (vm, ids) = last_sep_injective p.vm q.vm _ _ b'/' hp hq e in
    let (vendor, product) = first_sep_injective p.vendor_id q.vendor_id _ _ b':' cp cq ids in
    (vm, vendor, product)

-- Every pin that ForVM lists is of that domain, and holds what all pins hold.
of_vm-All :
    (P : PinnedDevice → Type 0) (vm : Bytes) (ps : List PinnedDevice)
    → All P ps
    → All (λ p. (p.vm ≡ vm) × P p) (of_vm vm ps)
unfolding of_vm
of_vm-All P vm [] h = tt
of_vm-All P vm (p ∷ ps) (hp, h) = elim (Bool-cases (bytes_eq p.vm vm)) [
  | inl e ↦ rw e (((bytes_eq_iff p.vm vm).0 e, hp), of_vm-All P vm ps h)
  | inr e ↦ rw e (of_vm-All P vm ps h)
]

key_of :
    (p : PinnedDevice) (vm vendor product : Bytes)
    → p.vm ≡ vm
    → p.vendor_id ≡ vendor
    → p.product_id ≡ product
    → key p ≡ key (record { vm = vm; vendor_id = vendor; product_id = product; description = [] })
unfolding key
key_of p vm vendor product a b c = cc

-- A change of the store.
pub data Edit : Type 0 where
  adding : PinnedDevice → Edit
  removing : Bytes → Bytes → Bytes → Edit

abbrev pub edited_key : Edit → Bytes
edited_key (adding p) = key p
edited_key (removing vm vendor product) =
    key (record { vm = vm; vendor_id = vendor; product_id = product; description = [] })

abbrev pub left_by : Edit → Option PinnedDevice
left_by (adding p) = some p
left_by (removing vm vendor product) = none

abbrev pub edit :
    Codec PinnedDevice
    → SaveCalls
    → Edit
    → Store PinnedDevice
    → Result (Unit {0}) × Store PinnedDevice
edit codec calls (adding p) s = add codec calls p s
edit codec calls (removing vm vendor product) s = remove codec calls vm vendor product s

module _ (codec : Codec PinnedDevice) where
  -- In a valid store, after a Remove, whether or not its save succeeded, ForVM lists pins of the
  -- domain alone, and none of the device.
  pub for_vm-remove :
      (calls : SaveCalls) (vm vendor product : Bytes) (s : Store PinnedDevice)
      → IsValid key s
      → All
          (λ p. (p.vm ≡ vm) × ¬ ((p.vendor_id ≡ vendor) × (p.product_id ≡ product)))
          (for_vm vm (remove codec calls vm vendor product s).1)
  unfolding for_vm remove
  for_vm-remove calls vm vendor product s v =
      All-map (λ p h. (h.0, λ same. h.1 (key_of p vm vendor product h.0 same.0 same.1)))
        (of_vm vm (values (remove codec calls vm vendor product s).1.entries))
        (of_vm-All _ vm _ (values-remove key _ s.entries v))

  module _ (calls : SaveCalls) (s : Store PinnedDevice) (v : IsValid key s) where
    reopen-add :
        (p : PinnedDevice)
        → ReadsBack codec (all (add codec calls p s).1)
        → (add codec calls p s).0 ≡ ok tt
        → (t : Store PinnedDevice) × (new_store codec none (add codec calls p s).1.disk ≡ ok t)
          × ((k : Bytes)
              → get t.entries k ≡ (if bytes_eq (key p) k then some p else get s.entries k))
    unfolding new_store add all
    reopen-add p reads h = reopen-upsert codec key (codes "usb store decode: ") calls p s v reads h

    reopen-remove :
        (vm vendor product : Bytes)
        → ReadsBack codec (all (remove codec calls vm vendor product s).1)
        → (remove codec calls vm vendor product s).0 ≡ ok tt
        → (t : Store PinnedDevice) × (new_store codec none
              (remove codec calls vm vendor product s).1.disk
            ≡ ok t)
          × ((k : Bytes)
              → get t.entries k ≡ (
                  if bytes_eq
                    (key (record {
                      vm = vm;
                      vendor_id = vendor;
                      product_id = product;
                      description = [];
                    }))
                    k
                  then none
                  else get s.entries k))
    unfolding new_store remove all
    reopen-remove vm vendor product reads h =
        reopen-delete codec key (codes "usb store decode: ") calls _ s v reads h

    -- In a valid store whose array JSON reads back, after an Add or a Remove that was saved and a
    -- restart the key of the device leads to the pin that was added, or to nothing, and every
    -- other key to what it led to before.
    pub reopen-edit :
        (e : Edit)
        → ReadsBack codec (all (edit codec calls e s).1)
        → (edit codec calls e s).0 ≡ ok tt
        → (t : Store PinnedDevice) × (new_store codec none (edit codec calls e s).1.disk ≡ ok t)
          × ((k : Bytes)
              → get t.entries k
                ≡ (if bytes_eq (edited_key e) k then left_by e else get s.entries k))
    reopen-edit (adding p) reads h = reopen-add p reads h
    reopen-edit (removing vm vendor product) reads h = reopen-remove vm vendor product reads h
