-- ===== src/FileStore/Reload.antt =====
-- A store that is opened again holds what was saved last.
use zvm_extra.Base.{
  ◌≡◌, ◌≢◌, refl, sym, ◌∙◌, ok, err, Option, none, some, if◌then◌else◌, List, [], ◌∷◌, arith,
  Result-cases, inl, inr,
}
use zvm_extra.Bytes.{Bytes}
use zvm_extra.Bytes.{bytes_eq}
use zvm_extra.Bytes.Laws.{bytes_eq_refl}
use zvm_extra.Dict.{get-put, get-remove, put, remove}
use zvm_extra.Dict.{get, values}
use zvm_extra.Dict.Keyed.{
  IsKeyed, put_all, put_all-IsKeyed, last_with, get-put_all_fresh, put-IsKeyed, remove-IsKeyed,
  get-reload,
}
use zvm_extra.FileStore.{
  Codec, Disk, SaveCalls, Store, save_entries, read_entries, new_store, save_locked, upsert, delete,
}

-- JSON reads back the array that it wrote, as it does where all texts in it are valid UTF-8, and
-- its text is not empty.
abbrev pub ReadsBack : {E : Type 0} → Codec E → List E → Type 0
ReadsBack codec arr = (b : Bytes) → codec.encode arr ≡ ok b → (codec.decode b ≡ ok arr) × (b ≢ [])

module _ {E : Type 0} (codec : Codec E) where
  -- A save that fails at any step leaves the file as it was.
  pub save_entries_failed :
      (calls : SaveCalls) (arr : List E) (d : Disk) {m : Bytes}
      → (save_entries codec calls arr d).0 ≡ err m
      → (save_entries codec calls arr d).1.file ≡ d.file
  unfolding save_entries
  save_entries_failed calls arr d h = ground arith

  -- A save that succeeds leaves the encoded entries in the file, and no temporary file.
  pub save_entries_ok :
      (calls : SaveCalls) (arr : List E) (d : Disk)
      → (save_entries codec calls arr d).0 ≡ ok tt
      → (b : Bytes) × (codec.encode arr ≡ ok b)
        × ((save_entries codec calls arr d).1.file ≡ some b)
        × ((save_entries codec calls arr d).1.tmp ≡ none)
  unfolding save_entries
  save_entries_ok calls arr d h = elim (Result-cases (codec.encode arr)) [
    | inl (m, e) ↦ absurd (ground (arith, e))
    | inr (b, e) ↦ (b, e, ground (arith, e), ground (arith, e))
  ]

  read_saved :
      (label b : Bytes) (arr : List E) (d : Disk)
      → codec.decode b ≡ ok arr
      → b ≢ []
      → d.file ≡ some b
      → read_entries codec label none d ≡ ok arr
  unfolding read_entries
  read_saved label [] arr d e ne f = absurd (ne refl)
  read_saved label (c ∷ b) arr d e ne f = ground (arith, e)

  pub read-save_entries :
      (label : Bytes) (calls : SaveCalls) (arr : List E) (d : Disk)
      → ReadsBack codec arr
      → (save_entries codec calls arr d).0 ≡ ok tt
      → read_entries codec label none (save_entries codec calls arr d).1 ≡ ok arr
  read-save_entries label calls arr d reads h =
      let (b, e, f, _) = save_entries_ok calls arr d h in
      let (back, ne) = reads b e in
      read_saved label b arr (save_entries codec calls arr d).1 back ne f

-- The map of a store holds each entry under its own key.
abbrev pub IsValid : {E : Type 0} → (E → Bytes) → Store E → Type 0
IsValid key s = IsKeyed key s.entries

module _ {E : Type 0} (codec : Codec E) (key : E → Bytes) where
  new_store_lem :
      (label : Bytes) (unreadable : Option Bytes) (d : Disk) {arr : List E}
      → read_entries codec label unreadable d ≡ ok arr
      → new_store codec key label unreadable d
        ≡ ok (record { entries = put_all key [] arr; disk = d })
  unfolding new_store
  new_store_lem label unreadable d e = rw e

  new_store_entries :
      (label : Bytes) (unreadable : Option Bytes) (d : Disk) {s : Store E}
      → new_store codec key label unreadable d ≡ ok s
      → (arr : List E) × (read_entries codec label unreadable d ≡ ok arr)
        × (s.entries ≡ put_all key [] arr)
  unfolding new_store
  new_store_entries label unreadable d {s} h =
      elim (Result-cases (read_entries codec label unreadable d)) [
        | inl (m, e) ↦ absurd (ground (arith, e))
        | inr (arr, e) ↦ (arr, e, ground (arith, e))
      ]

  -- A store that opens holds the entries of the array that its file decodes to, or none where there is
  -- no file or an empty one: each under its own key, no key twice, and under a key that several
  -- entries have the last of them.
  pub new_store-IsValid :
      (label : Bytes) (unreadable : Option Bytes) (d : Disk) {s : Store E}
      → new_store codec key label unreadable d ≡ ok s
      → (arr : List E) × (read_entries codec label unreadable d ≡ ok arr)
        × IsValid key s
        × ((k : Bytes) → get s.entries k ≡ last_with key k arr)
  new_store-IsValid label unreadable d h =
      let (arr, read, e) = new_store_entries label unreadable d h in
      (arr, read, rw e (put_all-IsKeyed key [] arr tt), λ k. rw e (get-put_all_fresh key arr k))

  pub upsert-IsValid :
      (calls : SaveCalls) (e : E) (s : Store E)
      → IsValid key s
      → IsValid key (upsert codec key calls e s).1
  unfolding upsert
  upsert-IsValid calls e s v = put-IsKeyed key e s.entries v

  pub delete-IsValid :
      (calls : SaveCalls) (k : Bytes) (s : Store E)
      → IsValid key s
      → IsValid key (delete codec key calls k s).1
  unfolding delete
  delete-IsValid calls k s v = remove-IsKeyed key k s.entries v

  module _ (label : Bytes) (calls : SaveCalls) where
    -- After a save the file opens to a map that answers every lookup as the one in memory.
    pub reopen-save :
        (s : Store E)
        → IsValid key s
        → ReadsBack codec (values s.entries)
        → (save_locked codec key calls s).0 ≡ ok tt
        → (t : Store E) × (new_store codec key label none (save_locked codec key calls s).1.disk
            ≡ ok t)
          × ((k : Bytes) → get t.entries k ≡ get s.entries k)
    unfolding save_locked
    reopen-save s v reads h = (
      record {
        entries = put_all key [] (values s.entries);
        disk = (save_entries codec calls (values s.entries) s.disk).1;
      },
      new_store_lem label none _
          (read-save_entries codec label calls (values s.entries) s.disk reads h),
      λ k. get-reload key s.entries k v,
    )

  module _ (label : Bytes) (calls : SaveCalls) where
    -- After a saved upsert and a restart, the key of the entry leads to it, and every other key to
    -- what it led to before.
    pub reopen-upsert :
        (e : E) (s : Store E)
        → IsValid key s
        → ReadsBack codec (values (upsert codec key calls e s).1.entries)
        → (upsert codec key calls e s).0 ≡ ok tt
        → (t : Store E) × (new_store codec key label none (upsert codec key calls e s).1.disk
            ≡ ok t)
          × ((k : Bytes)
              → get t.entries k ≡ (if bytes_eq (key e) k then some e else get s.entries k))
    unfolding upsert save_locked
    reopen-upsert e s v reads h =
        let (t, o, same) =
          reopen-save label calls (record s { entries = put (key e) e s.entries })
            (put-IsKeyed key e s.entries v) reads h in
        (t, o, λ k. same k ∙ get-put (key e) k e s.entries)

    -- After a saved delete and a restart, the key leads to nothing, and every other key to what it
    -- led to before.
    pub reopen-delete :
        (j : Bytes) (s : Store E)
        → IsValid key s
        → ReadsBack codec (values (delete codec key calls j s).1.entries)
        → (delete codec key calls j s).0 ≡ ok tt
        → (t : Store E) × (new_store codec key label none (delete codec key calls j s).1.disk
            ≡ ok t)
          × ((k : Bytes) → get t.entries k ≡ (if bytes_eq j k then none else get s.entries k))
    unfolding delete save_locked
    reopen-delete j s v reads h =
        let (t, o, same) =
          reopen-save label calls (record s { entries = remove j s.entries })
            (remove-IsKeyed key j s.entries v) reads h in
        (t, o, λ k. same k ∙ get-remove j k s.entries)

  read_entries_file :
      (label : Bytes) (unreadable : Option Bytes) (d d' : Disk)
      → d.file ≡ d'.file
      → read_entries codec label unreadable d' ≡ read_entries codec label unreadable d
  unfolding read_entries
  read_entries_file label none d d' f = rw f
  read_entries_file label (some m) d d' f = refl

  -- A store opens by what its file holds alone.
  new_store_file :
      (label : Bytes) (unreadable : Option Bytes) (d d' : Disk) (s : Store E)
      → d'.file ≡ d.file
      → new_store codec key label unreadable d ≡ ok s
      → (t : Store E) × (new_store codec key label unreadable d' ≡ ok t) × (t.entries ≡ s.entries)
  new_store_file label unreadable d d' s f h =
      let (arr, e, same) = new_store_entries label unreadable d h in
      (
        record { entries = put_all key [] arr; disk = d' },
        new_store_lem label unreadable d' (read_entries_file label unreadable d d' (sym f) ∙ e),
        sym same,
      )

  -- Where the save of an upsert fails, the entry is in memory, and a restart finds the entries
  -- that a restart before would have found.
  pub upsert_failed :
      (label : Bytes) (unreadable : Option Bytes) (calls : SaveCalls) (e : E) (s before : Store E)
      {m : Bytes}
      → (upsert codec key calls e s).0 ≡ err m
      → new_store codec key label unreadable s.disk ≡ ok before
      → (get (upsert codec key calls e s).1.entries (key e) ≡ some e)
        × ((t : Store E) × (new_store codec key label unreadable (upsert codec key calls e s).1.disk
              ≡ ok t)
            × (t.entries ≡ before.entries))
  unfolding upsert save_locked
  upsert_failed label unreadable calls e s before h o = (
    rw (get-put, bytes_eq_refl),
    new_store_file label unreadable s.disk _ before
        (save_entries_failed codec calls (values (put (key e) e s.entries)) s.disk h) o,
  )
