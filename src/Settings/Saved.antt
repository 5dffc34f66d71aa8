-- ===== src/Settings/Saved.antt =====
-- The settings survive a restart.
use zvm_extra.Base.{
  ◌≡◌, ◌≢◌, refl, none, some, Result, ok, err, [], ◌∷◌, inl, inr, arith, Result-cases,
}
use zvm_extra.Bytes.{Bytes}
use zvm_extra.FileStore.{SaveCalls, Disk, save_text}
use zvm_extra.Settings.{
  Data, no_data, Codec, Store, decode_file, load, new_store, save_locked, set, get,
}

-- JSON reads back the settings that it wrote, into settings that are empty, and its text is not
-- empty.
abbrev pub ReadsBack : Codec → Data → Type 0
ReadsBack codec x = (b : Bytes) → codec.encode x ≡ ok b → (codec.decode b no_data ≡ ok x) × (b ≢ [])

save_text_ok :
    (calls : SaveCalls) (text : Result Bytes) (d : Disk)
    → (save_text calls text d).0 ≡ ok tt
    → (b : Bytes) × (text ≡ ok b) × ((save_text calls text d).1.file ≡ some b)
unfolding save_text
save_text_ok calls text d h = elim (Result-cases text) [
  | inl (m, e) ↦ absurd (ground (arith, e))
  | inr (b, e) ↦ (b, e, ground (arith, e))
]

save_text_failed :
    (calls : SaveCalls) (text : Result Bytes) (d : Disk) {m : Bytes}
    → (save_text calls text d).0 ≡ err m
    → (save_text calls text d).1.file ≡ d.file
unfolding save_text
save_text_failed calls text d h = ground arith

module _ (codec : Codec) where
  loaded :
      (b : Bytes) (x : Data) (d : Disk)
      → d.file ≡ some b
      → codec.decode b no_data ≡ ok x
      → b ≢ []
      → new_store codec none d ≡ ok (record { data_set = x; disk = d })
  unfolding new_store load decode_file
  loaded [] x d f e ne = absurd (ne refl)
  loaded (c ∷ b) x d f e ne = ground (arith, f, e)

  -- Where JSON reads the new settings back, a Set that is saved is what a restart finds, fields
  -- that were cleared included. A Set that is not saved leaves the file as it was.
  pub new_store-set :
      (calls : SaveCalls) (new : Data) (s : Store)
      → ReadsBack codec new
      → ((set codec calls new s).0 ≡ ok tt
          → (t : Store) × (new_store codec none (set codec calls new s).1.disk ≡ ok t)
            × (get t ≡ new))
        × ((m : Bytes)
            → (set codec calls new s).0 ≡ err m
            → (set codec calls new s).1.disk.file ≡ s.disk.file)
  unfolding set save_locked get
  new_store-set calls new s reads = (
    λ h.
        let (b, e, f) = save_text_ok calls (codec.encode new) s.disk h in
        let (back, ne) = reads b e in
        (
          record { data_set = new; disk = (save_text calls (codec.encode new) s.disk).1 },
          loaded b new _ f back ne,
          refl,
        ),
    λ m h. save_text_failed calls (codec.encode new) s.disk h,
  )
