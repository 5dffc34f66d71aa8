-- ===== src/Settings.antt =====
-- internal/settings/store.go: the preferences of the user interface that outlive a reload.
pub mod Saved
use zvm_extra.Base.{Option, none, some, Result, ok, err, [], ◌∷◌, ◌++◌, ◌>>=◌}
use zvm_extra.Bytes.{Bytes, codes}
use zvm_extra.FileStore.{Disk, SaveCalls, save_text}

pub record Data : Type 0 where
  pub backup_dir : Bytes
  pub snapshot_dir : Bytes

abbrev pub no_data : Data
no_data = record { backup_dir = []; snapshot_dir = [] }

-- encoding/json at this type. `decode` starts from the settings that are there, and leaves a field
-- that the text does not name.
pub record Codec : Type 0 where
  pub encode : Data → Result Bytes
  pub decode : Bytes → Data → Result Data

pub record Store : Type 0 where
  pub data_set : Data
  pub disk : Disk

module _ (codec : Codec) where
  decode_file : Bytes → Data → Result Data
  decode_file [] old = ok old
  decode_file (c ∷ b) old = elim (codec.decode (c ∷ b) old) [
    | err m ↦ err (codes "settings decode: " ++ m)
    | ok new ↦ ok new
  ]

  -- `unreadable` is an error of the read that does not say that the file is missing.
  load : Option Bytes → Disk → Result Data
  unfolding decode_file
  load (some m) d = err m
  load none d = elim d.file [ none ↦ ok no_data | some b ↦ decode_file b no_data ]

  unfoldable pub new_store : Option Bytes → Disk → Result Store
  unfolding load
  new_store unreadable d = do
    loaded ← load unreadable d
    ok (record { data_set = loaded; disk = d })

  unfoldable pub save_locked : SaveCalls → Store → Result (Unit {0}) × Store
  unfolding save_text
  save_locked calls s =
      let (r, d) = save_text calls (codec.encode s.data_set) s.disk in (r, record s { disk = d })

  -- The settings are replaced whether or not the save succeeds.
  unfoldable pub set : SaveCalls → Data → Store → Result (Unit {0}) × Store
  unfolding save_locked
  set calls new s = save_locked calls (record s { data_set = new })

unfoldable pub get : Store → Data
get s = s.data_set
