-- ===== src/FileStore.antt =====
-- What the JSON stores share: the file behind a store, its replacement by way of a temporary file
-- (`saveLocked`), and the start from the file (`load`, `NewStore`). The packages usb, pci, vnc and
-- schedule hold one copy of this code each.
pub mod Reload
use zvm_extra.Base.{Result, ok, err, Option, none, some, List, [], ◌∷◌, ◌++◌, ◌>>=◌}
use zvm_extra.Bytes.{Bytes}
use zvm_extra.Dict.{Dict, put, remove, values}
use zvm_extra.Dict.Keyed.{put_all}

-- encoding/json at the type of the entries.
pub record Codec (E : Type 0) : Type 0 where
  pub encode : List E → Result Bytes
  pub decode : Bytes → Result (List E)

-- The file at `s.Path` and the one at `s.Path + ".tmp"`; `none` if it does not exist.
pub record Disk : Type 0 where
  pub file : Option Bytes
  pub tmp : Option Bytes

-- What the system calls of one save return. A failed write leaves `left` in the temporary file.
pub record SaveCalls : Type 0 where
  pub mkdir : Result (Unit {0})
  pub write : Result (Unit {0})
  pub left : Option Bytes
  pub rename : Result (Unit {0})

pub record Store (E : Type 0) : Type 0 where
  pub entries : Dict E
  pub disk : Disk

-- From the encoding on: MkdirAll, WriteFile of the temporary file, Rename over the file.
unfoldable pub save_text : SaveCalls → Result Bytes → Disk → Result (Unit {0}) × Disk
save_text calls text d = elim text [
  | err m ↦ (err m, d)
  | ok b ↦ elim calls.mkdir [
    | err m ↦ (err m, d)
    | ok _ ↦ elim calls.write [
      | err m ↦ (err m, record d { tmp = calls.left })
      | ok _ ↦ elim calls.rename [
        | err m ↦ (err m, record d { tmp = some b })
        | ok _ ↦ (ok tt, record { file = some b; tmp = none })
      ]
    ]
  ]
]

module _ {E : Type 0} (codec : Codec E) where
  unfoldable pub save_entries : SaveCalls → List E → Disk → Result (Unit {0}) × Disk
  unfolding save_text
  save_entries calls arr d = save_text calls (codec.encode arr) d

  decode_file : Bytes → Bytes → Result (List E)
  decode_file label [] = ok []
  decode_file label (c ∷ b) = elim (codec.decode (c ∷ b)) [
    | err m ↦ err (label ++ m)
    | ok arr ↦ ok arr
  ]

  -- os.ReadFile and json.Unmarshal. `unreadable` is an error of the read that does not say that
  -- the file is missing.
  unfoldable pub read_entries : Bytes → Option Bytes → Disk → Result (List E)
  unfolding decode_file
  read_entries label (some m) d = err m
  read_entries label none d = elim d.file [ none ↦ ok [] | some b ↦ decode_file label b ]

module _ {E : Type 0} (codec : Codec E) (key : E → Bytes) where
  unfoldable pub new_store : Bytes → Option Bytes → Disk → Result (Store E)
  unfolding read_entries
  new_store label unreadable d = do
    arr ← read_entries codec label unreadable d
    ok (record { entries = put_all key [] arr; disk = d })

  unfoldable pub save_locked : SaveCalls → Store E → Result (Unit {0}) × Store E
  unfolding save_entries
  save_locked calls s =
      let (r, d) = save_entries codec calls (values s.entries) s.disk in (r, record s { disk = d })

  -- The entry is in the map whether or not the save succeeds.
  unfoldable pub upsert : SaveCalls → E → Store E → Result (Unit {0}) × Store E
  unfolding save_locked
  upsert calls e s = save_locked calls (record s { entries = put (key e) e s.entries })

  unfoldable pub delete : SaveCalls → Bytes → Store E → Result (Unit {0}) × Store E
  unfolding save_locked
  delete calls k s = save_locked calls (record s { entries = remove k s.entries })
