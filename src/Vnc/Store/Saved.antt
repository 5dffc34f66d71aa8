-- ===== src/Vnc/Store/Saved.antt =====
-- What Set and Remove leave in the store and in its file.
use zvm_extra.Base.{◌≡◌, Option, none, some, Result, ok, if◌then◌else◌}
use zvm_extra.Bytes.{Bytes, bytes_eq, codes}
use zvm_extra.FileStore.{Codec, SaveCalls, Store}
use zvm_extra.FileStore.Reload.{IsValid, ReadsBack, reopen-upsert, reopen-delete}
use zvm_extra.Vnc.Store.{Entry, key, new_store, set, remove, all, get}

-- A change of the store.
pub data Edit : Type 0 where
  setting : Entry → Edit
  forgetting : Bytes → Edit

abbrev pub edited : Edit → Bytes
edited (setting e) = e.vm
edited (forgetting vm) = vm

abbrev pub left_by : Edit → Option Entry
left_by (setting e) = some e
left_by (forgetting vm) = none

abbrev pub edit : Codec Entry → SaveCalls → Edit → Store Entry → Result (Unit {0}) × Store Entry
edit codec calls (setting e) s = set codec calls e s
edit codec calls (forgetting vm) s = remove codec calls vm s

module _ (codec : Codec Entry) (calls : SaveCalls) (s : Store Entry) (v : IsValid key s) where
  reopen-set :
      (e : Entry)
      → ReadsBack codec (all (set codec calls e s).1)
      → (set codec calls e s).0 ≡ ok tt
      → (t : Store Entry) × (new_store codec none (set codec calls e s).1.disk ≡ ok t)
        × ((vm : Bytes) → get vm t ≡ (if bytes_eq e.vm vm then some e else get vm s))
  unfolding new_store set all get key
  reopen-set e reads h = reopen-upsert codec key (codes "vnc store decode: ") calls e s v reads h

  reopen-forget :
      (j : Bytes)
      → ReadsBack codec (all (remove codec calls j s).1)
      → (remove codec calls j s).0 ≡ ok tt
      → (t : Store Entry) × (new_store codec none (remove codec calls j s).1.disk ≡ ok t)
        × ((vm : Bytes) → get vm t ≡ (if bytes_eq j vm then none else get vm s))
  unfolding new_store remove all get
  reopen-forget j reads h = reopen-delete codec key (codes "vnc store decode: ") calls j s v reads h

  -- In a valid store whose array JSON reads back, after a Set or a Remove that was saved and a
  -- restart the domain has exactly the password and address that were set, or nothing is kept of
  -- it, and of every other domain what was kept before.
  pub reopen-edit_console :
      (e : Edit)
      → ReadsBack codec (all (edit codec calls e s).1)
      → (edit codec calls e s).0 ≡ ok tt
      → (t : Store Entry) × (new_store codec none (edit codec calls e s).1.disk ≡ ok t)
        × ((vm : Bytes) → get vm t ≡ (if bytes_eq (edited e) vm then left_by e else get vm s))
  reopen-edit_console (setting e) reads h = reopen-set e reads h
  reopen-edit_console (forgetting vm) reads h = reopen-forget vm reads h
