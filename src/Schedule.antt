-- ===== src/Schedule.antt =====
-- internal/schedule/schedule.go: the schedules of snapshots, what is due, and the pruning.
pub mod Clock
pub mod Edit
pub mod Order
pub mod Snapshots
pub mod Prune
use zvm_extra.Base.{
  ℕ, zero, suc, ◌+◌, ◌-◌, ◌*◌, ◌%◌, ◌^◌, Bool, true, false, not, Option, none, some, Result, ok,
  err, List, [], ◌∷◌, ◌++◌, ◌&&◌, ◌||◌, if◌then◌else◌, ltb, leb, length, take,
}
use zvm_extra.Base.Int.{ℤ, pos, negsuc, pos_part, ltb_ℤ, leb_ℤ, eq_ℤ, ◌+ℤ◌, ◌-ℤ◌, ◌*ℤ◌}
use zvm_extra.Bytes.{Bytes, codes, bytes_eq, has_prefix}
use zvm_extra.Dict.{Dict, get, put, values}
use zvm_extra.FileStore
use zvm_extra.FileStore.{Codec, Disk, SaveCalls, Store}

abbrev pub auto_prefix : Bytes
auto_prefix = codes "auto-"

pub record Entry : Type 0 where
  pub vm : Bytes
  pub enabled : Bool
  pub interval_hours : ℤ
  pub keep : ℤ
  pub last_run_unix : ℤ

unfoldable pub key : Entry → Bytes
key e = e.vm

-- time.Time: seconds since 1970, and the nanoseconds of that second.
pub record Time : Type 0 where
  pub unix : ℤ
  pub nanos : ℕ

-- An int64 after wrap-around.
unfoldable pub wrap_64 : ℤ → ℤ
wrap_64 (pos n) = let r = n % 2 ^ 64 in if ltb r (2 ^ 63) then pos r else negsuc (2 ^ 64 - 1 - r)
wrap_64 (negsuc n) = let r = n % 2 ^ 64 in if ltb r (2 ^ 63) then negsuc r else pos (2 ^ 64 - 1 - r)

-- A time.Duration that Time.Sub returns: out of range it is the nearest one.
unfoldable pub saturate_64 : ℤ → ℤ
saturate_64 (pos n) = if ltb n (2 ^ 63) then pos n else pos (2 ^ 63 - 1)
saturate_64 (negsuc n) = if ltb n (2 ^ 63) then negsuc n else negsuc (2 ^ 63 - 1)

abbrev pub second : ℕ
second = 1000000000

abbrev pub hour : ℕ
hour = 3600 * second

-- now.Sub(time.Unix(unix, 0))
unfoldable pub since : Time → ℤ → ℤ
unfolding saturate_64
since now unix = saturate_64 ((now.unix -ℤ unix) *ℤ pos second +ℤ pos now.nanos)

-- The tests of the loop in `tick`.
unfoldable pub is_due : Time → Entry → Bool
unfolding since wrap_64
is_due now e =
    if not e.enabled || leb_ℤ e.interval_hours (pos 0)
    then false
    else if not (eq_ℤ e.last_run_unix (pos 0))
        && ltb_ℤ (since now e.last_run_unix) (wrap_64 (e.interval_hours *ℤ pos hour))
    then false
    else true

unfoldable pub mark : Time → Entry → Entry
mark now e = record e { last_run_unix = now.unix }

-- The loop of `tick`: the due entries, and the map with their clocks set.
unfoldable pub mark_due : Time → Dict Entry → List Entry × Dict Entry
unfolding is_due mark
mark_due now [] = ([], [])
mark_due now ((vm, e) ∷ d) =
    let (due, rest) = mark_due now d in
    if is_due now e then (mark now e ∷ due, (vm, mark now e) ∷ rest) else (due, (vm, e) ∷ rest)

unfoldable pub clamp_keep : Entry → Entry
clamp_keep e = if ltb_ℤ e.keep (pos 0) then record e { keep = pos 0 } else e

unfoldable pub keep_clock : Option Entry → Entry → Entry
keep_clock none e = e
keep_clock (some prev) e = record e { last_run_unix = prev.last_run_unix }

module _ (codec : Codec Entry) where
  unfoldable pub new_store : Option Bytes → Disk → Result (Store Entry)
  unfolding FileStore.new_store
  new_store unreadable d =
      FileStore.new_store codec key (codes "schedule store decode: ") unreadable d

  unfoldable pub save_locked : SaveCalls → Store Entry → Result (Unit {0}) × Store Entry
  unfolding FileStore.save_locked
  save_locked calls s = FileStore.save_locked codec key calls s

  -- From the lock on.
  store_entry : SaveCalls → Entry → Store Entry → Result Entry × Store Entry
  unfolding FileStore.upsert
  store_entry calls e s =
      let (r, s') = FileStore.upsert codec key calls e s in
      elim r [ err m ↦ (err m, s') | ok _ ↦ (ok e, s') ]

  unfoldable pub upsert : SaveCalls → Entry → Store Entry → Result Entry × Store Entry
  unfolding store_entry clamp_keep keep_clock
  upsert calls e s =
      if bytes_eq e.vm []
      then (err (codes "vm required"), s)
      else if e.enabled && leb_ℤ e.interval_hours (pos 0)
      then (err (codes "interval_hours must be > 0"), s)
      else store_entry calls (keep_clock (get s.entries e.vm) (clamp_keep e)) s

  unfoldable pub delete : SaveCalls → Bytes → Store Entry → Result (Unit {0}) × Store Entry
  unfolding FileStore.delete
  delete calls vm s = FileStore.delete codec key calls vm s

  -- The part of `tick` under the lock; the error of the save is dropped.
  unfoldable pub collect_due : SaveCalls → Time → Store Entry → List Entry × Store Entry
  unfolding mark_due save_locked
  collect_due calls now s =
      let (due, entries) = mark_due now s.entries in
      let s' : Store Entry = record s { entries = entries } in
      (due, elim due [ [] ↦ s' | _ ∷ _ ↦ (save_locked calls s').1 ])

unfoldable pub list : Store Entry → List Entry
list s = values s.entries

unfoldable pub get_entry : Bytes → Store Entry → Entry
get_entry vm s = elim (get s.entries vm) [
  | some e ↦ e
  | none ↦ record {
    vm = vm;
    enabled = false;
    interval_hours = pos 0;
    keep = pos 0;
    last_run_unix = pos 0;
  }
]
