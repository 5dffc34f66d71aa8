-- ===== src/Examples/Schedules.antt =====
-- A schedule of snapshots every six hours, and the order at boot.
use zvm_extra.Base.{
  ℕ, ◌≡◌, ◌≢◌, refl, true, false, ◌⊎◌, ◌≤◌, ◌+◌, ◌*◌, ◌↔◌, some, ok, List, [], ◌∷◌, arith, inr,
  if◌then◌else◌,
}
use zvm_extra.Base.Int.{pos, leb_ℤ, ltb_ℤ}
use zvm_extra.Bytes.{Bytes, codes, bytes_eq, has_prefix}
use zvm_extra.Bytes.Laws.{bytes_eq_iff}
use zvm_extra.Dict.{get}
use zvm_extra.FileStore.{Codec, Store}
use zvm_extra.Examples.Hosts.{running, no_files, all_well, codec_of}
use zvm_extra.Schedule.{Entry, Time, second, hour, is_due, upsert, get_entry, collect_due, list}
use zvm_extra.Schedule.Clock.{is_due_iff, long_interval-due, tick_once}
use zvm_extra.Schedule.Edit.{upsert_keeps_clock, upsert_reads_back}
use zvm_extra.Schedule.Snapshots.{Controller, victims, prune}
use zvm_extra.Schedule.Prune.{Cut, elem, victims_oldest, Listed, IsLawful, prune_spares}

abbrev nightly : Entry
nightly = record {
  vm = codes "debian";
  enabled = true;
  interval_hours = pos 6;
  keep = pos 2;
  last_run_unix = pos 1700000000;
}

abbrev last : ℕ
last = 1700000000

abbrev noon : Time
noon = record { unix = pos 1700021600; nanos = 5 }

is_due_iff_example :
    (is_due noon nightly ≡ true)
    ↔ ((last ≡ 0) ⊎ (1700000000 * second + 6 * hour ≤ 1700021600 * second + 5))
is_due_iff_example =
    is_due_iff noon nightly refl refl (omega arith) (omega arith) refl refl (omega arith)

abbrev rare : Entry
rare = record nightly { interval_hours = pos 2562048 }

long_interval-due_example : is_due noon rare ≡ true
long_interval-due_example =
    long_interval-due noon rare refl refl (omega arith) (omega arith) refl refl (omega arith)

abbrev codec : Codec Entry
codec = codec_of (codes "[{}]") (nightly ∷ [])

abbrev store : Store Entry
store = record { entries = (codes "debian", nightly) ∷ []; disk = no_files }

abbrev later : Time
later = record { unix = pos 1700021660; nanos = 5 }

noon_due : is_due noon nightly ≡ true
noon_due =
    (is_due_iff noon nightly refl refl (omega arith) (omega arith) refl refl (omega arith)).1
      (inr (omega arith))

due_now : ¬ (is_due noon nightly ≡ false)
due_now h = ground (arith, noon_due, h)

tick_once_example :
    (collect_due codec all_well later (collect_due codec all_well noon store).1).0 ≡ []
unfolding list zvm_extra.Dict.values
tick_once_example =
    tick_once codec all_well all_well noon later store (refl, tt) refl (omega arith) refl
      (omega arith) (omega arith) ((λ h. absurd (due_now h)), tt)

abbrev edit : Entry
edit = record nightly { keep = pos 9; last_run_unix = pos 0 }

upsert_keeps_clock_example :
    (now : Entry) × (get (upsert codec all_well edit store).1.entries (codes "debian") ≡ some now)
    × (now.last_run_unix ≡ nightly.last_run_unix)
unfolding get bytes_eq
upsert_keeps_clock_example =
    upsert_keeps_clock codec all_well edit nightly store (codes "debian") refl

abbrev edited : Entry
edited = record nightly { keep = pos 9 }

upsert_reads_back_example :
    (get_entry edit.vm (upsert codec all_well edit store).1 ≡ edited)
    × (leb_ℤ (pos 0) edited.keep ≡ true)
    × (edited.enabled ≡ true → ltb_ℤ (pos 0) edited.interval_hours ≡ true)
unfolding upsert bytes_eq get
upsert_reads_back_example = upsert_reads_back codec all_well edit edited store refl

abbrev autos : List Bytes
autos = codes "auto-3" ∷ codes "auto-1" ∷ codes "auto-2" ∷ []

victims_oldest_example : Cut 2 autos (victims 2 autos)
victims_oldest_example = victims_oldest 2 autos

-- The snapshots of the one domain are the names in the world.
erase : Bytes → List Bytes → List Bytes
erase name [] = []
erase name (n ∷ ns) = let rest = erase name ns in if bytes_eq n name then rest else n ∷ rest

abbrev host : Controller (List Bytes)
host = record {
  state = λ vm w. running;
  create_snapshot = λ vm name text external dir w. (ok tt, name ∷ w);
  list_snapshots = λ vm w. ok w;
  delete_snapshot = λ vm name children w. (ok tt, erase name w);
  mkdir_all = λ dir w. (ok tt, w);
}

erase_spares :
    (name other : Bytes) (w : List Bytes)
    → name ≢ other
    → elem other w ≡ true
    → elem other (erase name w) ≡ true
unfolding erase elem
erase_spares name other [] ne h = h
erase_spares name other (n ∷ w) ne h =
    ground (arith, erase_spares name other w ne, bytes_eq_iff n name, bytes_eq_iff n other)

host-IsLawful : IsLawful host
host-IsLawful vm name other w ne (names, e, m) =
    (erase name w, refl, erase_spares name other w ne (ground (arith, e, m)))

prune_spares_example :
    Listed host nightly.vm (codes "manual") (prune host nightly (codes "manual" ∷ autos)).1
unfolding has_prefix elem bytes_eq
prune_spares_example =
    prune_spares host nightly (codes "manual") (codes "manual" ∷ autos) host-IsLawful refl
      (codes "manual" ∷ autos, refl, refl)
