-- ===== src/Schedule/Clock.antt =====
-- When a schedule is due, and that a tick sets its clock.
use native.Mathlib.Nat.{mod-eq_of_lt}
use zvm_extra.Base.{
  ℕ, ◌+◌, ◌-◌, ◌*◌, ◌^◌, ◌≤◌, ◌<◌, ◌≡◌, refl, ◌∙◌, ◌↔◌, ◌⊎◌, inl, inr, true, false, [], ◌∷◌, arith,
  ltb, leb, not, ◌&&◌, ◌==◌, All, All-map, Bool-cases,
}
use zvm_extra.Base.Int.{ℤ, pos, negsuc, ltb_ℤ, leb_ℤ, ◌+ℤ◌, ◌-ℤ◌, ◌*ℤ◌}
use zvm_extra.Schedule.{
  Entry, Time, second, hour, wrap_64, saturate_64, since, is_due, mark, mark_due, collect_due, list,
  save_locked,
}
use zvm_extra.Dict.{Dict, values}
use zvm_extra.FileStore
use zvm_extra.FileStore.{Codec, SaveCalls, Store}

-- The longest interval in hours whose nanoseconds an int64 holds.
abbrev pub max_hours : ℕ
max_hours = 2562047

saturated : (n m : ℕ) → m < 2 ^ 63 → ltb_ℤ (saturate_64 (pos n)) (pos m) ≡ ltb n m
unfolding saturate_64
saturated n m h = ground arith

wrap_small : (n : ℕ) → n < 2 ^ 63 → wrap_64 (pos n) ≡ pos n
unfolding wrap_64
wrap_small n h = ground (arith, mod-eq_of_lt {n = n} {m = 2 ^ 64} (omega arith))

elapsed_after :
    (t l n : ℕ) → l ≤ t → (pos t -ℤ pos l) *ℤ pos second +ℤ pos n ≡ pos ((t - l) * second + n)
unfolding ◌-ℤ◌ ◌*ℤ◌ ◌+ℤ◌
elapsed_after t l n h = ground arith

elapsed_before :
    (t l n : ℕ)
    → t < l
    → n < second
    → (pos t -ℤ pos l) *ℤ pos second +ℤ pos n ≡ negsuc ((l - t) * second - n - 1)
unfolding ◌-ℤ◌ ◌*ℤ◌ ◌+ℤ◌
elapsed_before t l n h k = ground arith

nanos_of : (h : ℕ) → pos h *ℤ pos hour ≡ pos (h * hour)
unfolding ◌*ℤ◌
nanos_of h = ground arith

due_lem :
    (now : Time) (e : Entry) {h l : ℕ}
    → e.enabled ≡ true
    → e.interval_hours ≡ pos h
    → 1 ≤ h
    → e.last_run_unix ≡ pos l
    → is_due now e ≡ not (not (l == 0) && ltb_ℤ (since now (pos l)) (wrap_64 (pos h *ℤ pos hour)))
unfolding is_due
due_lem now e on hi h1 la = ground (arith, on, hi, la)

-- The comparison of durations is one of numbers.
compared :
    (now : Time) (h t l : ℕ)
    → now.unix ≡ pos t
    → now.nanos < second
    → 1 ≤ h
    → h ≤ max_hours
    → ltb_ℤ (since now (pos l)) (wrap_64 (pos h *ℤ pos hour))
      ≡ ltb (t * second + now.nanos) (l * second + h * hour)
unfolding since
compared now h t l ht hn h1 hm = elim (Bool-cases (leb l t)) [
  | inl c ↦
      let long_enough : h * hour < 2 ^ 63 = omega arith in
      rw
        (
          ht,
          elapsed_after t l now.nanos (ground arith),
          nanos_of h,
          wrap_small (h * hour) long_enough,
          saturated ((t - l) * second + now.nanos) (h * hour) long_enough,
        )
        (ground arith)
  | inr c ↦
      let long_enough : h * hour < 2 ^ 63 = omega arith in
      rw
        (
          ht,
          elapsed_before t l now.nanos (ground arith) hn,
          nanos_of h,
          wrap_small (h * hour) long_enough,
        )
        (ground arith)
]

-- A schedule that is on, with an interval of up to `max_hours`, is due exactly if it never ran or
-- its interval has passed since the second of its last run. Times are after 1970.
pub is_due_iff :
    (now : Time) (e : Entry) {h t l : ℕ}
    → e.enabled ≡ true
    → e.interval_hours ≡ pos h
    → 1 ≤ h
    → h ≤ max_hours
    → e.last_run_unix ≡ pos l
    → now.unix ≡ pos t
    → now.nanos < second
    → (is_due now e ≡ true) ↔ ((l ≡ 0) ⊎ (l * second + h * hour ≤ t * second + now.nanos))
is_due_iff now e {h} {t} {l} on hi h1 hm la ht hn =
    rw (due_lem now e on hi h1 la, compared now h t l ht hn h1 hm) (ground arith)

wrap_large : (n : ℕ) → 2 ^ 63 ≤ n → n < 2 ^ 64 → wrap_64 (pos n) ≡ negsuc (2 ^ 64 - 1 - n)
unfolding wrap_64
wrap_large n h k = ground (arith, mod-eq_of_lt {n = n} {m = 2 ^ 64} k)

saturated_pos : (n m : ℕ) → ltb_ℤ (saturate_64 (pos n)) (negsuc m) ≡ false
unfolding saturate_64
saturated_pos n m = ground arith

long_compared :
    (now : Time) (h t l : ℕ)
    → now.unix ≡ pos t
    → l ≤ t
    → 2 ^ 63 ≤ h * hour
    → h * hour < 2 ^ 64
    → ltb_ℤ (since now (pos l)) (wrap_64 (pos h *ℤ pos hour)) ≡ false
unfolding since
long_compared now h t l ht lt lo hi =
    rw (ht, elapsed_after t l now.nanos lt, nanos_of h, wrap_large (h * hour) lo hi)
      (saturated_pos ((t - l) * second + now.nanos) (2 ^ 64 - 1 - h * hour))

-- A schedule that is on, with an interval too long for an int64 of nanoseconds but less than twice
-- that, is due at every tick, however short ago it ran. Times are after 1970, and the last run is
-- not ahead of the tick.
pub long_interval-due :
    (now : Time) (e : Entry) {h t l : ℕ}
    → e.enabled ≡ true
    → e.interval_hours ≡ pos h
    → max_hours < h
    → h ≤ 2 * max_hours + 1
    → e.last_run_unix ≡ pos l
    → now.unix ≡ pos t
    → l ≤ t
    → is_due now e ≡ true
long_interval-due now e {h} {t} {l} on hi above below la ht lt =
    let not_in_range : 2 ^ 63 ≤ h * hour = omega arith in
    let one_wrap : h * hour < 2 ^ 64 = omega arith in
    let compared_here : ltb_ℤ (since now (pos l)) (wrap_64 (pos h *ℤ pos hour)) ≡ false =
      long_compared now h t l ht lt not_in_range one_wrap in
    rw (due_lem now e on hi (omega arith) la, compared_here) (ground arith)

positive : (i : ℤ) → leb_ℤ i (pos 0) ≡ false → (h : ℕ) × (i ≡ pos h) × (1 ≤ h)
positive (pos h) e = (h, refl, ground arith)
positive (negsuc h) e = absurd (ground arith)

is_due_on :
    (now : Time) (e : Entry)
    → is_due now e ≡ true
    → (e.enabled ≡ true) × (h : ℕ) × (e.interval_hours ≡ pos h) × (1 ≤ h)
unfolding is_due
is_due_on now e d =
    let (h, eq, h1) = positive e.interval_hours (ground arith) in (ground arith, h, eq, h1)

mark_lem :
    (now : Time) (e : Entry)
    → ((mark now e).enabled ≡ e.enabled)
      × ((mark now e).interval_hours ≡ e.interval_hours)
      × ((mark now e).last_run_unix ≡ now.unix)
unfolding mark
mark_lem now e = (refl, refl, refl)

-- A schedule that ran in this second is not due again within the hour.
mark_not_due :
    (now now' : Time) (e : Entry) {t t' : ℕ}
    → leb_ℤ e.interval_hours (pos max_hours) ≡ true
    → now.unix ≡ pos t
    → 1 ≤ t
    → now'.unix ≡ pos t'
    → now'.nanos < second
    → t' * second + now'.nanos < t * second + hour
    → is_due now' (mark now e) ≡ false
mark_not_due now now' e {t} {t'} bounded ht pt ht' hn soon =
    elim (Bool-cases (is_due now' (mark now e))) [
      | inr d ↦ d
      | inl d ↦
          let (on, h, hi, h1) = is_due_on now' (mark now e) d in
          let (_, same, ran) = mark_lem now e in
          let hm : h ≤ max_hours = ground (arith, bounded, hi, same) in
          elim ((is_due_iff now' (mark now e) on hi h1 hm (ran ∙ ht) ht' hn).0 d) [
            | inl never ↦ absurd (omega arith)
            | inr passed ↦ absurd (omega arith)
          ]
    ]

mark_due-quiet :
    (now now' : Time) (d : Dict Entry)
    → All (λ e. is_due now' (mark now e) ≡ false) (values d)
    → All (λ e. is_due now e ≡ false → is_due now' e ≡ false) (values d)
    → (mark_due now' (mark_due now d).1).0 ≡ []
unfolding mark_due values
mark_due-quiet now now' [] m i = refl
mark_due-quiet now now' ((vm, e) ∷ d) (me, m) (ie, i) =
    ground (arith, mark_due-quiet now now' d m i, me, ie)

collect_due_lem :
    (codec : Codec Entry) (calls : SaveCalls) (now : Time) (s : Store Entry)
    → ((collect_due codec calls now s).0 ≡ (mark_due now s.entries).0)
      × ((collect_due codec calls now s).1.entries ≡ (mark_due now s.entries).1)
unfolding collect_due save_locked FileStore.save_locked
collect_due_lem codec calls now s = (refl, ground arith)

-- Where no other schedule comes due in between, a second tick less than an hour after the second
-- of the first one finds nothing to do, if no interval is above `max_hours`. Times are after 1970.
pub tick_once :
    (codec : Codec Entry) (calls calls' : SaveCalls) (now now' : Time) (s : Store Entry) {t t' : ℕ}
    → All (λ e. leb_ℤ e.interval_hours (pos max_hours) ≡ true) (list s)
    → now.unix ≡ pos t
    → 1 ≤ t
    → now'.unix ≡ pos t'
    → now'.nanos < second
    → t' * second + now'.nanos < t * second + hour
    → All (λ e. is_due now e ≡ false → is_due now' e ≡ false) (list s)
    → (collect_due codec calls' now' (collect_due codec calls now s).1).0 ≡ []
unfolding list
tick_once codec calls calls' now now' s bounded ht pt ht' hn soon idle =
    (collect_due_lem codec calls' now' (collect_due codec calls now s).1).0
    ∙ rw (collect_due_lem codec calls now s).1 (
        mark_due-quiet now now' s.entries
          (All-map (λ e b. mark_not_due now now' e b ht pt ht' hn soon) (values s.entries) bounded)
          idle)
