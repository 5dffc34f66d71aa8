-- ===== src/Schedule/Edit.antt =====
-- What an edit of a schedule keeps.
use zvm_extra.Base.{
  ◌≡◌, refl, sym, subst, ◌∙◌, true, false, ◌&&◌, Option, some, ok, arith, Bool-cases, inl, inr,
  if◌then◌else◌, ◌⊎◌, [],
}
use zvm_extra.Base.Int.{pos, leb_ℤ, ltb_ℤ}
use zvm_extra.Bytes.{Bytes, bytes_eq}
use zvm_extra.Bytes.Laws.{bytes_eq_refl, bytes_eq_iff}
use zvm_extra.Dict.{get, get-put}
use zvm_extra.FileStore
use zvm_extra.FileStore.{Codec, SaveCalls, Store}
use zvm_extra.Schedule.{Entry, key, upsert, store_entry, clamp_keep, keep_clock, get_entry}

module _ (codec : Codec Entry) where
  store_entry-get :
      (calls : SaveCalls) (e : Entry) (s : Store Entry) (vm : Bytes)
      → get (store_entry codec calls e s).1.entries vm
        ≡ (if bytes_eq e.vm vm then some e else get s.entries vm)
  unfolding store_entry FileStore.upsert FileStore.save_locked key
  store_entry-get calls e s vm = ground (arith, get-put e.vm vm e s.entries)

  -- What Upsert puts in the map.
  abbrev pub stored : Entry → Store Entry → Entry
  stored e s = keep_clock (get s.entries e.vm) (clamp_keep e)

  keep_clock-vm : (o : Option Entry) (e : Entry) → (keep_clock o (clamp_keep e)).vm ≡ e.vm
  unfolding keep_clock clamp_keep
  keep_clock-vm o e = ground arith

  upsert-get :
      (calls : SaveCalls) (e : Entry) (s : Store Entry) (vm : Bytes)
      → (get (upsert codec calls e s).1.entries vm ≡ get s.entries vm)
        ⊎ ((e.vm ≡ vm) × (get (upsert codec calls e s).1.entries vm ≡ some (stored e s)))
  unfolding upsert
  upsert-get calls e s vm = ground (
    arith,
    store_entry-get calls (stored e s) s vm,
    keep_clock-vm (get s.entries e.vm) e,
    bytes_eq_iff e.vm vm,
  )

  stored_clock :
      (e prev : Entry) (s : Store Entry)
      → get s.entries e.vm ≡ some prev
      → (stored e s).last_run_unix ≡ prev.last_run_unix
  unfolding keep_clock
  stored_clock e prev s h = ground (arith, h)

  -- No edit, accepted or rejected, saved or not, loses a schedule or resets the time of its last
  -- run.
  pub upsert_keeps_clock :
      (calls : SaveCalls) (e prev : Entry) (s : Store Entry) (vm : Bytes)
      → get s.entries vm ≡ some prev
      → (now : Entry) × (get (upsert codec calls e s).1.entries vm ≡ some now)
        × (now.last_run_unix ≡ prev.last_run_unix)
  upsert_keeps_clock calls e prev s vm h = elim (upsert-get calls e s vm) [
    | inl same ↦ (prev, same ∙ h, refl)
    | inr (own, g) ↦ (stored e s, g, stored_clock e prev s (rw own h))
  ]

  store_entry_ok :
      (calls : SaveCalls) (e r : Entry) (s : Store Entry)
      → (store_entry codec calls e s).0 ≡ ok r
      → (r ≡ e) × (get (store_entry codec calls e s).1.entries e.vm ≡ some e)
  unfolding store_entry
  store_entry_ok calls e r s h =
      (ground arith, store_entry-get calls e s e.vm ∙ ground (arith, bytes_eq_refl e.vm))

  stored_fields :
      (e : Entry) (s : Store Entry)
      → (leb_ℤ (pos 0) (stored e s).keep ≡ true)
        × ((stored e s).enabled ≡ e.enabled)
        × ((stored e s).interval_hours ≡ e.interval_hours)
  unfolding keep_clock clamp_keep
  stored_fields e s = (ground arith, ground arith, ground arith)

  upsert_accepted :
      (calls : SaveCalls) (e r : Entry) (s : Store Entry)
      → (upsert codec calls e s).0 ≡ ok r
      → (e.enabled && leb_ℤ e.interval_hours (pos 0) ≡ false)
        × (r ≡ stored e s)
        × (get (upsert codec calls e s).1.entries e.vm ≡ some (stored e s))
  unfolding upsert
  upsert_accepted calls e r s h = elim (Bool-cases (bytes_eq e.vm [])) [
    | inl c ↦ absurd (ground (arith, c))
    | inr c ↦ elim (Bool-cases (e.enabled && leb_ℤ e.interval_hours (pos 0))) [
      | inl o ↦ absurd (ground (arith, c, o))
      | inr o ↦
          let (a, g) = store_entry_ok calls (stored e s) r s (rw (c, o) at h) in
          (
            o,
            a,
            rw (c, o)
                (subst
                  (λ vm.
                    get (store_entry codec calls (stored e s) s).1.entries vm ≡ some (stored e s))
                  (keep_clock-vm (get s.entries e.vm) e) g),
          )
    ]
  ]

  get_entry_lem :
      (s : Store Entry) (vm : Bytes) {e : Entry} → get s.entries vm ≡ some e → get_entry vm s ≡ e
  unfolding get_entry
  get_entry_lem s vm h = ground (arith, h)

  -- An edit that is accepted and saved reads back as it was answered, keeps no negative count, and
  -- has a positive interval if it is on.
  pub upsert_reads_back :
      (calls : SaveCalls) (e r : Entry) (s : Store Entry)
      → (upsert codec calls e s).0 ≡ ok r
      → (get_entry e.vm (upsert codec calls e s).1 ≡ r)
        × (leb_ℤ (pos 0) r.keep ≡ true)
        × (r.enabled ≡ true → ltb_ℤ (pos 0) r.interval_hours ≡ true)
  upsert_reads_back calls e r s h =
      let (on, same, g) = upsert_accepted calls e r s h in
      let (keep, enabled, interval) = stored_fields e s in
      (
        get_entry_lem _ e.vm g ∙ sym same,
        rw same keep,
        λ now. rw (same, interval) (ground (arith, on, now, same, enabled)),
      )
