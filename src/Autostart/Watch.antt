-- ===== src/Autostart/Watch.antt =====
-- Whom the watchdog restarts.
use zvm_extra.Base.{
  sym, subst, err, ◌++◌, ◌≡◌, refl, ◌⊎◌, inl, inr, true, ok, List, [], ◌∷◌, arith, All, All-append,
  Bool-cases, Result-cases,
}
use zvm_extra.Bytes.{Bytes, bytes_eq, codes}
use zvm_extra.Bytes.Laws.{bytes_eq_iff}
use zvm_extra.FileStore.{Store}
use zvm_extra.Autostart.Calls.{
  Call, listing, clearing, start, waiting, marking, starts, Among, all_Among, Trace, Traced,
  idle-Traced, append-Traced,
}
use zvm_extra.Autostart.{
  Entry, Controller, Log, not_ready, clear_failed, state_failed, starting, start_failed,
  marker_failed, complete, restarting, restart_failed, all, restart, watch_one, watch_all, watch,
}

-- A restart is one of a watched domain that was found shut off or crashed.
abbrev pub IsWarranted : Log → Type 0
IsWarranted (restarting e state) =
    (e.watchdog ≡ true) × ((state ≡ codes "shut off") ⊎ (state ≡ codes "crashed"))
IsWarranted (restart_failed e m) = e.watchdog ≡ true
IsWarranted not_ready = Unit
IsWarranted (clear_failed e m) = Unit
IsWarranted (state_failed e m) = Unit
IsWarranted (starting e) = Unit
IsWarranted (start_failed e m) = Unit
IsWarranted (marker_failed m) = Unit
IsWarranted complete = Unit

-- The entries that a log says were restarted.
pub restarted : List Log → List Entry
restarted [] = []
restarted (restarting e state ∷ lines) = e ∷ restarted lines
restarted (_ ∷ lines) = restarted lines

restarted-append : (xs ys : List Log) → restarted (xs ++ ys) ≡ restarted xs ++ restarted ys
unfolding restarted
restarted-append [] ys = refl
restarted-append (x ∷ xs) ys = ground (arith, restarted-append xs ys)

module _ {W : Type 0} (vc : Controller W) where
  restart_failed_lem :
      (e : Entry) (state : Bytes) (w : W) {m : Bytes}
      → (vc.start e.name w).0 ≡ err m
      → restart vc e state w ≡ (restarting e state ∷ restart_failed e m ∷ [], (vc.start e.name w).1)
  unfolding restart
  restart_failed_lem e state w f = ground (arith, f)

  restart_ok_lem :
      (e : Entry) (state : Bytes) (w : W) {u : Unit {0}}
      → (vc.start e.name w).0 ≡ ok u
      → restart vc e state w ≡ (restarting e state ∷ [], (vc.start e.name w).1)
  unfolding restart
  restart_ok_lem e state w f = ground (arith, f)

  restart-lines :
      (e : Entry) (state : Bytes) (w : W)
      → ((restart vc e state w).0 ≡ restarting e state ∷ [])
        ⊎ ((m : Bytes) × ((restart vc e state w).0 ≡ restarting e state ∷ restart_failed e m ∷ []))
  unfolding restart
  restart-lines e state w = elim (Result-cases (vc.start e.name w).0) [
    | inl (m, f) ↦ inr (m, ground (arith, f))
    | inr (_, f) ↦ inl (ground (arith, f))
  ]

  restart-IsWarranted :
      (e : Entry) (state : Bytes) (w : W)
      → e.watchdog ≡ true
      → (state ≡ codes "shut off") ⊎ (state ≡ codes "crashed")
      → All IsWarranted (restart vc e state w).0
  restart-IsWarranted e state w on down = elim (restart-lines e state w) [
    | inl f ↦ rw f ((on, down), tt)
    | inr (m, f) ↦ rw f ((on, down), (on, tt))
  ]

  -- A round that is not idle restarts a watched domain that is down.
  watch_one-cases :
      (e : Entry) (w : W)
      → (watch_one vc e w ≡ ([], w))
        ⊎ ((state : Bytes) × (e.watchdog ≡ true)
            × (vc.state e.name w ≡ ok state)
            × ((state ≡ codes "shut off") ⊎ (state ≡ codes "crashed"))
            × (watch_one vc e w ≡ restart vc e state w))
  unfolding watch_one
  watch_one-cases e w = elim (Result-cases (vc.state e.name w)) [
    | inl (m, f) ↦ inl (ground (arith, f))
    | inr (state, f) ↦ elim (Bool-cases e.watchdog) [
      | inr off ↦ inl (ground (arith, f, off))
      | inl on ↦ elim (Bool-cases (bytes_eq state (codes "shut off"))) [
        | inl d ↦ inr (
          state,
          on,
          f,
          inl ((bytes_eq_iff state (codes "shut off")).0 d),
          ground (arith, f, on, d),
        )
        | inr d ↦ elim (Bool-cases (bytes_eq state (codes "crashed"))) [
          | inl c ↦ inr (
            state,
            on,
            f,
            inr ((bytes_eq_iff state (codes "crashed")).0 c),
            ground (arith, f, on, d, c),
          )
          | inr c ↦ inl (ground (arith, f, on, d, c))
        ]
      ]
    ]
  ]

  watch_one-IsWarranted : (e : Entry) (w : W) → All IsWarranted (watch_one vc e w).0
  watch_one-IsWarranted e w = elim (watch_one-cases e w) [
    | inl idle ↦ rw idle tt
    | inr (state, on, _, down, same) ↦ rw same (restart-IsWarranted e state w on down)
  ]

  watch_all-IsWarranted : (es : List Entry) (w : W) → All IsWarranted (watch_all vc es w).0
  unfolding watch_all
  watch_all-IsWarranted [] w = tt
  watch_all-IsWarranted (e ∷ es) w =
      All-append IsWarranted (watch_one vc e w).0 _ (watch_one-IsWarranted e w)
        (watch_all-IsWarranted es (watch_one vc e w).1)

  -- What the watchdog may call for the entries `es`: it starts a watched one whose domain is then shut
  -- off or crashed, and nothing else.
  abbrev pub MayRestart : List Entry → Call → W → Type 0
  MayRestart es (start e) w =
      Among e es
      × (e.watchdog ≡ true)
      × ((state : Bytes) × (vc.state e.name w ≡ ok state)
          × ((state ≡ codes "shut off") ⊎ (state ≡ codes "crashed")))
  MayRestart es listing w = ⊥
  MayRestart es (clearing e) w = ⊥
  MayRestart es (waiting s) w = ⊥
  MayRestart es marking w = ⊥

  module _ (es : List Entry) where
    abbrev Watched : W → List Log × W → Type 0
    Watched w r = Traced vc (MayRestart es) restarted restarted-append w r

    nothing-Watched : (w : W) → Watched w ([], w)
    unfolding restarted
    nothing-Watched w = idle-Traced vc (MayRestart es) restarted restarted-append w [] refl

    call-Watched :
        (e : Entry) (w : W) (lines : List Log)
        → MayRestart es (start e) w
        → restarted lines ≡ e ∷ []
        → Watched w (lines, (vc.start e.name w).1)
    call-Watched e w lines a same = record {
      calls = start e ∷ [];
      trace = Trace.next (start e) w [] _ a (Trace.done _);
      named = sym same;
    }

    restart-Watched :
        (e : Entry) (state : Bytes) (w : W)
        → MayRestart es (start e) w
        → Watched w (restart vc e state w)
    restart-Watched e state w a = elim (Result-cases (vc.start e.name w).0) [
      | inl (m, f) ↦ subst (Watched w) (sym (restart_failed_lem e state w f)) (
          call-Watched e w (restarting e state ∷ restart_failed e m ∷ []) a
            (unfold restarted in refl))
      | inr (_, f) ↦
          subst (Watched w) (sym (restart_ok_lem e state w f))
            (call-Watched e w (restarting e state ∷ []) a (unfold restarted in refl))
    ]

    watch_one-Watched : (e : Entry) (w : W) → Among e es → Watched w (watch_one vc e w)
    watch_one-Watched e w m = elim (watch_one-cases e w) [
      | inl idle ↦ subst (Watched w) (sym idle) (nothing-Watched w)
      | inr (state, on, found, down, same) ↦
          subst (Watched w) (sym same) (restart-Watched e state w (m, on, (state, found, down)))
    ]

    watch_all-Watched :
        (fs : List Entry) (w : W) → All (λ e. Among e es) fs → Watched w (watch_all vc fs w)
    unfolding watch_all
    watch_all-Watched [] w h = nothing-Watched w
    watch_all-Watched (e ∷ fs) w (m, h) =
        append-Traced vc (MayRestart es) restarted restarted-append w (watch_one vc e w) _
          (watch_one-Watched e w m) (watch_all-Watched fs _ h)

  watch-cases :
      (s : Store Entry) (w : W)
      → ((vc.marked w ≡ true) × (watch vc s w ≡ watch_all vc (all s) w)) ⊎ (watch vc s w ≡ ([], w))
  unfolding watch
  watch-cases s w = ground arith

  lines-IsWarranted : (s : Store Entry) (w : W) → All IsWarranted (watch vc s w).0
  lines-IsWarranted s w = elim (watch-cases s w) [
    | inl (m, e) ↦ rw e (watch_all-IsWarranted (all s) w)
    | inr e ↦ rw e tt
  ]

  watch-Watched : (s : Store Entry) (w : W) → Watched (all s) w (watch vc s w)
  watch-Watched s w = elim (watch-cases s w) [
    | inl (m, e) ↦
        subst (Watched (all s) w) (sym e) (watch_all-Watched (all s) (all s) w (all_Among (all s)))
    | inr e ↦ subst (Watched (all s) w) (sym e) (nothing-Watched (all s) w)
  ]

  -- A tick of the watchdog makes no other call that changes the world than starts of entries of the store
  -- that it watches, each when its domain is found shut off or crashed: the trace of these calls
  -- leads from the world before to the world after, and starts exactly the domains that the log
  -- names. The log gives one of the two states for each. Before the orchestration of this boot has
  -- left its marker, a tick does nothing at all.
  pub watch-IsWarranted :
      (s : Store Entry) (w : W)
      → ((cs : List Call) × Trace vc (MayRestart (all s)) w cs (watch vc s w).1
          × (starts cs ≡ restarted (watch vc s w).0))
        × All IsWarranted (watch vc s w).0
        × ((vc.marked w ≡ true) ⊎ (watch vc s w ≡ ([], w)))
  watch-IsWarranted s w =
      let t = watch-Watched s w in
      (
        (t.calls, t.trace, t.named),
        lines-IsWarranted s w,
        elim (watch-cases s w) [ inl (m, e) ↦ inl m | inr e ↦ inr e ],
      )
