-- ===== src/Autostart/Boot.antt =====
-- internal/autostart/store.go: what a boot calls, and in which order.
use zvm_extra.Autostart.Order.{started, started-append, IsOrdered, boot_in_order_log}
use zvm_extra.Base.{
  ℕ, zero, suc, ◌≢◌, sym, subst, ok, err, Result-cases, false, ◌≡◌, refl, true, List, [], ◌∷◌, ◌++◌,
  arith, All, Bool-cases, inl, inr, ◌⊎◌,
}
use zvm_extra.Base.Int.{ltb_ℤ, pos}
use zvm_extra.FileStore.{Store}
use zvm_extra.Bytes.{Bytes, codes, bytes_eq}
use zvm_extra.Bytes.Laws.{bytes_eq_iff}
use zvm_extra.Autostart.Calls.{
  Call, listing, clearing, start, waiting, marking, starts, Among, all_Among, Trace, Traced,
  idle-Traced, append-Traced, effect,
}
use zvm_extra.Autostart.{
  Entry, Controller, Log, not_ready, clear_failed, state_failed, start_failed, marker_failed,
  complete, starting, all, start_one, boot_stopped, boot_one, boot_all, wait_ready, finish, run,
}

module _ {W : Type 0} (vc : Controller W) where
  ready_now :
      (n : ℕ) (w : W) {ds : List Bytes}
      → (vc.list_domains w).0 ≡ ok ds
      → (wait_ready vc (suc n) w).1 ≡ (vc.list_domains w).1
  unfolding wait_ready
  ready_now n w f = ground (arith, f)

  ready_later :
      (n : ℕ) (w : W) {m : Bytes}
      → (vc.list_domains w).0 ≡ err m
      → (wait_ready vc (suc n) w).1 ≡ (wait_ready vc n (vc.sleep (pos 5) (vc.list_domains w).1)).1
  unfolding wait_ready
  ready_later n w f = ground (arith, f)

  start_one_failed :
      (e : Entry) (w : W) {m : Bytes}
      → (vc.start e.name w).0 ≡ err m
      → start_one vc e w ≡ (starting e ∷ start_failed e m ∷ [], (vc.start e.name w).1)
  unfolding start_one
  start_one_failed e w f = ground (arith, f)

  start_one_now :
      (e : Entry) (w : W) {u : Unit {0}}
      → (vc.start e.name w).0 ≡ ok u
      → ltb_ℤ (pos 0) e.delay_s ≡ false
      → start_one vc e w ≡ (starting e ∷ [], (vc.start e.name w).1)
  unfolding start_one
  start_one_now e w f d = ground (arith, f, d)

  start_one_waits :
      (e : Entry) (w : W) {u : Unit {0}}
      → (vc.start e.name w).0 ≡ ok u
      → ltb_ℤ (pos 0) e.delay_s ≡ true
      → start_one vc e w ≡ (starting e ∷ [], vc.sleep e.delay_s (vc.start e.name w).1)
  unfolding start_one
  start_one_waits e w f d = ground (arith, f, d)

  stopped_failed :
      (e : Entry) (w : W) {m : Bytes}
      → vc.state e.name w ≡ err m
      → boot_stopped vc e w ≡ (state_failed e m ∷ [], w)
  unfolding boot_stopped
  stopped_failed e w f = ground (arith, f)

  stopped_running :
      (e : Entry) (w : W) {st : Bytes}
      → vc.state e.name w ≡ ok st
      → bytes_eq st (codes "running") ≡ true
      → boot_stopped vc e w ≡ ([], w)
  unfolding boot_stopped
  stopped_running e w f up = ground (arith, f, up)

  stopped_start :
      (e : Entry) (w : W) {st : Bytes}
      → vc.state e.name w ≡ ok st
      → bytes_eq st (codes "running") ≡ false
      → boot_stopped vc e w ≡ start_one vc e w
  unfolding boot_stopped
  stopped_start e w f down = ground (arith, f, down)

  boot_one_off : (e : Entry) (w : W) → e.enabled ≡ false → boot_one vc e w ≡ ([], w)
  unfolding boot_one
  boot_one_off e w off = ground (arith, off)

  boot_one_failed :
      (e : Entry) (w : W) {m : Bytes}
      → e.enabled ≡ true
      → (vc.set_autostart e.name false w).0 ≡ err m
      → let r = boot_stopped vc e (vc.set_autostart e.name false w).1 in
        boot_one vc e w ≡ (clear_failed e m ∷ r.0, r.1)
  unfolding boot_one
  boot_one_failed e w on f = ground (arith, on, f)

  boot_one_cleared :
      (e : Entry) (w : W) {u : Unit {0}}
      → e.enabled ≡ true
      → (vc.set_autostart e.name false w).0 ≡ ok u
      → let r = boot_stopped vc e (vc.set_autostart e.name false w).1 in
        boot_one vc e w ≡ (r.0, r.1)
  unfolding boot_one
  boot_one_cleared e w on f = ground (arith, on, f)

  finish_failed :
      (w : W) {m : Bytes}
      → (vc.write_marker w).0 ≡ err m
      → finish vc w ≡ (marker_failed m ∷ complete ∷ [], (vc.write_marker w).1)
  unfolding finish
  finish_failed w f = ground (arith, f)

  finish_ok :
      (w : W) {u : Unit {0}}
      → (vc.write_marker w).0 ≡ ok u
      → finish vc w ≡ (complete ∷ [], (vc.write_marker w).1)
  unfolding finish
  finish_ok w f = ground (arith, f)

  -- What a boot may call for the entries `es`: it clears the flag of an enabled one, and starts an enabled
  -- one whose domain it finds, and finds not running.
  abbrev pub MayBoot : List Entry → Call → W → Type 0
  MayBoot es listing w = Unit
  MayBoot es (clearing e) w = Among e es × (e.enabled ≡ true)
  MayBoot es (start e) w =
      Among e es
      × (e.enabled ≡ true)
      × ((state : Bytes) × (vc.state e.name w ≡ ok state) × (state ≢ codes "running"))
  MayBoot es (waiting s) w = Unit
  MayBoot es marking w = Unit

  module _ (es : List Entry) where
    abbrev Booted : W → List Log × W → Type 0
    Booted w r = Traced vc (MayBoot es) started started-append w r

    nothing-Booted : (w : W) → Booted w ([], w)
    unfolding started
    nothing-Booted w = idle-Traced vc (MayBoot es) started started-append w [] refl

    both-Booted :
        (w : W) (r q : List Log × W) → Booted w r → Booted r.1 q → Booted w (r.0 ++ q.0, q.1)
    both-Booted w r q a b = append-Traced vc (MayBoot es) started started-append w r q a b

    call-Booted :
        (c : Call) (w : W) (lines : List Log)
        → MayBoot es c w
        → starts (c ∷ []) ≡ started lines
        → Booted w (lines, effect vc c w)
    call-Booted c w lines a e = record {
      calls = c ∷ [];
      trace = Trace.next c w [] _ a (Trace.done _);
      named = e;
    }

    wait_ready-Booted : (n : ℕ) (w : W) → Booted w ([], (wait_ready vc n w).1)
    wait_ready-Booted zero w = unfold wait_ready in nothing-Booted w
    wait_ready-Booted (suc n) w =
        let v = (vc.list_domains w).1 in
        let listed = call-Booted listing w [] tt (unfold started in refl) in
        elim (Result-cases (vc.list_domains w).0) [
          | inr (_, f) ↦ subst (λ u. Booted w ([], u)) (sym (ready_now n w f)) listed
          | inl (m, f) ↦
              let slept = call-Booted (waiting (pos 5)) v [] tt (unfold started in refl) in
              subst (λ u. Booted w ([], u)) (sym (ready_later n w f))
                (both-Booted w ([], v) _ listed
                  (both-Booted v ([], vc.sleep (pos 5) v) _ slept
                    (wait_ready-Booted n (vc.sleep (pos 5) v))))
        ]

    start_one-Booted : (e : Entry) (w : W) → MayBoot es (start e) w → Booted w (start_one vc e w)
    start_one-Booted e w a = elim (Result-cases (vc.start e.name w).0) [
      | inl (m, f) ↦
          subst (Booted w) (sym (start_one_failed e w f)) (
            call-Booted (start e) w (starting e ∷ start_failed e m ∷ []) a (unfold started in refl))
      | inr (_, f) ↦
          let call = call-Booted (start e) w (starting e ∷ []) a (unfold started in refl) in
          elim (Bool-cases (ltb_ℤ (pos 0) e.delay_s)) [
            | inr d ↦ subst (Booted w) (sym (start_one_now e w f d)) call
            | inl d ↦ subst (Booted w) (sym (start_one_waits e w f d)) (
                both-Booted w (starting e ∷ [], (vc.start e.name w).1) _ call
                  (call-Booted (waiting e.delay_s) _ [] tt (unfold started in refl)))
          ]
    ]

    boot_stopped-Booted :
        (e : Entry) (w : W) → Among e es → e.enabled ≡ true → Booted w (boot_stopped vc e w)
    boot_stopped-Booted e w m on = elim (Result-cases (vc.state e.name w)) [
      | inl (x, f) ↦ subst (Booted w) (sym (stopped_failed e w f)) (
          idle-Traced vc (MayBoot es) started started-append w (state_failed e x ∷ [])
            (unfold started in refl))
      | inr (st, f) ↦ elim (Bool-cases (bytes_eq st (codes "running"))) [
        | inl up ↦ subst (Booted w) (sym (stopped_running e w f up)) (nothing-Booted w)
        | inr down ↦ subst (Booted w) (sym (stopped_start e w f down)) (
            start_one-Booted e w
              (m, on, (st, f, λ q. cc (down, (bytes_eq_iff st (codes "running")).1 q))))
      ]
    ]

    boot_one-Booted : (e : Entry) (w : W) → Among e es → Booted w (boot_one vc e w)
    boot_one-Booted e w m = elim (Bool-cases e.enabled) [
      | inr off ↦ subst (Booted w) (sym (boot_one_off e w off)) (nothing-Booted w)
      | inl on ↦
          let v = (vc.set_autostart e.name false w).1 in
          let after = boot_stopped-Booted e v m on in
          elim (Result-cases (vc.set_autostart e.name false w).0) [
            | inl (x, f) ↦ subst (Booted w) (sym (boot_one_failed e w on f)) (
                both-Booted w (clear_failed e x ∷ [], v) _
                  (call-Booted (clearing e) w (clear_failed e x ∷ []) (m, on)
                    (unfold started in refl))
                  after)
            | inr (_, f) ↦ subst (Booted w) (sym (boot_one_cleared e w on f)) (
                both-Booted w ([], v) _
                  (call-Booted (clearing e) w [] (m, on) (unfold started in refl)) after)
          ]
    ]

    boot_all-Booted :
        (fs : List Entry) (w : W) → All (λ e. Among e es) fs → Booted w (boot_all vc fs w)
    unfolding boot_all
    boot_all-Booted [] w h = nothing-Booted w
    boot_all-Booted (e ∷ fs) w (m, h) =
        both-Booted w (boot_one vc e w) _ (boot_one-Booted e w m) (boot_all-Booted fs _ h)

    finish-Booted : (w : W) → Booted w (finish vc w)
    finish-Booted w = elim (Result-cases (vc.write_marker w).0) [
      | inl (m, f) ↦
          subst (Booted w) (sym (finish_failed w f))
            (call-Booted marking w (marker_failed m ∷ complete ∷ []) tt (unfold started in refl))
      | inr (_, f) ↦
          subst (Booted w) (sym (finish_ok w f))
            (call-Booted marking w (complete ∷ []) tt (unfold started in refl))
    ]

  run_cases :
      (s : Store Entry) (w : W)
      → let v = (wait_ready vc 12 w).1 in
        let r = boot_all vc (all s) v in
        (run vc s w ≡ ([], w))
        ⊎ ((run vc s w ≡ (not_ready ∷ [], v))
            ⊎ (run vc s w ≡ (r.0 ++ (finish vc r.1).0, (finish vc r.1).1)))
  unfolding run
  run_cases s w = ground arith

  run-Booted : (s : Store Entry) (w : W) → Booted (all s) w (run vc s w)
  run-Booted s w =
      let es = all s in
      let v = (wait_ready vc 12 w).1 in
      let waited = wait_ready-Booted es 12 w in
      elim (run_cases s w) [
        | inl e ↦ subst (Booted es w) (sym e) (nothing-Booted es w)
        | inr (inl e) ↦ subst (Booted es w) (sym e) (
            both-Booted es w ([], v) (not_ready ∷ [], v) waited
              (idle-Traced vc (MayBoot es) started started-append v (not_ready ∷ [])
                (unfold started in refl)))
        | inr (inr e) ↦ subst (Booted es w) (sym e) (
            both-Booted es w ([], v) _ waited
              (both-Booted es v (boot_all vc es v) _ (boot_all-Booted es es v (all_Among es))
                (finish-Booted es _)))
      ]

  -- At boot the domains start in the order of their Order. Each call that changes the world, from the wait
  -- for libvirt to the marker, is one of a trace from the world before to the world after: the trace
  -- starts only entries of the store that are enabled, each when its domain is found and is not
  -- running, and clears the flag of such entries alone; it starts exactly those that the log names,
  -- in that order.
  pub boot_in_order :
      (s : Store Entry) (w : W)
      → (cs : List Call) × Trace vc (MayBoot (all s)) w cs (run vc s w).1
        × (starts cs ≡ started (run vc s w).0)
        × IsOrdered (starts cs)
  boot_in_order s w =
      let b = run-Booted s w in
      (b.calls, b.trace, b.named, subst IsOrdered (sym b.named) (boot_in_order_log vc s w))
