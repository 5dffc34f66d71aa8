-- ===== src/Autostart/Order.antt =====
-- internal/autostart/store.go: the order of the starts in the log of a boot.
use zvm_extra.Base.{
  ◌≡◌, refl, true, List, [], ◌∷◌, ◌++◌, arith, All, All-map, Bool-cases, inl, inr, ◌⊎◌, append-nil,
}
use zvm_extra.Base.Int.{leb_ℤ}
use zvm_extra.Dict.{values}
use zvm_extra.FileStore.{Store}
use zvm_extra.Autostart.{
  Entry, Controller, Log, not_ready, starting, insert, sort_order, all, start_one, boot_stopped,
  boot_one, boot_all, wait_ready, finish, run,
}

-- The entries that a log says were started, in the order of the log.
unfoldable pub started : List Log → List Entry
started [] = []
started (starting e ∷ lines) = e ∷ started lines
started (_ ∷ lines) = started lines

pub started-append : (xs ys : List Log) → started (xs ++ ys) ≡ started xs ++ started ys
unfolding started
started-append [] ys = refl
started-append (x ∷ xs) ys = ground (arith, started-append xs ys)

abbrev pub IsOrdered : List Entry → Type 0
IsOrdered [] = Unit
IsOrdered (e ∷ es) = All (λ f. leb_ℤ e.order f.order ≡ true) es × IsOrdered es

module _ (P : Entry → Type 0) where
  insert-All : (e : Entry) (es : List Entry) → P e → All P es → All P (insert e es)
  unfolding insert
  insert-All e [] pe h = (pe, tt)
  insert-All e (f ∷ es) pe (pf, h) = elim (Bool-cases (leb_ℤ e.order f.order)) [
    | inl c ↦ rw c (pe, (pf, h))
    | inr c ↦ rw c (pf, insert-All e es pe h)
  ]

insert-IsOrdered : (e : Entry) (es : List Entry) → IsOrdered es → IsOrdered (insert e es)
unfolding insert
insert-IsOrdered e [] h = (tt, tt)
insert-IsOrdered e (f ∷ es) (least, h) = elim (Bool-cases (leb_ℤ e.order f.order)) [
  | inl c ↦ rw c ((c, All-map (λ g le. ground arith) es least), (least, h))
  | inr c ↦ rw c (
    insert-All (λ g. leb_ℤ f.order g.order ≡ true) e es (ground arith) least,
    insert-IsOrdered e es h,
  )
]

sort_order-IsOrdered : (es : List Entry) → IsOrdered (sort_order es)
unfolding sort_order
sort_order-IsOrdered [] = tt
sort_order-IsOrdered (e ∷ es) = insert-IsOrdered e (sort_order es) (sort_order-IsOrdered es)

module _ {W : Type 0} (vc : Controller W) where
  -- A round starts its entry alone, if any, and only one that is enabled.
  started-boot_one :
      (e : Entry) (w : W)
      → (started (boot_one vc e w).0 ≡ [])
        ⊎ ((e.enabled ≡ true) × (started (boot_one vc e w).0 ≡ e ∷ []))
  unfolding boot_one boot_stopped start_one started
  started-boot_one e w = ground arith

  started-boot_all-cons :
      (e : Entry) (es : List Entry) (w : W)
      → started (boot_all vc (e ∷ es) w).0
        ≡ started (boot_one vc e w).0 ++ started (boot_all vc es (boot_one vc e w).1).0
  unfolding boot_all
  started-boot_all-cons e es w = started-append (boot_one vc e w).0 _

  started-All :
      (P : Entry → Type 0) (es : List Entry) (w : W)
      → All P es
      → All (λ e. P e × (e.enabled ≡ true)) (started (boot_all vc es w).0)
  started-All P [] w h = unfold boot_all started in tt
  started-All P (e ∷ es) w (pe, h) = elim (started-boot_one e w) [
    | inl none_here ↦ rw (started-boot_all-cons e es w, none_here) (started-All P es _ h)
    | inr (on, here) ↦ rw (started-boot_all-cons e es w, here) ((pe, on), started-All P es _ h)
  ]

  boot_all-IsOrdered :
      (es : List Entry) (w : W) → IsOrdered es → IsOrdered (started (boot_all vc es w).0)
  boot_all-IsOrdered [] w h = unfold boot_all started in tt
  boot_all-IsOrdered (e ∷ es) w (least, h) = elim (started-boot_one e w) [
    | inl none_here ↦ rw (started-boot_all-cons e es w, none_here) (boot_all-IsOrdered es _ h)
    | inr (on, here) ↦
        rw (started-boot_all-cons e es w, here)
          (All-map (λ f h. h.0) _ (started-All _ es _ least), boot_all-IsOrdered es _ h)
  ]

  started-finish : (w : W) → started (finish vc w).0 ≡ []
  unfolding finish started
  started-finish w = ground arith

  -- The lines behind the last start name none.
  started-rounds :
      (es : List Entry) (v : W)
      → started ((boot_all vc es v).0 ++ (finish vc (boot_all vc es v).1).0)
        ≡ started (boot_all vc es v).0
  started-rounds es v =
      rw
        (
          started-append (boot_all vc es v).0 (finish vc (boot_all vc es v).1).0,
          started-finish (boot_all vc es v).1,
        )
        (append-nil (started (boot_all vc es v).0))

  run_lem :
      (s : Store Entry) (w : W)
      → let v = (wait_ready vc 12 w).1 in
        ((run vc s w).0 ≡ [])
        ⊎ (((run vc s w).0 ≡ not_ready ∷ [])
            ⊎ ((run vc s w).0
                ≡ (boot_all vc (all s) v).0 ++ (finish vc (boot_all vc (all s) v).1).0))
  unfolding run
  run_lem s w = ground arith

  started-run :
      (s : Store Entry) (w : W)
      → let v = (wait_ready vc 12 w).1 in
        (started (run vc s w).0 ≡ []) ⊎ (started (run vc s w).0 ≡ started (boot_all vc (all s) v).0)
  unfolding started
  started-run s w = elim (run_lem s w) [
    | inl e ↦ rw e (inl refl)
    | inr (inl e) ↦ rw e (inl refl)
    | inr (inr e) ↦ rw e (inr (started-rounds (all s) (wait_ready vc 12 w).1))
  ]

  pub boot_in_order_log : (s : Store Entry) (w : W) → IsOrdered (started (run vc s w).0)
  unfolding all
  boot_in_order_log s w = elim (started-run s w) [
    | inl e ↦ rw e tt
    | inr e ↦ rw e (boot_all-IsOrdered (all s) _ (sort_order-IsOrdered (values s.entries)))
  ]
