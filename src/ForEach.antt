-- ===== src/ForEach.antt =====
-- The loops `for _, e := range s.All() { … }` of the reconcilers over a world that the calls of the
-- controller change. A round returns the log lines that it writes and the next world.
use zvm_extra.Base.{
  ◌≡◌, refl, List, [], ◌∷◌, ◌++◌, All, All-append_left, All-append_right, All-map, Pairwise,
}

module _ {E W L : Type 0} (body : E → W → List L × W) where
  unfoldable pub for_each : List E → W → List L × W
  for_each [] w = ([], w)
  for_each (e ∷ es) w =
      let (lines, w') = body e w in let (more, w'') = for_each es w' in (lines ++ more, w'')

  for_each-cons :
      (e : E) (es : List E) (w : W)
      → for_each (e ∷ es) w
        ≡ ((body e w).0 ++ (for_each es (body e w).1).0, (for_each es (body e w).1).1)
  unfolding for_each
  for_each-cons e es w = refl

  -- `Settled e w` says that a round for `e` has nothing to do in the world `w`, and `Fine e l` that
  -- the line `l` tells of no failure at `e`; the claim is about the entries with `Eligible e`.
  -- A round for `e` leaves `q` settled where `Apart e q`. `Inv` holds of the world all along, where every
  -- entry has `Kept`.
  module _ (Settled : E → W → Type 0) (Fine : E → L → Type 0) (Eligible : E → Type 0)
      (Apart : E → E → Type 0) (Inv : W → Type 0) (Kept : E → Type 0)
      (inv : (e : E) (w : W) → Kept e → Inv w → Inv (body e w).1)
      (keep : (e q : E) (w : W) → Inv w → Apart e q → Settled q w → Settled q (body e w).1) where
    for_each-keeps :
        (es : List E) (q : E) (w : W)
        → All Kept es
        → Inv w
        → All (λ e. Apart e q) es
        → Settled q w
        → Settled q (for_each es w).1
    unfolding for_each
    for_each-keeps [] q w kept i apart h = h
    for_each-keeps (e ∷ es) q w (ke, kept) i (ae, apart) h =
        for_each-keeps es q (body e w).1 kept (inv e w ke i) apart (keep e q w i ae h)

    -- Every entry at which no line tells of a failure is settled after the pass.
    pub for_each-settles :
        ((e : E) (w : W) → Inv w → Eligible e → All (Fine e) (body e w).0 → Settled e (body e w).1)
        → (es : List E) (w : W) → All Kept es
        → Inv w
        → Pairwise Apart es
        → All (λ e. Eligible e → All (Fine e) (for_each es w).0 → Settled e (for_each es w).1) es
    unfolding for_each
    for_each-settles settle [] w kept i apart = tt
    for_each-settles settle (e ∷ es) w (ke, kept) i (ahead, apart) =
        let lines = (body e w).0 in
        let w' = (body e w).1 in
        let more = (for_each es w').0 in
        (
          λ able fine.
              for_each-keeps es e w' kept (inv e w ke i) ahead
                (settle e w i able (All-append_left (Fine e) lines more fine)),
          All-map (λ q later able fine. later able (All-append_right (Fine q) lines more fine)) es
              (for_each-settles settle es w' kept (inv e w ke i) apart),
        )

  -- A pass over settled entries does nothing.
  pub for_each_idle :
      (Settled : E → W → Type 0)
      → ((e : E) (w : W) → Settled e w → body e w ≡ ([], w))
      → (es : List E) (w : W) → All (λ e. Settled e w) es
      → for_each es w ≡ ([], w)
  for_each_idle Settled idle [] w h = unfold for_each in refl
  for_each_idle Settled idle (e ∷ es) w (he, h) =
      rw (for_each-cons, idle e w he, for_each_idle Settled idle es w h)
