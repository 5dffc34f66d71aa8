-- ===== src/Autostart/Calls.antt =====
-- internal/autostart/store.go: the calls that the orchestrator and the watchdog make, as a trace from one
-- world to the next.
use zvm_extra.Base.{◌≡◌, refl, ap, ◌∙◌, sym, false, List, [], ◌∷◌, ◌++◌, All, All-map}
use zvm_extra.Base.Int.{ℤ}
use zvm_extra.Autostart.{Entry, Controller, Log}

-- A call that may change the world.
pub data Call : Type 0 where
  listing : Call
  clearing : Entry → Call
  start : Entry → Call
  waiting : ℤ → Call
  marking : Call

-- The entries that are started.
abbrev pub starts : List Call → List Entry
starts [] = []
starts (start e ∷ cs) = e ∷ starts cs
starts (listing ∷ cs) = starts cs
starts (clearing e ∷ cs) = starts cs
starts (waiting s ∷ cs) = starts cs
starts (marking ∷ cs) = starts cs

starts-append : (xs ys : List Call) → starts (xs ++ ys) ≡ starts xs ++ starts ys
starts-append [] ys = refl
starts-append (start e ∷ cs) ys = ap (λ t. e ∷ t) (starts-append cs ys)
starts-append (listing ∷ cs) ys = starts-append cs ys
starts-append (clearing e ∷ cs) ys = starts-append cs ys
starts-append (waiting s ∷ cs) ys = starts-append cs ys
starts-append (marking ∷ cs) ys = starts-append cs ys

-- The entry is one of the list.
pub data Among (e : Entry) : List Entry → Type 0 where
  here : (es : List Entry) → Among e (e ∷ es)
  later : (f : Entry) (es : List Entry) → Among e es → Among e (f ∷ es)

pub all_Among : (es : List Entry) → All (λ e. Among e es) es
all_Among [] = tt
all_Among (e ∷ es) = (Among.here es, All-map (λ f h. Among.later e es h) es (all_Among es))

module _ {W : Type 0} (vc : Controller W) where
  -- The world behind a call.
  abbrev pub effect : Call → W → W
  effect listing w = (vc.list_domains w).1
  effect (clearing e) w = (vc.set_autostart e.name false w).1
  effect (start e) w = (vc.start e.name w).1
  effect (waiting s) w = vc.sleep s w
  effect marking w = (vc.write_marker w).1

  -- From `w` the calls lead to `v`, and each is allowed in the world in which it is made.
  pub data Trace (Allowed : Call → W → Type 0) : W → List Call → W → Type 0 where
    done : (w : W) → Trace Allowed w [] w
    next :
        (c : Call) (w : W) (cs : List Call) (v : W)
        → Allowed c w
        → Trace Allowed (effect c w) cs v
        → Trace Allowed w (c ∷ cs) v

  module _ (Allowed : Call → W → Type 0) (logged : List Log → List Entry)
      (logged-append : (xs ys : List Log) → logged (xs ++ ys) ≡ logged xs ++ logged ys) where
    Trace-append :
        (w : W) (cs : List Call) (v : W) (ds : List Call) (u : W)
        → Trace Allowed w cs v
        → Trace Allowed v ds u
        → Trace Allowed w (cs ++ ds) u
    Trace-append w cs v ds u (Trace.done _) t = t
    Trace-append w cs v ds u (Trace.next c _ cs' _ a r) t =
        Trace.next c w (cs' ++ ds) u a (Trace-append (effect c w) cs' v ds u r t)

    -- What is made from `w` on: its calls are allowed, and its lines name the domains that it started.
    pub record Traced (w : W) (r : List Log × W) : Type 0 where
      pub calls : List Call
      pub trace : Trace Allowed w calls r.1
      pub named : starts calls ≡ logged r.0

    pub idle-Traced : (w : W) (lines : List Log) → logged lines ≡ [] → Traced w (lines, w)
    idle-Traced w lines e = record { calls = []; trace = Trace.done w; named = sym e }

    pub append-Traced :
        (w : W) (r : List Log × W) (q : List Log × W)
        → Traced w r
        → Traced r.1 q
        → Traced w (r.0 ++ q.0, q.1)
    append-Traced w r q a b = record {
      calls = a.calls ++ b.calls;
      trace = Trace-append w a.calls r.1 b.calls q.1 a.trace b.trace;
      named =
          starts-append a.calls b.calls
          ∙ ap (λ t. t ++ starts b.calls) a.named
          ∙ ap (λ t. logged r.0 ++ t) b.named
          ∙ sym (logged-append r.0 q.0);
    }
