-- ===== src/Handlers/Consoles/Exposed.antt =====
-- internal/handlers/handlers.go: which consoles a request may expose.
use zvm_extra.Base.{
  ℕ, ◌≡◌, refl, ap, sym, subst, ◌∙◌, true, false, Option, none, some, ok, [], arith, Bool-cases,
  Result-cases, inl, inr,
}
use zvm_extra.Bytes.{Bytes, bytes_eq}
use zvm_extra.Bytes.Laws.{bytes_eq_refl}
use zvm_extra.Dict.{get-put}
use zvm_extra.FileStore
use zvm_extra.Vnc.{valid_password}
use zvm_extra.Vnc.Store as VncStore
use zvm_extra.Virsh.Client.{set_vnc_listen, set_vnc_password}
use zvm_extra.Handlers.Server.{Server, Env, Reply, Step, stop, answer}
use zvm_extra.Handlers.Server.{Answered}
use zvm_extra.Handlers.Consoles.{
  VncRequest, VncBody, all_interfaces, with_pinned, vnc_set, vnc_protect, vnc_post, is_listen,
  is_port,
}

answered_state :
    {W B : Type 0} {k j : ℕ} {b c : B} {s t : Server W}
    → ◌≡◌ {A = Step B (Reply B) × Server W} (stop (answer k b), s) (stop (answer j c), t)
    → s ≡ t
answered_state e = ap (λ p. p.1) e

not_empty : (l : Bytes) → l ≡ all_interfaces → bytes_eq l [] ≡ false
unfolding bytes_eq
not_empty l e = subst (λ m. bytes_eq m [] ≡ false) (sym e) refl

module _ {W : Type 0} (env : Env W) where
  -- A pin that was set is found.
  set_found :
      (e : VncStore.Entry) (s : Server W) → VncStore.get e.vm (vnc_set env e s).1.vnc ≡ some e
  unfolding vnc_set VncStore.set VncStore.get VncStore.key FileStore.upsert FileStore.save_locked
  set_found e s = get-put e.vm e.vm e s.vnc.entries ∙ ground (arith, bytes_eq_refl e.vm)

  -- What a console on all interfaces has: a password that virsh was told, and its pin.
  pub record Protected (vm : Bytes) (s t : Server W) : Type 0 where
    pub entry : VncStore.Entry
    pub pinned : VncStore.get vm t.vnc ≡ some entry
    pub exposed : entry.listen ≡ all_interfaces
    pub valid : valid_password entry.password ≡ true
    pub told : (set_vnc_password env.console vm entry.password s.host).0 ≡ ok tt

  -- The pin of a request that gives a password.
  abbrev pin_of : Bytes → VncRequest → VncStore.Entry
  pin_of vm q = record { vm = vm; password = q.password; listen = q.listen; port = q.port }

  -- The server after virsh was told of the password, and of the address.
  abbrev told_password : Bytes → VncRequest → Server W → Server W
  told_password vm q s = record s { host = (set_vnc_password env.console vm q.password s.host).1 }

  abbrev told_listen : Bytes → VncRequest → Server W → Server W
  told_listen vm q s = record s { host = (set_vnc_listen env.console vm q.listen q.port s.host).1 }

  protect-Answered :
      (vm : Bytes) (q : VncRequest) (s : Server W) (k : ℕ) (b : VncBody) (t : Server W)
      → bytes_eq q.listen [] ≡ false
      → Answered (vnc_protect env vm q) s k b t
      → (valid_password q.password ≡ true)
        × ((set_vnc_password env.console vm q.password s.host).0 ≡ ok tt)
        × ((vnc_set env (pin_of vm q) (told_listen vm q (told_password vm q s))).1 ≡ t)
  unfolding vnc_protect
  protect-Answered vm q s k b t l h = elim (Bool-cases (valid_password q.password)) [
    | inr no_it ↦ absurd (ground (arith, h, no_it))
    | inl valid ↦ elim (Result-cases (set_vnc_password env.console vm q.password s.host).0) [
      | inl (x, f) ↦ absurd (ground (arith, h, valid, f))
      | inr (_, told) ↦
          elim (Result-cases
            (set_vnc_listen env.console vm q.listen q.port (told_password vm q s).host).0) [
              | inl (x, f) ↦ absurd (ground (arith, h, valid, told, l, f))
              | inr (_, bound) ↦
                  elim (Result-cases
                    (vnc_set env (pin_of vm q) (told_listen vm q (told_password vm q s))).0) [
                      | inl (x, f) ↦ absurd (ground (arith, h, valid, told, l, bound, f))
                      | inr (_, set) ↦ (
                        valid,
                        told,
                        answered_state {k = 200} {j = k} {b = VncBody.protecting q.listen q.port}
                            {c = b} (ground (arith, h, valid, told, l, bound, set)),
                      )
                    ]
            ]
    ]
  ]

  -- A request with the address of all interfaces that passes `vnc_post` has passed `vnc_protect`.
  post_protects :
      (vm : Bytes) (sent : VncRequest) (s : Server W) {k : ℕ} {b : VncBody} {t : Server W}
      → (with_pinned (VncStore.get vm s.vnc) sent).listen ≡ all_interfaces
      → Answered (vnc_post env vm (ok sent)) s k b t
      → Answered (vnc_protect env vm (with_pinned (VncStore.get vm s.vnc) sent)) s k b t
  unfolding vnc_post is_listen bytes_eq
  post_protects vm sent s l h =
      elim (Bool-cases (is_port (with_pinned (VncStore.get vm s.vnc) sent).port)) [
        | inl port ↦ ground (arith, h, l, port)
        | inr no_it ↦ absurd (ground (arith, h, l, no_it))
      ]

  with_pinned_listen :
      (e : Option VncStore.Entry) (q : VncRequest) → (with_pinned e q).listen ≡ q.listen
  unfolding with_pinned
  with_pinned_listen none q = refl
  with_pinned_listen (some e) q = elim (Bool-cases (bytes_eq q.password [])) [
    | inl yes_it ↦ ground (arith, yes_it)
    | inr no_it ↦ ground (arith, no_it)
  ]

-- A POST of a console that is answered, with the address 0.0.0.0, and with a password or without, leaves a
-- pin of the domain with that address and a valid password, and virsh has taken that password.
pub exposed_console-Protected :
    {W : Type 0} (env : Env W) (vm : Bytes) (sent : VncRequest) (s : Server W) (k : ℕ) (b : VncBody)
    (t : Server W)
    → sent.listen ≡ all_interfaces
    → Answered (vnc_post env vm (ok sent)) s k b t
    → Protected env vm s t
exposed_console-Protected env vm sent s k b t l h =
    let q = with_pinned (VncStore.get vm s.vnc) sent in
    let lq = with_pinned_listen env (VncStore.get vm s.vnc) sent ∙ l in
    let (valid, told, last) =
      protect-Answered env vm q s k b t (not_empty q.listen lq)
        (post_protects env vm sent s lq h) in
    record {
      entry = pin_of env vm q;
      pinned =
          subst (λ v. VncStore.get vm v.vnc ≡ some (pin_of env vm q)) last
            (set_found env (pin_of env vm q) _);
      exposed = lq;
      valid = valid;
      told = told;
    }
