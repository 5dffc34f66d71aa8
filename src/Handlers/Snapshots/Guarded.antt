-- ===== src/Handlers/Snapshots/Guarded.antt =====
-- internal/handlers/handlers.go: which snapshots a request may create.
use zvm_extra.Base.{
  ap, ℕ, ◌≡◌, refl, sym, ◌∙◌, Bool, true, false, ok, err, [], if◌then◌else◌, arith, Bool-cases,
  Result-cases, inl, inr, length, leb,
}
use zvm_extra.Bytes.{Bytes, codes, bytes_eq, contains, all_bytes, trim_space}
use zvm_extra.Paths.{is_abs, join_path}
use zvm_extra.Virsh.Commands.{state, create_snapshot}
use zvm_extra.Handlers.Names.{valid_snapshot_name}
use zvm_extra.Handlers.Server.{
  Server, Env, Reply, Handler, ◌>>=◌, ◌>>◌, on_host, or_fail, or_else, pure, reply, check_dir,
  forbidden_snapshot_dir,
}
use zvm_extra.Handlers.Server.{Answered}
use zvm_extra.Handlers.Snapshots.{
  SnapshotBody, CreateSnapshot, is_text_byte, is_live, check_create, external_dir, snapshot_create,
  snapshot_base, settings_set, remember_snapshot_dir,
}

-- A directory that a request may name.
pub record IsAllowed (d : Bytes) : Type 0 where
  pub absolute : is_abs d ≡ true
  pub no_parent : contains d (codes "..") ≡ false
  pub outside : forbidden_snapshot_dir d ≡ false

module _ {W : Type 0} (env : Env W) where
  check_create_lem :
      (q : CreateSnapshot) (h : Handler W SnapshotBody (Reply SnapshotBody)) (s : Server W) (k : ℕ)
      (b : SnapshotBody) (t : Server W)
      → Answered (check_create env q >> h) s k b t
      → (valid_snapshot_name q.name ≡ true) × Answered h s k b t
  unfolding check_create
  check_create_lem q h s k b t e = elim (Bool-cases (bytes_eq q.name [])) [
    | inl blank ↦ absurd (ground (arith, e, blank))
    | inr named ↦ elim (Bool-cases (valid_snapshot_name q.name)) [
      | inr no_it ↦ absurd (ground (arith, e, named, no_it))
      | inl valid ↦ elim (Bool-cases (leb (length q.description) 256)) [
        | inr no_it ↦ absurd (ground (arith, e, named, valid, no_it))
        | inl short ↦ elim (Bool-cases (all_bytes is_text_byte q.description)) [
          | inr no_it ↦ absurd (ground (arith, e, named, valid, short, no_it))
          | inl plain ↦ (valid, ground (arith, e, named, valid, short, plain))
        ]
      ]
    ]
  ]

  -- The directory that a request means.
  abbrev meant : Bytes → Bytes → Server W → Bytes
  meant vm wanted s =
      if bytes_eq (trim_space wanted) []
      then join_path (snapshot_base env s) vm
      else trim_space wanted

  external_dir_lem :
      (vm wanted : Bytes) (h : Bytes → Handler W SnapshotBody (Reply SnapshotBody)) (s : Server W)
      (k : ℕ) (b : SnapshotBody) (t : Server W)
      → Answered (external_dir env vm wanted >>= h) s k b t
      → IsAllowed (meant vm wanted s)
        × Answered
            (h (meant vm wanted s))
            (record s { host = (env.mkdir_all (meant vm wanted s) s.host).1 })
            k
            b
            t
  unfolding external_dir check_dir
  external_dir_lem vm wanted h s k b t e = elim (Bool-cases (is_abs (meant vm wanted s))) [
    | inr no_it ↦ absurd (ground (arith, e, no_it))
    | inl absolute ↦ elim (Bool-cases (contains (meant vm wanted s) (codes ".."))) [
      | inl up ↦ absurd (ground (arith, e, absolute, up))
      | inr no_parent ↦ elim (Bool-cases (forbidden_snapshot_dir (meant vm wanted s))) [
        | inl bad ↦ absurd (ground (arith, e, absolute, no_parent, bad))
        | inr outside ↦ elim (Result-cases (env.mkdir_all (meant vm wanted s) s.host).0) [
          | inl (x, f) ↦ absurd (ground (arith, e, absolute, no_parent, outside, f))
          | inr (_, made) ↦ (
            record { absolute = absolute; no_parent = no_parent; outside = outside },
            ground (arith, e, absolute, no_parent, outside, made),
          )
        ]
      ]
    ]
  ]

  -- What is done after the checks.
  abbrev rest_of :
      Bytes → CreateSnapshot → Bool → Bytes → Handler W SnapshotBody (Reply SnapshotBody)
  rest_of vm q live d = do
    or_fail 500 [] (on_host (create_snapshot env.virsh vm q.name q.description live d))
    (λ s. pure tt (if live then remember_snapshot_dir env vm d s else s))
    reply 201 (SnapshotBody.created q.name live d)

  host-remember : (vm d : Bytes) (s : Server W) → (remember_snapshot_dir env vm d s).host ≡ s.host
  unfolding remember_snapshot_dir settings_set
  host-remember vm d s = ground arith

  kept_host :
      (vm : Bytes) (live : Bool) (d : Bytes) (s t : Server W)
      → (if live then remember_snapshot_dir env vm d s else s) ≡ t
      → t.host ≡ s.host
  kept_host vm true d s t e = sym (ap (λ v. v.host) e) ∙ host-remember vm d s
  kept_host vm false d s t e = sym (ap (λ v. v.host) e)

  -- The snapshot was created by that call, and no other call of the host followed.
  abbrev pub IsCreatedBy : Bytes → Bytes → Bytes → Bool → Bytes → W → W → Type 0
  IsCreatedBy vm name description external at before after =
      ((create_snapshot env.virsh vm name description external at before).0 ≡ ok tt)
      × (after ≡ (create_snapshot env.virsh vm name description external at before).1)

  rest_lem :
      (vm : Bytes) (q : CreateSnapshot) (live : Bool) (d : Bytes) (s : Server W) (k : ℕ)
      (name : Bytes) (external : Bool) (at : Bytes) (t : Server W)
      → Answered (rest_of vm q live d) s k (SnapshotBody.created name external at) t
      → (name ≡ q.name)
        × (external ≡ live)
        × (at ≡ d)
        × IsCreatedBy vm q.name q.description live d s.host t.host
  rest_lem vm q live d s k name external at t e =
      elim (Result-cases (create_snapshot env.virsh vm q.name q.description live d s.host).0) [
        | inl (x, f) ↦ absurd (ground (arith, e, f))
        | inr (_, f) ↦ (
          ground (arith, e, f),
          ground (arith, e, f),
          ground (arith, e, f),
          (
            f,
            kept_host vm live d
                (record s {
                  host = (create_snapshot env.virsh vm q.name q.description live d s.host).1;
                })
                t (ground (arith, e, f)),
          ),
        )
      ]

  -- The domain's state, empty where virsh does not give it, and the server after that.
  abbrev pub state_of : Bytes → Server W → Bytes
  state_of vm s = elim (state env.virsh vm s.host).0 [ ok st ↦ st | err _ ↦ [] ]

  abbrev asked : Bytes → Server W → Server W
  asked vm s = record s { host = (state env.virsh vm s.host).1 }

  -- An external snapshot is in an allowed directory, and another one in none.
  abbrev pub Guarded : Bool → Bytes → Type 0
  Guarded true d = IsAllowed d
  Guarded false d = d ≡ []

  -- The world in which the snapshot is created: an external one has its directory made first.
  abbrev pub readied : Bytes → Bool → Bytes → Server W → W
  readied vm true at s = (env.mkdir_all at (asked vm s).host).1
  readied vm false at s = (asked vm s).host

  abbrev after_checks : Bytes → CreateSnapshot → Handler W SnapshotBody (Reply SnapshotBody)
  after_checks vm q = do
    st ← or_else (on_host (state env.virsh vm)) []
    d ← (if is_live st then external_dir env vm q.external_dir else pure [])
    rest_of vm q (is_live st) d

  dir_lem :
      (vm : Bytes) (q : CreateSnapshot) (s : Server W) (k : ℕ) (name : Bytes) (external : Bool)
      (at : Bytes) (t : Server W)
      → Answered (after_checks vm q) s k (SnapshotBody.created name external at) t
      → (name ≡ q.name)
        × (external ≡ is_live (state_of vm s))
        × Guarded external at
        × IsCreatedBy vm name q.description external at (readied vm external at s) t.host
  dir_lem vm q s k name external at t e = elim (Bool-cases (is_live (state_of vm s))) [
    | inl live ↦
        let (allowed, f) =
          external_dir_lem vm q.external_dir (rest_of vm q true) (asked vm s) k
            (SnapshotBody.created name external at) t (ground (arith, e, live)) in
        let (same, ext, here, made) = rest_lem vm q true _ _ k name external at t f in
        (same, ext ∙ sym live, rw (ext, here) allowed, rw (same, ext, here) made)
    | inr idle ↦
        let (same, ext, here, made) =
          rest_lem vm q false [] (asked vm s) k name external at t (ground (arith, e, idle)) in
        (same, ext ∙ sym idle, rw (ext, here) refl, rw (same, ext, here) made)
  ]

  steps_lem :
      (vm : Bytes) (q : CreateSnapshot) (s : Server W) (k : ℕ) (name : Bytes) (external : Bool)
      (at : Bytes) (t : Server W)
      → Answered (snapshot_create env vm (ok q)) s k (SnapshotBody.created name external at) t
      → (valid_snapshot_name q.name ≡ true)
        × Answered (after_checks vm q) s k (SnapshotBody.created name external at) t
  unfolding snapshot_create
  steps_lem vm q s k name external at t e =
      check_create_lem q (after_checks vm q) s k (SnapshotBody.created name external at) t e

-- A snapshot that a request has created has an accepted name. It is external exactly where the domain ran
-- or was paused, its directory is absolute then, without .. and neither a system path nor below one,
-- whether the request names it or the settings do; otherwise it has none. The name, the kind and
-- the directory are those that CreateSnapshot was called with: it succeeded, behind the making of
-- the directory of an external one, and the world is as it left it.
pub created_snapshot-Guarded :
    {W : Type 0} (env : Env W) (vm : Bytes) (q : CreateSnapshot) (s : Server W) (k : ℕ)
    (name : Bytes) (external : Bool) (at : Bytes) (t : Server W)
    → Answered (snapshot_create env vm (ok q)) s k (SnapshotBody.created name external at) t
    → (valid_snapshot_name name ≡ true)
      × (external ≡ is_live (state_of env vm s))
      × Guarded env external at
      × IsCreatedBy env vm name q.description external at (readied env vm external at s) t.host
created_snapshot-Guarded env vm q s k name external at t e =
    let (valid, f) = steps_lem env vm q s k name external at t e in
    let (same, ext, guarded, made) = dir_lem env vm q s k name external at t f in
    (rw same valid, ext, guarded, made)
