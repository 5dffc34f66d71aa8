-- ===== src/Mounts/Safe.antt =====
-- internal/mounts/mounts.go: what the checks of an entry keep true of all entries.
use zvm_extra.Base.{
  ℕ, ◌/◌, ◌%◌, ◌≤◌, ◌≡◌, subst, inl, inr, true, false, some, none, ok, err, List, [], ◌∷◌,
  if◌then◌else◌, arith, All, Bool-cases, Option-cases, Result-cases, some_eq,
}
use zvm_extra.Bytes.{Bytes, codes, bytes_eq, has_prefix, contains, trim_space, all_bytes}
use zvm_extra.Bytes.Cuts.{All-all_bytes}
use zvm_extra.Dict.{Dict, get, put, remove, values}
use zvm_extra.FileStore.{Codec, SaveCalls, Store}
use zvm_extra.FileStore
use zvm_extra.Paths.{is_abs, clean}
use zvm_extra.Mounts.{
  Entry, Manager, is_type, system_paths, system_path_of, is_id_byte, plain_fields, validate, new_id,
  with_id, keep_password, upsert, delete, hex_digit,
}

-- An entry that mount may be run for.
pub record IsSafe (e : Entry) : Type 0 where
  pub typed : is_type e.kind ≡ true
  pub host_named : bytes_eq (trim_space e.host) [] ≡ false
  pub host_no_flag : has_prefix e.host (codes "-") ≡ false
  pub share_no_flag : has_prefix e.share (codes "-") ≡ false
  pub absolute : is_abs e.mountpoint ≡ true
  pub no_parent : contains e.mountpoint (codes "..") ≡ false
  pub outside : system_path_of system_paths (clean e.mountpoint) ≡ none
  pub plain : plain_fields e ≡ true
  pub hex : all_bytes is_id_byte e.id ≡ true

pub validate-IsSafe : (e : Entry) → validate e ≡ ok tt → IsSafe e
unfolding validate
validate-IsSafe e h = record {
  typed = ground (arith, h);
  host_named = ground (arith, h);
  host_no_flag = ground (arith, h);
  share_no_flag = ground (arith, h);
  absolute = ground (arith, h);
  no_parent = ground (arith, h);
  outside = ground (arith, h);
  plain = ground (arith, h);
  hex = ground (arith, h);
}

hex_digit_id : (n : ℕ) → n ≤ 15 → is_id_byte (hex_digit n) ≡ true
unfolding is_id_byte hex_digit
hex_digit_id n h = ground arith

new_id-hex : (bs : List ℕ) → All (λ c. is_id_byte c ≡ true) (new_id bs)
unfolding new_id
new_id-hex [] = tt
new_id-hex (b ∷ bs) =
    (hex_digit_id (b / 16 % 16) (omega arith), (hex_digit_id (b % 16) (omega arith), new_id-hex bs))

with_id-IsSafe : (random : List ℕ) (e : Entry) → IsSafe e → IsSafe (with_id random e)
unfolding with_id plain_fields
with_id-IsSafe random e s = elim (Bool-cases (bytes_eq e.id [])) [
  | inr named ↦ rw named s
  | inl unnamed ↦ rw unnamed (record {
    typed = s.typed;
    host_named = s.host_named;
    host_no_flag = s.host_no_flag;
    share_no_flag = s.share_no_flag;
    absolute = s.absolute;
    no_parent = s.no_parent;
    outside = s.outside;
    plain = s.plain;
    hex = All-all_bytes is_id_byte (new_id random) (new_id-hex random);
  })
]

-- Every entry of the map is safe.
abbrev pub AllSafe : Dict Entry → Type 0
AllSafe d = All IsSafe (values d)

get-IsSafe : (d : Dict Entry) (id : Bytes) {e : Entry} → AllSafe d → get d id ≡ some e → IsSafe e
unfolding values get
get-IsSafe [] id all g = absurd (cc (g))
get-IsSafe ((k, f) ∷ d) id (s, all) g = elim (Bool-cases (bytes_eq k id)) [
  | inl same ↦ subst IsSafe (some_eq (ground (arith, same, g))) s
  | inr other ↦ get-IsSafe d id all (ground (arith, other, g))
]

plain_password :
    (e old : Entry)
    → plain_fields e ≡ true
    → plain_fields old ≡ true
    → plain_fields (record e { password = old.password }) ≡ true
unfolding plain_fields
plain_password e old h k = ground arith

with_password :
    (e old : Entry) → IsSafe e → IsSafe old → IsSafe (record e { password = old.password })
with_password e old s o = record {
  typed = s.typed;
  host_named = s.host_named;
  host_no_flag = s.host_no_flag;
  share_no_flag = s.share_no_flag;
  absolute = s.absolute;
  no_parent = s.no_parent;
  outside = s.outside;
  plain = plain_password e old s.plain o.plain;
  hex = s.hex;
}

keep_none : (d : Dict Entry) (e : Entry) → get d e.id ≡ none → keep_password d e ≡ e
unfolding keep_password
keep_none d e n = ground (arith, n)

keep_old :
    (d : Dict Entry) (e old : Entry)
    → get d e.id ≡ some old
    → keep_password d e
      ≡ (if bytes_eq e.password [] then record e { password = old.password } else e)
unfolding keep_password
keep_old d e old n = ground (arith, n)

keep-IsSafe : (d : Dict Entry) (e : Entry) → AllSafe d → IsSafe e → IsSafe (keep_password d e)
keep-IsSafe d e all s = elim (Option-cases (get d e.id)) [
  | inl n ↦ rw (keep_none d e n) s
  | inr (old, n) ↦ elim (Bool-cases (bytes_eq e.password [])) [
    | inl empty ↦ rw (keep_old d e old n, empty) (with_password e old s (get-IsSafe d e.id all n))
    | inr given ↦ rw (keep_old d e old n, given) s
  ]
]

AllSafe-remove : (k : Bytes) (d : Dict Entry) → AllSafe d → AllSafe (remove k d)
unfolding values remove
AllSafe-remove k [] all = tt
AllSafe-remove k ((j, e) ∷ d) (s, all) = elim (Bool-cases (bytes_eq j k)) [
  | inl same ↦ rw same (AllSafe-remove k d all)
  | inr other ↦ rw other (s, AllSafe-remove k d all)
]

AllSafe-put : (k : Bytes) (e : Entry) (d : Dict Entry) → AllSafe d → IsSafe e → AllSafe (put k e d)
unfolding values put
AllSafe-put k e d all s = (s, AllSafe-remove k d all)

module _ (codec : Codec Entry) where
  refused :
      (calls : SaveCalls) (random : List ℕ) (e : Entry) (m : Manager) {msg : Bytes}
      → validate e ≡ err msg
      → (upsert codec calls random e m).1 ≡ m
  unfolding upsert
  refused calls random e m h = ground (arith, h)

  accepted :
      (calls : SaveCalls) (random : List ℕ) (e : Entry) (m : Manager)
      → validate e ≡ ok tt
      → (upsert codec calls random e m).1.store.entries
        ≡ put
            (keep_password m.store.entries (with_id random e)).id
            (keep_password m.store.entries (with_id random e))
            m.store.entries
  unfolding upsert FileStore.upsert FileStore.save_locked
  accepted calls random e m h = ground (arith, h)

  upsert-AllSafe :
      (calls : SaveCalls) (random : List ℕ) (e : Entry) (m : Manager)
      → AllSafe m.store.entries
      → AllSafe (upsert codec calls random e m).1.store.entries
  upsert-AllSafe calls random e m all = elim (Result-cases (validate e)) [
    | inl (msg, h) ↦ rw (refused calls random e m h) all
    | inr (tt, h) ↦
        let s =
          keep-IsSafe m.store.entries (with_id random e) all
            (with_id-IsSafe random e (validate-IsSafe e h)) in
        rw (accepted calls random e m h) (AllSafe-put _ _ m.store.entries all s)
  ]

  delete-AllSafe :
      (calls : SaveCalls) (id : Bytes) (m : Manager)
      → AllSafe m.store.entries
      → AllSafe (delete codec calls id m).1.store.entries
  unfolding delete FileStore.delete FileStore.save_locked
  delete-AllSafe calls id m all = AllSafe-remove id m.store.entries all

  -- All entries stay safe: if all are before an Upsert or a Delete, saved or not and accepted or not, all
  -- are after it. Safe means that the type is one of four, host and share are no flags, the
  -- mountpoint is absolute, without .. and neither a system path nor below one, host, share, user
  -- name, options and password have none of the bytes `$;|&<>"\ and no line feed, and the id is
  -- hexadecimal. Nothing is said of the name and of the other bytes of the mountpoint. A password
  -- that is kept for an empty one is covered.
  pub edits_keep_safe :
      (calls : SaveCalls) (random : List ℕ) (e : Entry) (id : Bytes) (m : Manager)
      → AllSafe m.store.entries
      → AllSafe (upsert codec calls random e m).1.store.entries
        × AllSafe (delete codec calls id m).1.store.entries
  edits_keep_safe calls random e id m all =
      (upsert-AllSafe calls random e m all, delete-AllSafe calls id m all)
