-- ===== src/Mounts/Runs.antt =====
-- internal/mounts/mounts.go: what mount and umount are run with.
use zvm_extra.Base.{
  ◌≡◌, refl, ap, subst, inl, inr, true, false, not, Option, some, none, ok, List, [], ◌∷◌, arith,
  All, All-map, Bool-cases,
}
use zvm_extra.Bytes.{Bytes, bytes_eq, all_bytes, split, fields, is_space}
use zvm_extra.Bytes.Laws.{bytes_eq_iff}
use zvm_extra.Bytes.Cuts.{All-all_bytes}
use zvm_extra.Bytes.Splits.{Solid, fields-Solid}
use zvm_extra.Dict.{get}
use zvm_extra.Paths.{clean}
use zvm_extra.Mounts.{Entry, Manager, is_mounted, any_line, is_mount_line}
use zvm_extra.Mounts.Commands.{Host, unmount}

-- A path with white space in it.
abbrev pub HasSpace : Bytes → Type 0
HasSpace p = all_bytes (λ c. not (is_space c)) p ≡ false

Solid-bytes : (p : Bytes) → Solid p → all_bytes (λ c. not (is_space c)) p ≡ true
Solid-bytes p h = All-all_bytes (λ c. not (is_space c)) p (All-map (λ c e. ap not e) p h)

no_such_field : (b p : Bytes) → Solid b → HasSpace p → bytes_eq b p ≡ false
no_such_field b p s h = elim (Bool-cases (bytes_eq b p)) [
  | inr e ↦ e
  | inl e ↦ absurd (cc (h, Solid-bytes p (subst Solid ((bytes_eq_iff b p).0 e) s)))
]

no_line : (p : Bytes) (fs : List Bytes) → All Solid fs → HasSpace p → is_mount_line p fs ≡ false
unfolding is_mount_line
no_line p [] s h = refl
no_line p (a ∷ []) s h = refl
no_line p (a ∷ b ∷ fs) (sa, (sb, s)) h = no_such_field b p sb h

no_lines : (p : Bytes) (lines : List Bytes) → HasSpace p → any_line p lines ≡ false
unfolding any_line
no_lines p [] h = refl
no_lines p (line ∷ lines) h =
    rw (no_line p (fields line) (fields-Solid line) h, no_lines p lines h) refl

never_mounted :
    (text : Option Bytes) (path : Bytes) → HasSpace (clean path) → is_mounted text path ≡ false
unfolding is_mounted
never_mounted none path h = refl
never_mounted (some b) path h = no_lines (clean path) (split b b'\n') h

-- A mountpoint with white space in it is never seen as mounted: the kernel writes such bytes of a path
-- as \040, which IsMounted does not undo. Unmount then answers that all is well and runs nothing,
-- whatever is mounted.
pub unmount_space :
    {W : Type 0} (host : Host W) (id : Bytes) (e : Entry) (m : Manager) (w : W)
    → get m.store.entries id ≡ some e
    → HasSpace (clean e.mountpoint)
    → unmount host id m w ≡ (ok tt, w)
unfolding unmount
unmount_space host id e m w g h =
    ground (arith, g, never_mounted (host.proc_mounts w) e.mountpoint h)
