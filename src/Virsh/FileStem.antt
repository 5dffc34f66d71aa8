-- ===== src/Virsh/FileStem.antt =====
-- internal/virsh/virsh.go: the file names of snapshots (`fileStem`).
pub mod Safe
use zvm_extra.Base.{ℕ, Bool, true, false, List, [], ◌∷◌, ◌&&◌, ◌||◌, if◌then◌else◌, leb, ◌==◌}
use zvm_extra.Bytes.{Bytes, codes}

-- [A-Za-z0-9._-]
unfoldable pub is_stem_byte : ℕ → Bool
is_stem_byte r =
    (leb b'a' r && leb r b'z')
    || ((leb b'A' r && leb r b'Z')
        || ((leb b'0' r && leb r b'9') || (r == b'.' || (r == b'-' || r == b'_'))))

-- The loop; `last` is `lastUnderscore`. The bytes of a character outside ASCII collapse into the one
-- underscore of the character.
clean : Bool → Bytes → Bytes
clean last [] = []
clean last (r ∷ s) = elim (is_stem_byte r) [
  | true ↦ r ∷ clean false s
  | false ↦ elim last [ true ↦ clean true s | false ↦ b'_' ∷ clean true s ]
]

unfoldable pub is_cut : ℕ → Bool
is_cut c = c == b'_' || c == b'.'

trim_left : Bytes → Bytes
trim_left [] = []
trim_left (c ∷ s) = elim (is_cut c) [ true ↦ trim_left s | false ↦ c ∷ s ]

-- A byte in front of what is left behind it.
keep_byte : ℕ → Bytes → Bytes
keep_byte c [] = if is_cut c then [] else c ∷ []
keep_byte c (d ∷ s) = c ∷ d ∷ s

trim_right : Bytes → Bytes
unfolding keep_byte
trim_right [] = []
trim_right (c ∷ s) = keep_byte c (trim_right s)

or_snap : Bytes → Bytes
or_snap [] = codes "snap"
or_snap (c ∷ s) = c ∷ s

unfoldable pub file_stem : Bytes → Bytes
unfolding clean trim_left trim_right or_snap
file_stem name = or_snap (trim_right (trim_left (clean false name)))
