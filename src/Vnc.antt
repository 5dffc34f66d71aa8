-- ===== src/Vnc.antt =====
-- internal/vnc/vnc.go: which console passwords are acceptable.
pub mod Password
pub mod Store
use zvm_extra.Base.{
  ℕ, Bool, true, false, not, List, [], ◌∷◌, ◌||◌, ltb, ◌==◌, if◌then◌else◌, length,
}
use zvm_extra.Bytes.{Bytes, all_bytes}

-- One round of the loop over the password. A byte of a character outside ASCII is refused as the
-- character is.
unfoldable pub plain : ℕ → Bool
plain r =
    if ltb r 0x20 || ltb 0x7e r
    then false
    else not (r == b'\'' || r == b'"' || r == b'<' || r == b'>' || r == b'&')

unfoldable pub valid_password : Bytes → Bool
unfolding plain all_bytes
valid_password pw = if ltb (length pw) 1 || ltb 8 (length pw) then false else all_bytes plain pw
