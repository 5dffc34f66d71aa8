-- ===== src/Vnc/Password.antt =====
-- What an accepted password is.
use zvm_extra.Base.{ℕ, ◌≡◌, ◌≢◌, true, ◌↔◌, arith, All, All-map, length, ◌≤◌}
use zvm_extra.Bytes.{Bytes}
use zvm_extra.Bytes.Cuts.{all_bytes-All, All-all_bytes}
use zvm_extra.Vnc.{plain, valid_password}

-- A printable ASCII byte that means nothing in an attribute of XML.
abbrev pub IsHarmless : ℕ → Type 0
IsHarmless r =
    (0x20 ≤ r) × (r ≤ 0x7e) × (r ≢ b'\'') × (r ≢ b'"') × (r ≢ b'<') × (r ≢ b'>') × (r ≢ b'&')

IsHarmless-of : (r : ℕ) → plain r ≡ true → IsHarmless r
unfolding plain
IsHarmless-of r h = ground arith

of_IsHarmless : (r : ℕ) → IsHarmless r → plain r ≡ true
unfolding plain
of_IsHarmless r h = ground arith

-- `ValidPassword` accepts exactly the texts of one to eight printable ASCII bytes none of which is
-- a quote or has a meaning in XML.
pub valid_password_iff :
    (pw : Bytes)
    → (valid_password pw ≡ true) ↔ ((1 ≤ length pw) × (length pw ≤ 8) × All IsHarmless pw)
unfolding valid_password
valid_password_iff pw = (
  λ h. (
    ground arith,
    ground arith,
    All-map IsHarmless-of pw (all_bytes-All plain pw (ground arith)),
  ),
  λ h. ground (arith, All-all_bytes plain pw (All-map of_IsHarmless pw h.2)),
)
