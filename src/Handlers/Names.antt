-- ===== src/Handlers/Names.antt =====
-- internal/handlers/handlers.go: which names, ids and addresses a request may carry.
pub mod Laws
pub mod Listing
use zvm_extra.Base.{
  ℕ, zero, suc, ◌+◌, ◌%◌, Bool, true, false, not, List, [], ◌∷◌, ◌&&◌, ◌||◌, if◌then◌else◌, leb,
  ◌==◌, length,
}
use zvm_extra.Bytes.{Bytes, codes, bytes_eq, trim_space, contains, all_bytes, is_hex_digit}

unfoldable pub is_alphanumeric : ℕ → Bool
is_alphanumeric r =
    (leb b'a' r && leb r b'z') || ((leb b'A' r && leb r b'Z') || (leb b'0' r && leb r b'9'))

-- [A-Za-z0-9_.+-]
unfoldable pub is_name_byte : ℕ → Bool
unfolding is_alphanumeric
is_name_byte r = is_alphanumeric r || (r == b'_' || (r == b'.' || (r == b'-' || r == b'+')))

-- The text is empty or begins like a flag.
abbrev pub empty_or_flag : Bytes → Bool
empty_or_flag [] = true
empty_or_flag (c ∷ s) = c == b'-'

unfoldable pub valid_name : Bytes → Bool
valid_name s =
    if empty_or_flag s
    then false
    else if bytes_eq s (codes ".") || bytes_eq s (codes "..")
    then false
    else all_bytes is_name_byte s

unfoldable pub is_snapshot_byte : ℕ → Bool
is_snapshot_byte r = is_name_byte r || r == b' '

unfoldable pub valid_snapshot_name : Bytes → Bool
valid_snapshot_name s =
    if empty_or_flag s
    then false
    else if not (bytes_eq s (trim_space s))
    then false
    else if contains s (codes "  ")
    then false
    else if bytes_eq s (codes ".") || (bytes_eq s (codes "..") || contains s (codes ".."))
    then false
    else all_bytes is_snapshot_byte s

unfoldable pub valid_hex_id : Bytes → Bool
valid_hex_id s = if not (length s == 4) then false else all_bytes is_hex_digit s

-- The loop of `validMAC` from the byte `i` on.
mac_from : ℕ → Bytes → Bool
mac_from i [] = true
mac_from i (r ∷ s) =
    let rest = mac_from (i + 1) s in
    if (i + 1) % 3 == 0
    then if not (r == b':') then false else rest
    else if not (is_hex_digit r)
    then false
    else rest

unfoldable pub valid_mac : Bytes → Bool
unfolding mac_from
valid_mac s = if not (length s == 17) then false else mac_from 0 s

unfoldable pub valid_nic_model : Bytes → Bool
valid_nic_model m =
    bytes_eq m (codes "virtio")
    || (bytes_eq m (codes "e1000") || (bytes_eq m (codes "e1000e") || bytes_eq m (codes "rtl8139")))

unfoldable pub dom_state_name : Bytes → Bytes
dom_state_name code =
    if bytes_eq code (codes "1")
    then codes "running"
    else if bytes_eq code (codes "3")
    then codes "paused"
    else if bytes_eq code (codes "4")
    then codes "shutdown"
    else if bytes_eq code (codes "5")
    then codes "shut off"
    else if bytes_eq code (codes "6")
    then codes "crashed"
    else if bytes_eq code (codes "7")
    then codes "suspended"
    else codes "unknown"
