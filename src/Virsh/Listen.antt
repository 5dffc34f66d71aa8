-- ===== src/Virsh/Listen.antt =====
-- internal/virsh/vnc.go: the address and the port of the VNC console.
pub mod Digits
use zvm_extra.Base.{
  ℕ, zero, suc, ◌+◌, ◌-◌, ◌*◌, ◌/◌, ◌%◌, ◌^◌, Bool, true, false, not, Option, none, some, Result,
  ok, err, [], ◌∷◌, ◌++◌, ◌&&◌, if◌then◌else◌, ltb, leb, ◌==◌, length, take, drop,
}
use zvm_extra.Base.Int.{ℤ, pos, negsuc, ltb_ℤ}
use zvm_extra.Bytes.{Bytes, codes, bytes_eq, index, all_bytes}
use zvm_extra.Virsh.Graphics.{
  graphics_head, vnc_open_tag, tag_attr, tag_drop_attr, vnc_listen_child,
}

unfoldable pub is_digit : ℕ → Bool
is_digit c = leb b'0' c && leb c b'9'

unfoldable pub value : ℕ → Bytes → ℕ
value n [] = n
value n (c ∷ s) = value (n * 10 + (c - b'0')) s

-- An unsigned number of at most `limit`.
atou : ℕ → Bytes → Option ℕ
unfolding is_digit value all_bytes
atou limit s =
    if not (bytes_eq s []) && all_bytes is_digit s && leb (value 0 s) limit
    then some (value 0 s)
    else none

-- strconv.Atoi, of a 64-bit int.
unfoldable pub atoi : Bytes → Option ℤ
unfolding atou
atoi [] = none
atoi (c ∷ s) =
    if c == b'-'
    then elim (atou (2 ^ 63) s) [
      | none ↦ none
      | some zero ↦ some (pos 0)
      | some (suc n) ↦ some (negsuc n)
    ]
    else elim (atou (2 ^ 63 - 1) (if c == b'+' then s else c ∷ s)) [
      | none ↦ none
      | some n ↦ some (pos n)
    ]

unfoldable pub digits : ℕ → ℕ → Bytes → Bytes
digits zero n acc = acc
digits (suc fuel) n acc = elim (ltb n 10) [
  | true ↦ (b'0' + n) ∷ acc
  | false ↦ digits fuel (n / 10) ((b'0' + n % 10) ∷ acc)
]

-- strconv.Itoa, of a positive int, which has at most 19 digits.
unfoldable pub itoa : ℕ → Bytes
unfolding digits
itoa n = digits 20 n []

port_of : Option ℤ → ℤ
port_of none = pos 0
port_of (some p) = if ltb_ℤ (pos 0) p then p else pos 0

-- The port and whether libvirt picks it.
unfoldable pub vnc_graphics_port : Bytes → ℤ × Bool
unfolding port_of
vnc_graphics_port dom_xml = elim (vnc_open_tag dom_xml) [
  | none ↦ (pos 0, false)
  | some tag ↦ (
    port_of (atoi (tag_attr tag.text (codes "port"))),
    not (bytes_eq (tag_attr tag.text (codes "autoport")) (codes "no")),
  )
]

listen_attrs : Bytes → ℤ → Bytes
unfolding itoa
listen_attrs listen (pos (suc n)) =
    codes " listen='" ++ (listen ++ (codes "' port='" ++ (itoa (suc n) ++ codes "' autoport='no'")))
listen_attrs listen _ = codes " listen='" ++ (listen ++ codes "' autoport='yes'")

-- The tag that `setGraphicsListenXML` writes.
unfoldable pub listen_tag : Bytes → Bytes → ℤ → Bytes
unfolding listen_attrs
listen_tag text listen port =
    let new_tag =
      tag_drop_attr (tag_drop_attr (tag_drop_attr text (codes "listen")) (codes "port"))
        (codes "autoport") in
    graphics_head ++ (listen_attrs listen port ++ drop (length graphics_head) new_tag)

-- The <listen> child in the rewritten document, whose tag ends at `stop`.
replace_child : Bytes → Bytes → ℕ → Bytes → Bytes
replace_child out listen stop child =
    if bytes_eq child [] then out else elim (index (drop stop out) child) [
      | none ↦ out
      | some i ↦
          take (stop + i) out
          ++ (codes "<listen type='address' address='"
              ++ (listen ++ (codes "'/>" ++ drop (stop + i + length child) out)))
    ]

set_child : Bytes → Bytes → Bytes
unfolding replace_child
set_child out listen = elim (vnc_open_tag out) [
  | none ↦ out
  | some tag ↦ replace_child out listen tag.stop (vnc_listen_child out tag.text tag.stop)
]

unfoldable pub set_graphics_listen_xml : Bytes → Bytes → ℤ → Result Bytes
unfolding set_child listen_tag
set_graphics_listen_xml dom_xml listen port = elim (vnc_open_tag dom_xml) [
  | none ↦ err (codes "domain has no VNC graphics device")
  | some tag ↦ ok (
      set_child
        (take tag.start dom_xml ++ (listen_tag tag.text listen port ++ drop tag.stop dom_xml))
        listen)
]
