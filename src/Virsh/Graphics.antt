-- ===== src/Virsh/Graphics.antt =====
-- internal/virsh/vnc.go: string surgery on the VNC <graphics> element.
pub mod Rounds
pub mod Tags
pub mod Attributes
pub mod Password
use zvm_extra.Base.{
  ℕ, zero, suc, ◌+◌, Bool, true, false, not, Option, none, some, Result, ok, err, List, [], ◌∷◌,
  ◌++◌, ◌||◌, if◌then◌else◌, length, take, drop,
}
use zvm_extra.Bytes.{Bytes, codes, bytes_eq, index, index_byte, contains, has_suffix, trim_space}

-- An opening tag, its offset, and the offset just past its '>'.
pub record Tag : Type 0 where
  pub text : Bytes
  pub start : ℕ
  pub stop : ℕ

abbrev pub graphics_head : Bytes
graphics_head = codes "<graphics"

unfoldable pub is_vnc : Bytes → Bool
is_vnc t = contains t (codes "type='vnc'") || contains t (codes "type=\"vnc\"")

-- The loop of `vncOpenTag`; `rest` is the document from the offset `off` on.
unfoldable pub find_tag : ℕ → ℕ → Bytes → Option Tag
find_tag zero off rest = none
find_tag (suc fuel) off rest = elim (index rest graphics_head) [
  | none ↦ none
  | some i ↦ elim (index_byte (drop i rest) b'>') [
    | none ↦ none
    | some gt ↦ elim (is_vnc (take (gt + 1) (drop i rest))) [
      | true ↦
          some (record {
            text = take (gt + 1) (drop i rest);
            start = off + i;
            stop = off + i + gt + 1;
          })
      | false ↦ find_tag fuel (off + i + gt + 1) (drop (gt + 1) (drop i rest))
    ]
  ]
]

-- Each round passes a '>', so the length of the document bounds the rounds.
unfoldable pub vnc_open_tag : Bytes → Option Tag
unfolding find_tag is_vnc
vnc_open_tag dom_xml = find_tag (suc (length dom_xml)) 0 dom_xml

-- The value of an attribute in quotes `q`.
quoted_value : ℕ → Bytes → Bytes → Option Bytes
quoted_value q tag attr =
    let key = attr ++ b'=' ∷ q ∷ [] in
    elim (index tag key) [
      | none ↦ none
      | some i ↦
          let rest = drop (i + length key) tag in
          elim (index_byte rest q) [ none ↦ none | some j ↦ some (take j rest) ]
    ]

unfoldable pub tag_attr : Bytes → Bytes → Bytes
unfolding quoted_value
tag_attr tag attr = elim (quoted_value b'\'' tag attr) [
  | some v ↦ v
  | none ↦ elim (quoted_value b'"' tag attr) [ some v ↦ v | none ↦ [] ]
]

-- The tag without an attribute in quotes `q`.
drop_quoted : ℕ → Bytes → Bytes → Option Bytes
drop_quoted q tag attr =
    let key = b' ' ∷ (attr ++ b'=' ∷ q ∷ []) in
    elim (index tag key) [
      | none ↦ none
      | some i ↦
          let rest = drop (i + length key) tag in
          elim (index_byte rest q) [ none ↦ none | some j ↦ some (take i tag ++ drop (j + 1) rest) ]
    ]

unfoldable pub tag_drop_attr : Bytes → Bytes → Bytes
unfolding drop_quoted
tag_drop_attr tag attr = elim (drop_quoted b'\'' tag attr) [
  | some t ↦ t
  | none ↦ elim (drop_quoted b'"' tag attr) [ some t ↦ t | none ↦ tag ]
]

-- The <listen …> child; `stop` is the offset just past the tag.
unfoldable pub vnc_listen_child : Bytes → Bytes → ℕ → Bytes
vnc_listen_child dom_xml tag stop =
    if has_suffix (trim_space tag) (codes "/>")
    then []
    else elim (index (drop stop dom_xml) (codes "</graphics>")) [
      | none ↦ []
      | some close ↦
          let body = take close (drop stop dom_xml) in
          elim (index body (codes "<listen")) [
            | none ↦ []
            | some i ↦ elim (index_byte (drop i body) b'>') [
              | none ↦ []
              | some j ↦ take (j + 1) (drop i body)
            ]
          ]
    ]

pub record GraphicsInfo : Type 0 where
  pub found : Bool
  pub has_password : Bool
  pub listen : Bytes

-- The child's address counts before the tag's.
listen_of : Bytes → Bytes → Bytes
listen_of tag child =
    let addr = tag_attr child (codes "address") in
    if bytes_eq child []
    then tag_attr tag (codes "listen")
    else if bytes_eq addr []
    then tag_attr tag (codes "listen")
    else addr

unfoldable pub vnc_graphics_info : Bytes → GraphicsInfo
unfolding listen_of
vnc_graphics_info dom_xml = elim (vnc_open_tag dom_xml) [
  | none ↦ record { found = false; has_password = false; listen = [] }
  | some tag ↦ record {
    found = true;
    has_password = not (bytes_eq (tag_attr tag.text (codes "passwd")) []);
    listen = listen_of tag.text (vnc_listen_child dom_xml tag.text tag.stop);
  }
]

-- The tag that `setGraphicsPasswordXML` writes.
password_tag : Bytes → Bytes → Bytes
unfolding tag_drop_attr
password_tag text pw =
    let new_tag = tag_drop_attr text (codes "passwd") in
    if bytes_eq pw []
    then new_tag
    else graphics_head ++ (codes " passwd='" ++ (pw ++ b'\'' ∷ drop (length graphics_head) new_tag))

unfoldable pub set_graphics_password_xml : Bytes → Bytes → Result Bytes
unfolding password_tag
set_graphics_password_xml dom_xml pw = elim (vnc_open_tag dom_xml) [
  | none ↦ err (codes "domain has no VNC graphics device")
  | some tag ↦ ok (take tag.start dom_xml ++ (password_tag tag.text pw ++ drop tag.stop dom_xml))
]
