-- ===== src/Virsh/Graphics/Password.antt =====
-- A password that was set reads back, and nothing but the console's tag changes.
use zvm_extra.Base.{
  ℕ, ◌+◌, ◌≡◌, refl, sym, ap, ◌∙◌, true, false, ◌⊎◌, some, ok, [], ◌∷◌, ◌++◌, arith, All-append,
  All-map, subst, length, take, drop, take-append_length, Bool-cases, inl, inr, append_assoc,
  length-append,
}
use zvm_extra.Bytes.{Bytes, codes, index, contains, has_prefix, bytes_eq}
use zvm_extra.Bytes.Cuts.{Lacks}
use zvm_extra.Bytes.Index.{
  append-Lacks, take_at, drop_at, contains-Occurs, contains-append, index_byte-append,
}
use zvm_extra.Vnc.{valid_password}
use zvm_extra.Vnc.Password.{valid_password_iff}
use zvm_extra.Virsh.Graphics.{
  Tag, graphics_head, is_vnc, vnc_open_tag, tag_attr, tag_drop_attr, password_tag,
  set_graphics_password_xml, vnc_graphics_info,
}
use zvm_extra.Virsh.Graphics.Rounds.{IsOpenTag}
use zvm_extra.Virsh.Graphics.Tags.{tag_at}
use zvm_extra.Virsh.Graphics.Attributes.{tag_drop_attr-IsTag}

-- What stands behind "<graphics" counts for the search of a text that cannot begin in it.
contains_behind :
    (x s p' : Bytes) (y : ℕ)
    → Lacks y graphics_head
    → contains (graphics_head ++ s) (y ∷ p') ≡ true
    → contains (graphics_head ++ (x ++ s)) (y ∷ p') ≡ true
contains_behind x s p' y lacks h =
    let o = contains-Occurs (graphics_head ++ s) (y ∷ p') h in
    let (b, _, e) = append-Lacks graphics_head s o.before (p' ++ o.after) y lacks o.split in
    rw e (
      rw (← append_assoc x b ((y ∷ p') ++ o.after))
        (contains-append (graphics_head ++ (x ++ b)) (y ∷ p') o.after))

is_vnc_behind :
    (x s : Bytes) → is_vnc (graphics_head ++ s) ≡ true → is_vnc (graphics_head ++ (x ++ s)) ≡ true
unfolding is_vnc
is_vnc_behind x s h = elim (Bool-cases (contains (graphics_head ++ s) (codes "type='vnc'"))) [
  | inl e ↦ ground (arith, contains_behind x s (codes "ype='vnc'") b't' (omega arith) e)
  | inr e ↦
      ground
        (arith, e, contains_behind x s (codes "ype=\"vnc\"") b't' (omega arith) (ground (arith, e)))
]

read_password :
    (pw rest : Bytes)
    → Lacks b'\'' pw
    → tag_attr (graphics_head ++ (codes " passwd='" ++ (pw ++ b'\'' ∷ rest))) (codes "passwd") ≡ pw
unfolding tag_attr index has_prefix
read_password pw rest h =
    rw (index_byte-append pw rest b'\'' h, tag_attr) (take-append_length pw (b'\'' ∷ rest))

-- The tag with the password in front of what is left of the old one.
abbrev with_password : Bytes → Bytes → Bytes
with_password pw rest = graphics_head ++ (codes " passwd='" ++ (pw ++ b'\'' ∷ rest))

password-Lacks :
    (c : ℕ) (pw : Bytes) → (c ≡ b'\'') ⊎ (c ≡ b'>') → valid_password pw ≡ true → Lacks c pw
password-Lacks c pw h valid =
    All-map (λ r harmless. omega arith) pw ((valid_password_iff pw).0 valid).2

with_password-IsOpenTag :
    (pw b : Bytes)
    → valid_password pw ≡ true
    → Lacks b'>' b
    → is_vnc (graphics_head ++ (b ++ b'>' ∷ [])) ≡ true
    → IsOpenTag (with_password pw (b ++ b'>' ∷ []))
with_password-IsOpenTag pw b valid lacks vnc = record {
  body = codes " passwd='" ++ (pw ++ b'\'' ∷ b);
  spelled = rw (append_assoc pw (b'\'' ∷ b) (b'>' ∷ []));
  lacks =
      All-append _ (codes " passwd='") (pw ++ b'\'' ∷ b) (omega arith) (
        All-append _ pw (b'\'' ∷ b) (password-Lacks b'>' pw (inr refl) valid) (omega arith, lacks));
  vnc =
      rw (append_assoc pw (b'\'' ∷ []) (b ++ b'>' ∷ [])) at
        (is_vnc_behind (codes " passwd='" ++ (pw ++ b'\'' ∷ [])) (b ++ b'>' ∷ []) vnc);
}

valid_ne_nil : (pw : Bytes) → valid_password pw ≡ true → bytes_eq pw [] ≡ false
valid_ne_nil [] valid = unfold valid_password in absurd (ground arith)
valid_ne_nil (c ∷ pw) valid = unfold bytes_eq in refl

password_tag_lem :
    (text pw b : Bytes)
    → valid_password pw ≡ true
    → tag_drop_attr text (codes "passwd") ≡ graphics_head ++ (b ++ b'>' ∷ [])
    → password_tag text pw ≡ with_password pw (b ++ b'>' ∷ [])
unfolding password_tag
password_tag_lem text pw b valid e = rw (valid_ne_nil pw valid, e)

-- What a document is after a password was set in it.
pub record PasswordSet (dom_xml : Bytes) (tag : Tag) (pw : Bytes) : Type 0 where
  pub xml : Bytes
  pub written : set_graphics_password_xml dom_xml pw ≡ ok xml
  pub tag' : Tag
  pub tag_found : vnc_open_tag xml ≡ some tag'
  pub reads_back : tag_attr tag'.text (codes "passwd") ≡ pw
  pub protected : (vnc_graphics_info xml).has_password ≡ true
  pub same_before : take tag'.start xml ≡ take tag.start dom_xml
  pub same_after : drop tag'.stop xml ≡ drop tag.stop dom_xml
  pub same_place : tag'.start ≡ tag.start

set_graphics_password_xml_lem :
    (dom_xml pw : Bytes) {tag : Tag}
    → vnc_open_tag dom_xml ≡ some tag
    → set_graphics_password_xml dom_xml pw
      ≡ ok (take tag.start dom_xml ++ (password_tag tag.text pw ++ drop tag.stop dom_xml))
unfolding set_graphics_password_xml
set_graphics_password_xml_lem dom_xml pw h = ground (arith, h)

protected_lem :
    (xml pw : Bytes) {tag : Tag}
    → vnc_open_tag xml ≡ some tag
    → tag_attr tag.text (codes "passwd") ≡ pw
    → bytes_eq pw [] ≡ false
    → (vnc_graphics_info xml).has_password ≡ true
unfolding vnc_graphics_info
protected_lem xml pw h e ne = ground (arith, h, e, ne)

-- A valid password that is set in a document with a VNC console reads back exactly, the console
-- counts as protected, and the document is as it was before and behind the console's tag. The
-- type attribute must not stand in the value of the old password.
pub password_reads_back :
    (dom_xml pw : Bytes) {tag : Tag}
    → vnc_open_tag dom_xml ≡ some tag
    → valid_password pw ≡ true
    → is_vnc (tag_drop_attr tag.text (codes "passwd")) ≡ true
    → PasswordSet dom_xml tag pw
password_reads_back dom_xml pw {tag} found valid typed =
    let at = tag_at dom_xml found in
    let d =
      tag_drop_attr-IsTag tag.text (codes "passwd")
        (record { body = at.opens.body; spelled = at.opens.spelled; lacks = at.opens.lacks }) in
    let t = with_password pw (d.body ++ b'>' ∷ []) in
    let opens =
      with_password-IsOpenTag pw d.body valid d.lacks
        (subst (λ u. is_vnc u ≡ true) d.spelled typed) in
    let found' = at.relocate t at.post opens in
    let cut_off : take tag.start dom_xml ≡ at.pre =
      ap (take tag.start) at.split ∙ take_at tag.start at.pre (tag.text ++ at.post) at.start_at in
    let left_over : drop tag.stop dom_xml ≡ at.post =
      ap (drop tag.stop) (at.split ∙ sym (append_assoc at.pre tag.text at.post))
      ∙ drop_at tag.stop (at.pre ++ tag.text) at.post
          (at.stop_at ∙ sym (length-append at.pre tag.text)) in
    let reads = read_password pw (d.body ++ b'>' ∷ []) (password-Lacks b'\'' pw (inl refl) valid) in
    record {
      xml = at.pre ++ (t ++ at.post);
      written =
          set_graphics_password_xml_lem dom_xml pw found
          ∙ rw (cut_off, left_over, password_tag_lem tag.text pw d.body valid d.spelled);
      tag' = record { text = t; start = length at.pre; stop = length at.pre + length t };
      tag_found = found';
      reads_back = reads;
      protected = protected_lem _ pw found' reads (valid_ne_nil pw valid);
      same_before = take-append_length at.pre (t ++ at.post) ∙ sym cut_off;
      same_after =
          ap (drop (length at.pre + length t)) (sym (append_assoc at.pre t at.post))
          ∙ drop_at _ (at.pre ++ t) at.post (sym (length-append at.pre t))
          ∙ sym left_over;
      same_place = sym at.start_at;
    }
