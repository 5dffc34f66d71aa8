-- ===== src/Virsh/Graphics/Attributes.antt =====
-- What dropping an attribute leaves of a tag.
use zvm_extra.Base.{
  ℕ, ◌+◌, ◌≡◌, ◌≢◌, sym, ap, ◌∙◌, some, [], ◌∷◌, ◌++◌, arith, All-append, All-append_left,
  All-append_right, subst, length, take, drop, Option-cases, inl, inr, append_assoc, length-append,
}
use zvm_extra.Bytes.{Bytes, index, index_byte}
use zvm_extra.Bytes.Cuts.{Lacks}
use zvm_extra.Bytes.Index.{
  index-some, index_byte-some, append-Lacks, snoc_split, drop_at, take_at, drop_past,
}
use zvm_extra.Virsh.Graphics.{graphics_head, drop_quoted, tag_drop_attr}

-- ` attr=` and a quote.
abbrev quoted_key : ℕ → Bytes → Bytes
quoted_key q attr = b' ' ∷ (attr ++ b'=' ∷ q ∷ [])

record Dropped (q : ℕ) (text attr text' : Bytes) : Type 0 where
  before : Bytes
  value : Bytes
  after : Bytes
  split : text ≡ before ++ (quoted_key q attr ++ (value ++ q ∷ after))
  left : text' ≡ before ++ after

drop_quoted-some :
    (q : ℕ) (text attr : Bytes) {text' : Bytes}
    → drop_quoted q text attr ≡ some text'
    → Dropped q text attr text'
unfolding drop_quoted
drop_quoted-some q text attr {text'} h = elim (Option-cases (index text (quoted_key q attr))) [
  | inl e ↦ absurd (ground (arith, e))
  | inr (i, e) ↦
      let f = index-some text (quoted_key q attr) e in
      let rest = drop (i + length (quoted_key q attr)) text in
      elim (Option-cases (index_byte rest q)) [
        | inl e' ↦ absurd (ground (arith, e, e'))
        | inr (j, e') ↦
            let g = index_byte-some rest q e' in
            let is_rest : rest ≡ f.after =
              ap (drop (i + length (quoted_key q attr)))
                (f.split ∙ sym (append_assoc f.before (quoted_key q attr) f.after))
              ∙ drop_at (i + length (quoted_key q attr)) (f.before ++ quoted_key q attr) f.after
                  (omega (arith, length-append {0} f.before (quoted_key q attr), f.at)) in
            let cut_off : take i text ≡ f.before =
              ap (take i) f.split ∙ take_at i f.before (quoted_key q attr ++ f.after) (sym f.at) in
            let left_over : drop (j + 1) rest ≡ g.after =
              ap (drop (j + 1)) g.split
              ∙ ap (λ n. drop (n + 1) (g.before ++ q ∷ g.after)) (sym g.at)
              ∙ drop_past g.before g.after q in
            record {
              before = f.before;
              value = g.before;
              after = g.after;
              split =
                  f.split ∙ ap (λ t. f.before ++ (quoted_key q attr ++ t)) (sym is_rest ∙ g.split);
              left = ground (arith, e, e', cut_off, left_over);
            }
      ]
]

-- `text` is a tag: it opens with "<graphics", and its only '>' is its last byte.
pub record IsTag (text : Bytes) : Type 0 where
  pub body : Bytes
  pub spelled : text ≡ graphics_head ++ (body ++ b'>' ∷ [])
  pub lacks : Lacks b'>' body

head_solid : Lacks b' ' graphics_head
head_solid = omega arith

cut_spelled :
    (text' before after b w : Bytes)
    → text' ≡ before ++ after
    → before ≡ graphics_head ++ b
    → after ≡ w ++ b'>' ∷ []
    → text' ≡ graphics_head ++ ((b ++ w) ++ b'>' ∷ [])
cut_spelled text' before after b w e eb ea = e ∙ rw (eb, ea, append_assoc b w (b'>' ∷ []))

Dropped-IsTag :
    (q : ℕ) (text attr text' : Bytes)
    → q ≢ b'>'
    → IsTag text
    → Dropped q text attr text'
    → IsTag text'
Dropped-IsTag q text attr text' ne tag d =
    let name = attr ++ b'=' ∷ q ∷ [] in
    let (b, before, tail) =
      append-Lacks graphics_head (tag.body ++ b'>' ∷ []) d.before (name ++ (d.value ++ q ∷ d.after))
        b' ' head_solid (sym tag.spelled ∙ d.split) in
    let u = b ++ b' ' ∷ (name ++ d.value) in
    let (w, after, body) = snoc_split tag.body u d.after b'>' q ne (tail ∙ simp append_assoc) in
    let whole = subst (Lacks b'>') body tag.lacks in
    record {
      body = b ++ w;
      spelled = cut_spelled text' d.before d.after b w d.left before after;
      lacks =
          All-append _ b w
            (All-append_left _ b (b' ' ∷ (name ++ d.value)) (All-append_left _ u (q ∷ w) whole))
            (All-append_right _ u (q ∷ w) whole).1;
    }

pub tag_drop_attr-IsTag : (text attr : Bytes) → IsTag text → IsTag (tag_drop_attr text attr)
unfolding tag_drop_attr
tag_drop_attr-IsTag text attr tag = elim (Option-cases (drop_quoted b'\'' text attr)) [
  | inr (t, e) ↦
      rw (e, tag_drop_attr)
        (Dropped-IsTag b'\'' text attr t (omega arith) tag (drop_quoted-some b'\'' text attr e))
  | inl e ↦ elim (Option-cases (drop_quoted b'"' text attr)) [
    | inr (t, e') ↦
        rw (e, e', tag_drop_attr)
          (Dropped-IsTag b'"' text attr t (omega arith) tag (drop_quoted-some b'"' text attr e'))
    | inl e' ↦ rw (e, e', tag_drop_attr) tag
  ]
]
