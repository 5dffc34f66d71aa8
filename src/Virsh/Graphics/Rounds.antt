-- ===== src/Virsh/Graphics/Rounds.antt =====
-- One round of the loop of `vncOpenTag`.
use zvm_extra.Base.{
  ℕ, suc, ◌+◌, ◌≡◌, sym, ap, ◌∙◌, true, some, [], ◌∷◌, ◌++◌, arith, All-append, subst, length, drop,
  Option-cases, inl, inr, append_assoc, length-append, if◌then◌else◌, drop-append_length,
}
use zvm_extra.Bytes.{Bytes, index, index_byte}
use zvm_extra.Bytes.Cuts.{Lacks}
use zvm_extra.Bytes.Index.{
  index-some, index_byte-some, index_byte-append, index_first_stable, append-Lacks, take_past,
  drop_past,
}
use zvm_extra.Virsh.Graphics.{Tag, graphics_head, is_vnc, find_tag}

-- An opening tag of a VNC console.
pub record IsOpenTag (t : Bytes) : Type 0 where
  pub body : Bytes
  pub spelled : t ≡ graphics_head ++ (body ++ b'>' ∷ [])
  pub lacks : Lacks b'>' body
  pub vnc : is_vnc t ≡ true

pub find_tag_step :
    (fuel off : ℕ) (before body after : Bytes)
    → index (before ++ (body ++ b'>' ∷ after)) graphics_head ≡ some (length before)
    → Lacks b'>' body
    → find_tag (suc fuel) off (before ++ (body ++ b'>' ∷ after)) ≡ (
        if is_vnc (body ++ b'>' ∷ [])
        then some (record {
          text = body ++ b'>' ∷ [];
          start = off + length before;
          stop = off + length before + length body + 1;
        })
        else find_tag fuel (off + length before + length body + 1) after)
unfolding find_tag
find_tag_step fuel off before body after h lacks = ground (
  arith,
  h,
  drop-append_length before (body ++ b'>' ∷ after),
  index_byte-append body after b'>' lacks,
  take_past body after b'>',
  drop_past body after b'>',
)

head-Lacks : Lacks b'>' graphics_head
head-Lacks = omega arith

spelled_found :
    (fuel off : ℕ) (before body after : Bytes)
    → Lacks b'>' body
    → is_vnc (graphics_head ++ (body ++ b'>' ∷ [])) ≡ true
    → ((x : Bytes) → index (before ++ (graphics_head ++ x)) graphics_head ≡ some (length before))
    → find_tag (suc fuel) off (before ++ ((graphics_head ++ (body ++ b'>' ∷ [])) ++ after))
      ≡ some (record {
        text = graphics_head ++ (body ++ b'>' ∷ []);
        start = off + length before;
        stop = off + length before + length (graphics_head ++ (body ++ b'>' ∷ []));
      })
spelled_found fuel off before body after lacks vnc heads =
    rw (append_assoc body (b'>' ∷ []) after) (
      find_tag_step fuel off before (graphics_head ++ body) after (heads (body ++ b'>' ∷ after))
        (All-append _ graphics_head body head-Lacks lacks)
      ∙ ground (arith, vnc, length-append {0} body (b'>' ∷ [])))

-- A VNC tag at the first "<graphics" is found.
pub find_tag_here :
    (fuel off : ℕ) (before t after : Bytes)
    → IsOpenTag t
    → ((x : Bytes) → index (before ++ (graphics_head ++ x)) graphics_head ≡ some (length before))
    → find_tag (suc fuel) off (before ++ (t ++ after))
      ≡ some
          (record { text = t; start = off + length before; stop = off + length before + length t })
find_tag_here fuel off before t after o heads =
    let vnc = subst (λ u. is_vnc u ≡ true) o.spelled o.vnc in
    rw o.spelled (spelled_found fuel off before o.body after o.lacks vnc heads)

-- One round of the search, as a split of the text that it reads.
pub record Round (rest : Bytes) : Type 0 where
  pub before : Bytes
  pub body : Bytes
  pub after : Bytes
  pub split : rest ≡ before ++ ((graphics_head ++ body) ++ b'>' ∷ after)
  pub lacks : Lacks b'>' (graphics_head ++ body)
  pub heads :
      (x : Bytes) → index (before ++ (graphics_head ++ x)) graphics_head ≡ some (length before)

-- From the first "<graphics", and the first '>' after it.
Round-split :
    (rest before after before' after' : Bytes)
    → rest ≡ before ++ (graphics_head ++ after)
    → graphics_head ++ after ≡ before' ++ b'>' ∷ after'
    → Lacks b'>' before'
    → index rest graphics_head ≡ some (length before)
    → Round rest
Round-split rest before after before' after' e e' lacks h =
    let (b, eb, ea) = append-Lacks graphics_head after before' after' b'>' head-Lacks e' in
    record {
      before = before;
      body = b;
      after = after';
      split = rw e (ap (λ t. before ++ t) (rw ea));
      lacks = subst (Lacks b'>') eb lacks;
      heads = λ x. index_first_stable before graphics_head after x (rw e at h);
    }

pub Round-of :
    (fuel off : ℕ) (rest : Bytes) {tag : Tag} → find_tag (suc fuel) off rest ≡ some tag → Round rest
unfolding find_tag
Round-of fuel off rest h = elim (Option-cases (index rest graphics_head)) [
  | inl e ↦ absurd (ground (arith, e))
  | inr (i, e) ↦
      let f = index-some rest graphics_head e in
      elim (Option-cases (index_byte (drop i rest) b'>')) [
        | inl e' ↦ absurd (ground (arith, e, e'))
        | inr (g, e') ↦
            let dropped : drop i rest ≡ graphics_head ++ f.after =
              rw (f.split, ← f.at) (drop-append_length f.before (graphics_head ++ f.after)) in
            let q = index_byte-some (drop i rest) b'>' e' in
            Round-split rest f.before f.after q.before q.after f.split (sym dropped ∙ q.split)
              q.lacks (rw f.at e)
      ]
]
