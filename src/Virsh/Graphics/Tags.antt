-- ===== src/Virsh/Graphics/Tags.antt =====
-- The tag that `vncOpenTag` finds, and the one that it finds in a document in which another tag
-- has been put in its place.
use zvm_extra.Base.{
  ℕ, zero, suc, ◌+◌, ◌<◌, ◌≡◌, refl, sym, ap, ◌∙◌, true, false, Option, none, some, [], ◌∷◌, ◌++◌,
  arith, take, drop, length-drop, All-append_right, subst, some_eq, length, Option-cases,
  Bool-cases, inl, inr, append_assoc, length-append, if◌then◌else◌,
}
use zvm_extra.Bytes.{Bytes, index, index_byte}
use zvm_extra.Bytes.Index.{index_byte-some}
use zvm_extra.Virsh.Graphics.{Tag, graphics_head, is_vnc, find_tag, vnc_open_tag}
use zvm_extra.Virsh.Graphics.Rounds.{IsOpenTag, Round, Round-of, find_tag_step, find_tag_here}

-- The tag that the search from `off` finds in `rest`, with what stands before and after it. Put
-- another VNC tag in its place, and the search finds that one.
record Located (fuel off : ℕ) (rest : Bytes) (tag : Tag) : Type 0 where
  pre : Bytes
  post : Bytes
  split : rest ≡ pre ++ (tag.text ++ post)
  start_at : tag.start ≡ off + length pre
  stop_at : tag.stop ≡ off + length pre + length tag.text
  opens : IsOpenTag tag.text
  relocate :
      (t after : Bytes)
      → IsOpenTag t
      → find_tag fuel off (pre ++ (t ++ after))
        ≡ some (record { text = t; start = off + length pre; stop = off + length pre + length t })

module _ (fuel off : ℕ) (rest : Bytes) (r : Round rest) where
  abbrev first_tag : Bytes
  first_tag = graphics_head ++ (r.body ++ b'>' ∷ [])

  -- The offset behind the tag.
  abbrev behind : ℕ
  behind = off + length r.before + length (graphics_head ++ r.body) + 1

  step_with :
      (x : Bytes)
      → find_tag (suc fuel) off (r.before ++ ((graphics_head ++ r.body) ++ b'>' ∷ x)) ≡ (
          if is_vnc first_tag
          then some (record { text = first_tag; start = off + length r.before; stop = behind })
          else find_tag fuel behind x)
  step_with x =
      find_tag_step fuel off r.before (graphics_head ++ r.body) x (r.heads (r.body ++ b'>' ∷ x))
        r.lacks

  step_here : find_tag (suc fuel) off rest ≡ (
      if is_vnc first_tag
      then some (record { text = first_tag; start = off + length r.before; stop = behind })
      else find_tag fuel behind r.after)
  step_here = rw r.split (step_with r.after)

  Located-here :
      {tag : Tag}
      → is_vnc first_tag ≡ true
      → find_tag (suc fuel) off rest ≡ some tag
      → Located (suc fuel) off rest tag
  Located-here {tag} vnc h =
      let tag' : Tag = record { text = first_tag; start = off + length r.before; stop = behind } in
      let same : some tag' ≡ some tag = sym (rw vnc at step_here) ∙ h in
      subst (λ t. Located (suc fuel) off rest t) (some_eq same)
        (record {
          pre = r.before;
          post = r.after;
          split = r.split ∙ rw (append_assoc r.body (b'>' ∷ []) r.after);
          start_at = refl;
          stop_at = omega (arith, length-append {0} r.body (b'>' ∷ []));
          opens = record {
            body = r.body;
            spelled = refl;
            lacks = All-append_right _ graphics_head r.body r.lacks;
            vnc = vnc;
          };
          relocate = λ t after o. find_tag_here fuel off r.before t after o r.heads;
        })

  -- What the round passes over.
  abbrev passed : Bytes → Bytes
  passed x = r.before ++ ((graphics_head ++ r.body) ++ b'>' ∷ x)

  passed-append : (x y : Bytes) → passed x ++ y ≡ passed (x ++ y)
  passed-append x y = simp append_assoc

  length-passed : (x : Bytes) → off + length (passed x) ≡ behind + length x
  length-passed x = omega (
    arith,
    length-append {0} r.before ((graphics_head ++ r.body) ++ b'>' ∷ x),
    length-append {0} r.body (b'>' ∷ x),
  )

  Located-later :
      {tag : Tag}
      → is_vnc first_tag ≡ false
      → Located fuel behind r.after tag
      → Located (suc fuel) off rest tag
  Located-later {tag} other l = record {
    pre = passed l.pre;
    post = l.post;
    split = r.split ∙ ap passed l.split ∙ sym (passed-append l.pre (tag.text ++ l.post));
    start_at = omega (arith, l.start_at, length-passed l.pre);
    stop_at = omega (arith, l.stop_at, length-passed l.pre);
    opens = l.opens;
    relocate = λ t after o.
        rw (passed-append l.pre (t ++ after), length-passed l.pre)
          (step_with (l.pre ++ (t ++ after)) ∙ rw other (l.relocate t after o));
  }

locate :
    (fuel off : ℕ) (rest : Bytes) {tag : Tag}
    → find_tag fuel off rest ≡ some tag
    → Located fuel off rest tag
locate zero off rest h = unfold find_tag in cc
locate (suc fuel) off rest {tag} h =
    let r = Round-of fuel off rest h in
    elim (Bool-cases (is_vnc (first_tag fuel off rest r))) [
      | inl vnc ↦ Located-here fuel off rest r vnc h
      | inr other ↦ Located-later fuel off rest r other (
          locate fuel (behind fuel off rest r) r.after
            (sym (rw other at (step_here fuel off rest r)) ∙ h))
    ]

after_lt : (rest : Bytes) (r : Round rest) → length r.after < length rest
after_lt rest r = omega (
  arith,
  ap length r.split,
  length-append {0} r.before ((graphics_head ++ r.body) ++ b'>' ∷ r.after),
  length-append {0} r.body (b'>' ∷ r.after),
)

-- A tag that some fuel finds is found with any fuel above the length of the text.
find_tag_more :
    (fuel more off : ℕ) (rest : Bytes) {tag : Tag}
    → find_tag fuel off rest ≡ some tag
    → length rest < more
    → find_tag more off rest ≡ some tag
find_tag_more zero more off rest h lt = unfold find_tag in cc
find_tag_more (suc fuel) zero off rest h lt = absurd (omega arith)
find_tag_more (suc fuel) (suc more) off rest h lt =
    let r = Round-of fuel off rest h in
    elim (Bool-cases (is_vnc (first_tag fuel off rest r))) [
      | inl vnc ↦
          step_here more off rest r ∙ rw vnc (sym (rw vnc at (step_here fuel off rest r)) ∙ h)
      | inr other ↦
          step_here more off rest r
          ∙ rw other (
              find_tag_more fuel more (behind fuel off rest r) r.after
                (sym (rw other at (step_here fuel off rest r)) ∙ h)
                (omega (arith, after_lt rest r)))
    ]

-- The loop of `vncOpenTag` without a bound on its rounds: from the offset `off`, with `rest` before it, it
-- comes to its end with the tag, or with none.
pub data Search : ℕ → Bytes → Option Tag → Type 0 where
  exhausted : (off : ℕ) (rest : Bytes) → index rest graphics_head ≡ none → Search off rest none
  unclosed :
      (off : ℕ) (rest : Bytes) (i : ℕ)
      → index rest graphics_head ≡ some i
      → index_byte (drop i rest) b'>' ≡ none
      → Search off rest none
  accepted :
      (off : ℕ) (rest : Bytes) (i gt : ℕ)
      → index rest graphics_head ≡ some i
      → index_byte (drop i rest) b'>' ≡ some gt
      → is_vnc (take (gt + 1) (drop i rest)) ≡ true
      → Search off rest (
          some (record {
            text = take (gt + 1) (drop i rest);
            start = off + i;
            stop = off + i + gt + 1;
          }))
  onward :
      (off : ℕ) (rest : Bytes) (i gt : ℕ) (r : Option Tag)
      → index rest graphics_head ≡ some i
      → index_byte (drop i rest) b'>' ≡ some gt
      → is_vnc (take (gt + 1) (drop i rest)) ≡ false
      → Search (off + i + gt + 1) (drop (gt + 1) (drop i rest)) r
      → Search off rest r

-- What is left behind a '>' is shorter.
left_lt :
    (rest : Bytes) (i gt : ℕ)
    → index_byte (drop i rest) b'>' ≡ some gt
    → length (drop (gt + 1) (drop i rest)) < length rest
left_lt rest i gt e =
    let q = index_byte-some (drop i rest) b'>' e in
    omega (
      arith,
      q.at,
      ap length q.split,
      length-append {0} q.before (b'>' ∷ q.after),
      length-drop (gt + 1) (drop i rest),
      length-drop i rest,
    )

searched :
    (fuel off : ℕ) (rest : Bytes) → length rest < fuel → Search off rest (find_tag fuel off rest)
unfolding find_tag
searched zero off rest lt = absurd (omega arith)
searched (suc fuel) off rest lt = elim (Option-cases (index rest graphics_head)) [
  | inl e ↦ subst (Search off rest) (ground (arith, e)) (Search.exhausted off rest e)
  | inr (i, e) ↦ elim (Option-cases (index_byte (drop i rest) b'>')) [
    | inl f ↦ subst (Search off rest) (ground (arith, e, f)) (Search.unclosed off rest i e f)
    | inr (gt, f) ↦ elim (Bool-cases (is_vnc (take (gt + 1) (drop i rest)))) [
      | inl vnc ↦
          subst (Search off rest) (ground (arith, e, f, vnc))
            (Search.accepted off rest i gt e f vnc)
      | inr other ↦
          let more =
            searched fuel (off + i + gt + 1) (drop (gt + 1) (drop i rest))
              (omega (arith, left_lt rest i gt f)) in
          subst (Search off rest) (ground (arith, e, f, other))
            (Search.onward off rest i gt _ e f other more)
    ]
  ]
]

-- The loop of `vncOpenTag`, which has no bound on its rounds, comes to its end on every document, with the
-- tag or none that the model gives; and any larger number of rounds gives the same.
pub vnc_open_tag_ends :
    (fuel : ℕ) (dom_xml : Bytes)
    → length dom_xml < fuel
    → Search 0 dom_xml (vnc_open_tag dom_xml) × (find_tag fuel 0 dom_xml ≡ vnc_open_tag dom_xml)
unfolding vnc_open_tag
vnc_open_tag_ends fuel dom_xml lt = (
  searched (suc (length dom_xml)) 0 dom_xml (omega arith),
  elim (Option-cases (find_tag fuel 0 dom_xml)) [
    | inr (tag, e) ↦ e ∙ sym (find_tag_more fuel (suc (length dom_xml)) 0 dom_xml e (omega arith))
    | inl e ↦ elim (Option-cases (find_tag (suc (length dom_xml)) 0 dom_xml)) [
      | inl e' ↦ e ∙ sym e'
      | inr (tag, e') ↦ find_tag_more (suc (length dom_xml)) fuel 0 dom_xml e' lt ∙ sym e'
    ]
  ],
)

-- The tag that `vncOpenTag` finds is where it says, opens a VNC console, and can be exchanged.
pub record TagAt (dom_xml : Bytes) (tag : Tag) : Type 0 where
  pub pre : Bytes
  pub post : Bytes
  pub split : dom_xml ≡ pre ++ (tag.text ++ post)
  pub start_at : tag.start ≡ length pre
  pub stop_at : tag.stop ≡ length pre + length tag.text
  pub opens : IsOpenTag tag.text
  pub relocate :
      (t after : Bytes)
      → IsOpenTag t
      → vnc_open_tag (pre ++ (t ++ after))
        ≡ some (record { text = t; start = length pre; stop = length pre + length t })

pub tag_at : (dom_xml : Bytes) {tag : Tag} → vnc_open_tag dom_xml ≡ some tag → TagAt dom_xml tag
unfolding vnc_open_tag
tag_at dom_xml h =
    let l = locate (suc (length dom_xml)) 0 dom_xml h in
    let zero_off : 0 + length l.pre ≡ length l.pre = omega arith in
    record {
      pre = l.pre;
      post = l.post;
      split = l.split;
      start_at = l.start_at ∙ zero_off;
      stop_at = omega (arith, l.stop_at);
      opens = l.opens;
      relocate = λ t after o.
          find_tag_more (suc (length dom_xml)) (suc (length (l.pre ++ (t ++ after)))) 0 _
            (rw zero_off at (l.relocate t after o)) (omega arith);
    }
