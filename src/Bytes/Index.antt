-- ===== src/Bytes/Index.antt =====
-- Laws of the searches for a text and for a byte.
use zvm_extra.Base.{
  ℕ, suc, ◌+◌, ◌≤◌, ◌≡◌, ◌≢◌, refl, ap, sym, append_assoc, length-append, ◌∙◌, ℕ_discrete, true,
  false, none, some, [], ◌∷◌, ◌++◌, arith, length, take, drop, take-append_length,
  drop-append_length, Option-cases, Bool-cases, inl, inr,
}
use zvm_extra.Bytes.{Bytes, has_prefix, index, index_byte, contains}
use zvm_extra.Bytes.Cuts.{Lacks}

-- A prefix is decided by as many bytes as it has.
pub has_prefix-append :
    (u a p : Bytes) → length p ≤ length u → has_prefix (u ++ a) p ≡ has_prefix u p
unfolding has_prefix
has_prefix-append u a [] h = refl
has_prefix-append [] a (y ∷ p) h = absurd (omega arith)
has_prefix-append (x ∷ u) a (y ∷ p) h = ground (arith, has_prefix-append u a p (omega arith))

pub has_prefix-split : (s p : Bytes) → has_prefix s p ≡ true → s ≡ p ++ drop (length p) s
unfolding has_prefix
has_prefix-split s [] h = refl
has_prefix-split [] (y ∷ p) h = cc
has_prefix-split (x ∷ s) (y ∷ p) h = ground (arith, has_prefix-split s p)

pub has_prefix_self : (p a : Bytes) → has_prefix (p ++ a) p ≡ true
unfolding has_prefix
has_prefix_self [] a = refl
has_prefix_self (x ∷ p) a = ground (arith, has_prefix_self p a)

index_here : (s p : Bytes) → has_prefix s p ≡ true → index s p ≡ some 0
unfolding index
index_here [] p h = rw h
index_here (x ∷ s) p h = rw h

index_later :
    (x : ℕ) (s p : Bytes) {i : ℕ}
    → has_prefix (x ∷ s) p ≡ false
    → index (x ∷ s) p ≡ some i
    → (j : ℕ) × (i ≡ suc j) × (index s p ≡ some j)
unfolding index
index_later x s p miss h = elim (Option-cases (index s p)) [
  | inl e ↦ absurd (ground (arith, e, miss))
  | inr (j, e) ↦ (j, ground (arith, e, miss), e)
]

index_first :
    (x : ℕ) (s p : Bytes) {i : ℕ} → has_prefix (x ∷ s) p ≡ true → index (x ∷ s) p ≡ some i → i ≡ 0
unfolding index
index_first x s p hit h = ground (arith, hit)

index-cons :
    (x : ℕ) (s p : Bytes) (j : ℕ)
    → has_prefix (x ∷ s) p ≡ false
    → index s p ≡ some j
    → index (x ∷ s) p ≡ some (suc j)
unfolding index
index-cons x s p j miss h = rw (miss, h)

-- What follows the first occurrence does not matter.
pub index_stable :
    (u a b p : Bytes) {i : ℕ}
    → index (u ++ a) p ≡ some i
    → i + length p ≤ length u
    → index (u ++ b) p ≡ some i
index_stable [] a b [] {i = i} h le =
    let e : i ≡ 0 = omega arith in rw e (index_here b [] (unfold has_prefix in refl))
index_stable [] a b (y ∷ p) h le = absurd (omega arith)
index_stable (x ∷ u) a b p {i = i} h le = elim (Bool-cases (has_prefix (x ∷ (u ++ a)) p)) [
  | inl hit ↦
      let e = index_first x (u ++ a) p hit h in
      let fits : length p ≤ length (x ∷ u) = omega arith in
      rw e (
        index_here (x ∷ (u ++ b)) p
          (has_prefix-append (x ∷ u) b p fits ∙ sym (has_prefix-append (x ∷ u) a p fits) ∙ hit))
  | inr miss ↦
      let (j, e, later) = index_later x (u ++ a) p miss h in
      let fits : length p ≤ length (x ∷ u) = omega arith in
      rw e (
        index-cons x (u ++ b) p j
          (has_prefix-append (x ∷ u) b p fits ∙ sym (has_prefix-append (x ∷ u) a p fits) ∙ miss)
          (index_stable u a b p later (omega arith)))
]

-- The first occurrence of `p`, at position `i`.
pub record FirstText (s p : Bytes) (i : ℕ) : Type 0 where
  pub before : Bytes
  pub after : Bytes
  pub split : s ≡ before ++ (p ++ after)
  pub at : length before ≡ i

FirstText-here : (s p : Bytes) {i : ℕ} → has_prefix s p ≡ true → i ≡ 0 → FirstText s p i
FirstText-here s p hit e = record {
  before = [];
  after = drop (length p) s;
  split = has_prefix-split s p hit;
  at = sym e;
}

index-nil : (p : Bytes) {i : ℕ} → index [] p ≡ some i → (has_prefix [] p ≡ true) × (i ≡ 0)
unfolding index
index-nil p h = (ground arith, ground arith)

pub index-some : (s p : Bytes) {i : ℕ} → index s p ≡ some i → FirstText s p i
index-some [] p h = let (hit, e) = index-nil p h in FirstText-here [] p hit e
index-some (x ∷ s) p {i = i} h = elim (Bool-cases (has_prefix (x ∷ s) p)) [
  | inl hit ↦ FirstText-here (x ∷ s) p hit (index_first x s p hit h)
  | inr miss ↦
      let (j, e, later) = index_later x s p miss h in
      let r = index-some s p later in
      record {
        before = x ∷ r.before;
        after = r.after;
        split = ap (λ t. x ∷ t) r.split;
        at = ap suc r.at ∙ sym e;
      }
]

-- Whatever follows it, a text stands first where it stood first.
pub index_first_stable :
    (before p a b : Bytes)
    → index (before ++ (p ++ a)) p ≡ some (length before)
    → index (before ++ (p ++ b)) p ≡ some (length before)
index_first_stable before p a b h = rw (← append_assoc before p b) (
    index_stable (before ++ p) a b p (rw (append_assoc before p a) h)
      (omega (arith, length-append before p)))

index_byte_later :
    (x : ℕ) (s : Bytes) (c : ℕ) {i : ℕ}
    → x ≢ c
    → index_byte (x ∷ s) c ≡ some i
    → (j : ℕ) × (i ≡ suc j) × (index_byte s c ≡ some j)
unfolding index_byte
index_byte_later x s c miss h = elim (Option-cases (index_byte s c)) [
  | inl e ↦ absurd (ground (arith, e))
  | inr (j, e) ↦ (j, ground (arith, e), e)
]

index_byte_first :
    (x : ℕ) (s : Bytes) (c : ℕ) {i : ℕ} → x ≡ c → index_byte (x ∷ s) c ≡ some i → i ≡ 0
unfolding index_byte
index_byte_first x s c hit h = ground arith

-- The first `c` of a text: no `c` before it.
pub record FirstByte (s : Bytes) (c i : ℕ) : Type 0 where
  pub before : Bytes
  pub after : Bytes
  pub split : s ≡ before ++ c ∷ after
  pub lacks : Lacks c before
  pub at : length before ≡ i

pub index_byte-some : (s : Bytes) (c : ℕ) {i : ℕ} → index_byte s c ≡ some i → FirstByte s c i
index_byte-some [] c h = unfold index_byte in absurd (ground (arith, h))
index_byte-some (x ∷ s) c {i = i} h = elim (ℕ_discrete x c) [
  | yes e ↦ record {
    before = [];
    after = s;
    split = ap (λ y. y ∷ s) e;
    lacks = tt;
    at = sym (index_byte_first x s c e h);
  }
  | no ne ↦
      let (j, e, later) = index_byte_later x s c ne h in
      let r = index_byte-some s c later in
      record {
        before = x ∷ r.before;
        after = r.after;
        split = ap (λ t. x ∷ t) r.split;
        lacks = (ne, r.lacks);
        at = ap suc r.at ∙ sym e;
      }
]

pub index_byte-append :
    (u a : Bytes) (c : ℕ) → Lacks c u → index_byte (u ++ c ∷ a) c ≡ some (length u)
unfolding index_byte
index_byte-append [] a c h = ground arith
index_byte-append (x ∷ u) a c (hx, h) = ground (arith, index_byte-append u a c h)

-- A text without `c` at the front of another ends before the other's first `c`.
pub append-Lacks :
    (p a u v : Bytes) (c : ℕ)
    → Lacks c p
    → p ++ a ≡ u ++ c ∷ v
    → (b : Bytes) × (u ≡ p ++ b) × (a ≡ b ++ c ∷ v)
append-Lacks [] a u v c h e = (u, refl, e)
append-Lacks (x ∷ p) a [] v c (hx, h) e = absurd (hx (cc e))
append-Lacks (x ∷ p) a (y ∷ u) v c (hx, h) e =
    let (b, eu, ea) = append-Lacks p a u v c h (cc e) in (b, cc (e, eu), ea)

pub take_past : (u a : Bytes) (c : ℕ) → take (length u + 1) (u ++ c ∷ a) ≡ u ++ c ∷ []
take_past [] a c = refl
take_past (x ∷ u) a c =
    let e : suc (length u) + 1 ≡ suc (length u + 1) = omega arith in
    rw e (ap (λ t. x ∷ t) (take_past u a c))

pub drop_past : (u a : Bytes) (c : ℕ) → drop (length u + 1) (u ++ c ∷ a) ≡ a
drop_past [] a c = refl
drop_past (x ∷ u) a c =
    let e : suc (length u) + 1 ≡ suc (length u + 1) = omega arith in rw e (drop_past u a c)

index-append-ne-none : (before p after : Bytes) → index (before ++ (p ++ after)) p ≢ none
unfolding index
index-append-ne-none [] [] [] h = unfold has_prefix in cc
index-append-ne-none [] [] (x ∷ after) h = unfold has_prefix in cc
index-append-ne-none [] (y ∷ p) after h = ground (arith, has_prefix_self (y ∷ p) after)
index-append-ne-none (x ∷ before) p after h = ground (arith, index-append-ne-none before p after)

pub contains-append : (before p after : Bytes) → contains (before ++ (p ++ after)) p ≡ true
unfolding contains
contains-append before p after = elim (Option-cases (index (before ++ (p ++ after)) p)) [
  | inl e ↦ absurd (index-append-ne-none before p after e)
  | inr (i, e) ↦ rw (e, contains)
]

-- Where a text occurs.
pub record Occurs (s p : Bytes) : Type 0 where
  pub before : Bytes
  pub after : Bytes
  pub split : s ≡ before ++ (p ++ after)

pub contains-Occurs : (s p : Bytes) → contains s p ≡ true → Occurs s p
unfolding contains
contains-Occurs s p h = elim (Option-cases (index s p)) [
  | inl e ↦ absurd (ground (arith, e))
  | inr (i, e) ↦
      let f = index-some s p e in record { before = f.before; after = f.after; split = f.split }
]

pub drop_at : (n : ℕ) (u a : Bytes) → n ≡ length u → drop n (u ++ a) ≡ a
drop_at n u a e = rw e (drop-append_length u a)

pub take_at : (n : ℕ) (u a : Bytes) → n ≡ length u → take n (u ++ a) ≡ u
take_at n u a e = rw e (take-append_length u a)

append_ne_nil : (u w : Bytes) (q : ℕ) → u ++ q ∷ w ≢ []
append_ne_nil [] w q e = cc
append_ne_nil (x ∷ u) w q e = cc

-- A text whose last byte is `c` and that holds another byte `q` ends in `c` behind it.
pub snoc_split :
    (body u w : Bytes) (c q : ℕ)
    → q ≢ c
    → body ++ c ∷ [] ≡ u ++ q ∷ w
    → (w' : Bytes) × (w ≡ w' ++ c ∷ []) × (body ≡ u ++ q ∷ w')
snoc_split [] [] w c q ne e = absurd (ne (cc e))
snoc_split (x ∷ body) [] w c q ne e = (body, cc e, cc e)
snoc_split [] (x ∷ u) w c q ne e = absurd (append_ne_nil u w q (cc e))
snoc_split (x ∷ body) (y ∷ u) w c q ne e =
    let (w', ew, eb) = snoc_split body u w c q ne (cc e) in (w', ew, cc (e, eb))
