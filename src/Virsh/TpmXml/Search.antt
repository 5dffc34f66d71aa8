-- ===== src/Virsh/TpmXml/Search.antt =====
-- internal/virsh/tpm.go: where the regular expression of the TPM matches.
use zvm_extra.Base.{
  ◌≡◌, refl, ap, ◌∙◌, inl, inr, Bool, true, false, Option, some, none, [], ◌∷◌, ◌++◌, ◌&&◌,
  if◌then◌else◌, ℕ, All, arith, drop, Bool-cases, Option-cases,
}
use zvm_extra.Bytes.{Bytes, codes, has_prefix, contains, index_byte, index, all_bytes}
use zvm_extra.Bytes.Contains.{contains_tail, has_prefix_broken}
use zvm_extra.Bytes.Cuts.{Lacks, all_bytes-All}
use zvm_extra.Virsh.Tables.{is_blank}
use zvm_extra.Virsh.TpmXml.{
  TpmMatch, element_of, match_tpm, find_tpm, tpm_open, tpm_device, span, at_boundary, body_length,
  is_slash_at, is_word, is_white,
}

pub find_here :
    (c : ℕ) (s : Bytes) {m : TpmMatch}
    → match_tpm (c ∷ s) ≡ some m
    → find_tpm (c ∷ s) ≡ some ([], m)
unfolding find_tpm
find_here c s e = ground (arith, e)

pub find_later :
    (c : ℕ) (s b : Bytes) {m : TpmMatch}
    → match_tpm (c ∷ s) ≡ none
    → find_tpm s ≡ some (b, m)
    → find_tpm (c ∷ s) ≡ some (c ∷ b, m)
unfolding find_tpm
find_later c s b e f = ground (arith, e, f)

-- Where the regular expression matches in a text, the search finds a match.
abbrev pub Found : Bytes → Type 0
Found s = (b : Bytes) × (m : TpmMatch) × (find_tpm s ≡ some (b, m))

Found-later : (c : ℕ) (s : Bytes) → Found s → Found (c ∷ s)
Found-later c s (b, m, e) = elim (Option-cases (match_tpm (c ∷ s))) [
  | inl none_here ↦ (c ∷ b, m, find_later c s b none_here e)
  | inr (here, h) ↦ ([], here, find_here c s h)
]

pub Found-behind : (b s : Bytes) → Found s → Found (b ++ s)
Found-behind [] s h = h
Found-behind (c ∷ b) s h = Found-later c (b ++ s) (Found-behind b s h)

pub device_match :
    (a : Bytes)
    → match_tpm (tpm_device ++ a)
      ≡ some (record {
        blanks = codes "    ";
        element =
            codes
              "<tpm model='tpm-crb'>\n      <backend type='emulator' version='2.0'/>\n    </tpm>";
        white = b'\n' ∷ (span is_white a).0;
        after = (span is_white a).1;
      })
unfolding match_tpm has_prefix at_boundary body_length is_slash_at is_word is_white index index_byte
    span element_of
device_match a = refl

-- Blanks alone.
abbrev pub Blanks : Bytes → Type 0
Blanks w = All (λ c. is_blank c ≡ true) w

span_cons :
    (f : ℕ → Bool) (c : ℕ) (s : Bytes)
    → f c ≡ true
    → span f (c ∷ s) ≡ (c ∷ (span f s).0, (span f s).1)
unfolding span
span_cons f c s h = rw h refl

span_stop : (f : ℕ → Bool) (c : ℕ) (s : Bytes) → f c ≡ false → span f (c ∷ s) ≡ ([], c ∷ s)
unfolding span
span_stop f c s h = rw h refl

span_suffix : (f : ℕ → Bool) (s p : Bytes) → contains s p ≡ false → contains (span f s).1 p ≡ false
span_suffix f [] p h = unfold span in h
span_suffix f (c ∷ s) p h = elim (Bool-cases (f c)) [
  | inl e ↦ rw (span_cons f c s e) (span_suffix f s p (contains_tail c s p h))
  | inr e ↦ rw (span_stop f c s e) h
]

pub match_none : (s : Bytes) → has_prefix (span is_blank s).1 tpm_open ≡ false → match_tpm s ≡ none
unfolding match_tpm
match_none s h = ground (arith, h)

-- Without the text "<tpm" nothing is found.
no_prefix : (s p : Bytes) → contains s p ≡ false → has_prefix s p ≡ false
unfolding contains index
no_prefix [] p h = ground arith
no_prefix (x ∷ s) p h = ground arith

find_cons_none :
    (c : ℕ) (s : Bytes) → match_tpm (c ∷ s) ≡ none → find_tpm s ≡ none → find_tpm (c ∷ s) ≡ none
unfolding find_tpm
find_cons_none c s e f = ground (arith, e, f)

pub find_none : (s : Bytes) → contains s tpm_open ≡ false → find_tpm s ≡ none
find_none [] h = unfold find_tpm in refl
find_none (c ∷ s) h =
    find_cons_none c s
      (match_none (c ∷ s)
        (no_prefix (span is_blank (c ∷ s)).1 tpm_open (span_suffix is_blank (c ∷ s) tpm_open h)))
      (find_none s (contains_tail c s tpm_open h))

all_tail :
    (f : ℕ → Bool) (c : ℕ) (s : Bytes)
    → f c ≡ true
    → all_bytes f (c ∷ s) ≡ false
    → all_bytes f s ≡ false
unfolding all_bytes
all_tail f c s e h = ground (arith, e)

longer : ℕ → Option TpmMatch → Option TpmMatch
longer c none = none
longer c (some m) = some (record m { blanks = c ∷ m.blanks })

element_longer : (c : ℕ) (w s : Bytes) → element_of (c ∷ w) s ≡ longer c (element_of w s)
unfolding element_of longer
element_longer c w s = elim (Option-cases (body_length s)) [
  | inl e ↦ ground (arith, e)
  | inr (n, e) ↦ ground (arith, e)
]

longer_if :
    (c : ℕ) (b : Bool) (o p : Option TpmMatch)
    → o ≡ longer c p
    → (if b then o else none) ≡ longer c (if b then p else none)
unfolding longer
longer_if c true o p e = e
longer_if c false o p e = refl

match_longer : (c : ℕ) (s : Bytes) → is_blank c ≡ true → match_tpm (c ∷ s) ≡ longer c (match_tpm s)
unfolding match_tpm longer
match_longer c s h = rw (span_cons is_blank c s h) (
    longer_if c
      (has_prefix (span is_blank s).1 tpm_open && at_boundary (drop 4 (span is_blank s).1)) _ _
      (element_longer c (span is_blank s).0 (drop 4 (span is_blank s).1)))

match_cons :
    (c : ℕ) (s : Bytes) {m : TpmMatch}
    → is_blank c ≡ true
    → match_tpm s ≡ some m
    → match_tpm (c ∷ s) ≡ some (record m { blanks = c ∷ m.blanks })
unfolding longer
match_cons c s h e = match_longer c s h ∙ ap (longer c) e

-- Blanks before a match belong to it.
match_blanks :
    (w s : Bytes) {m : TpmMatch}
    → Blanks w
    → match_tpm s ≡ some m
    → match_tpm (w ++ s) ≡ some (record m { blanks = w ++ m.blanks })
match_blanks [] s h e = e
match_blanks (c ∷ w) s (hc, h) e = match_cons c (w ++ s) hc (match_blanks w s h e)

no_lt : Lacks b' ' tpm_open
no_lt = (λ e. cc, (λ e. cc, (λ e. cc, (λ e. cc, tt))))

-- Where a byte that is no blank comes first, a match can only begin at it.
broken :
    (b s : Bytes)
    → all_bytes is_blank b ≡ false
    → contains b tpm_open ≡ false
    → has_prefix (span is_blank (b ++ b' ' ∷ s)).1 tpm_open ≡ false
broken [] s n h = unfold all_bytes in cc
broken (c ∷ b) s n h = elim (Bool-cases (is_blank c)) [
  | inl e ↦
      rw (span_cons is_blank c (b ++ b' ' ∷ s) e)
        (broken b s (all_tail is_blank c b e n) (contains_tail c b tpm_open h))
  | inr e ↦
      rw (span_stop is_blank c (b ++ b' ' ∷ s) e)
        (has_prefix_broken (c ∷ b) s tpm_open b' ' no_lt (no_prefix (c ∷ b) tpm_open h))
]

-- The text before the inserted device: blanks that the match takes, and what stands before them.
pub record Before (b s : Bytes) (m : TpmMatch) : Type 0 where
  pub kept : Bytes
  pub indent : Bytes
  pub spelled : b ≡ kept ++ indent
  pub blank : Blanks indent
  pub found : find_tpm (b ++ s) ≡ some (kept, record m { blanks = indent ++ m.blanks })

pub find_behind :
    (b s : Bytes) {m : TpmMatch}
    → contains b tpm_open ≡ false
    → match_tpm (b' ' ∷ s) ≡ some m
    → Before b (b' ' ∷ s) m
find_behind [] s h e = record {
  kept = [];
  indent = [];
  spelled = refl;
  blank = tt;
  found = find_here b' ' s e;
}
find_behind (c ∷ b) s {m} h e = elim (Bool-cases (all_bytes is_blank (c ∷ b))) [
  | inl all ↦
      let w = all_bytes-All is_blank (c ∷ b) all in
      record {
        kept = [];
        indent = c ∷ b;
        spelled = refl;
        blank = w;
        found = find_here c (b ++ b' ' ∷ s) (match_blanks (c ∷ b) (b' ' ∷ s) w e);
      }
  | inr some_other ↦
      let r = find_behind b s (contains_tail c b tpm_open h) e in
      record {
        kept = c ∷ r.kept;
        indent = r.indent;
        spelled = ap (λ t. c ∷ t) r.spelled;
        blank = r.blank;
        found =
            find_later c (b ++ b' ' ∷ s) r.kept
              (match_none (c ∷ (b ++ b' ' ∷ s)) (broken (c ∷ b) s some_other h)) r.found;
      }
]
