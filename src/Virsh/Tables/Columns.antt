-- ===== src/Virsh/Tables/Columns.antt =====
-- A row of columns with two blanks or more behind each is read back as these columns.
use zvm_extra.Base.{
  ℕ, zero, suc, ◌≤◌, ◌≡◌, refl, ap, ◌∙◌, ◌⊎◌, inl, inr, false, List, [], ◌∷◌, ◌++◌, arith, All, map,
  append_assoc, append-nil,
}
use zvm_extra.Bytes.{Bytes, bytes_eq, trim_space}
use zvm_extra.Virsh.Tables.{is_blank, split_from, split_columns}

-- `k` blanks are behind the column so far. Blanks stand alone, and the last byte is no blank.
abbrev pub IsSpaced : ℕ → Bytes → Type 0
IsSpaced k [] = k ≡ 0
IsSpaced k (c ∷ s) = ((is_blank c ≡ false) × IsSpaced 0 s) ⊎ ((c ≡ b' ') × (k ≡ 0) × IsSpaced 1 s)

-- A text that can be read back: it begins with no blank, and is as trimming leaves it.
pub record IsColumn (s : Bytes) : Type 0 where
  pub first : ℕ
  pub rest : Bytes
  pub spelled : s ≡ first ∷ rest
  pub first_solid : is_blank first ≡ false
  pub spaced : IsSpaced 0 rest
  pub trimmed : trim_space s ≡ s

abbrev pub spaces : ℕ → Bytes
spaces zero = []
spaces (suc n) = b' ' ∷ spaces n

-- Each column with the number of blanks beyond the two behind it, the last with the number of all the
-- blanks behind it.
unfoldable pub print : List (ℕ × Bytes) → Bytes
print [] = []
print ((n, c) ∷ []) = c ++ spaces n
print ((n, c) ∷ d ∷ cols) = c ++ b' ' ∷ b' ' ∷ (spaces n ++ print (d ∷ cols))

abbrev pub texts : List (ℕ × Bytes) → List Bytes
texts [] = []
texts ((n, c) ∷ cols) = c ∷ texts cols

-- The blank that waits.
abbrev pending : ℕ → Bytes
pending zero = []
pending (suc k) = b' ' ∷ []

solid :
    (c : ℕ) (s cur : Bytes) (x : ℕ) (k : ℕ)
    → is_blank c ≡ false
    → k ≤ 1
    → split_from (c ∷ s) (x ∷ cur) k ≡ split_from s ((x ∷ cur) ++ (pending k ++ c ∷ [])) 0
unfolding split_from bytes_eq
solid c s cur x zero b h = ground (arith, b)
solid c s cur x (suc k) b h = ground (arith, b)

one_blank : (s cur : Bytes) (x : ℕ) → split_from (b' ' ∷ s) (x ∷ cur) 0 ≡ split_from s (x ∷ cur) 1
unfolding split_from bytes_eq
one_blank s cur x = refl

two_blanks :
    (s cur : Bytes) (x : ℕ)
    → split_from (b' ' ∷ b' ' ∷ s) (x ∷ cur) 0 ≡ (x ∷ cur) ∷ split_from s [] 2
unfolding split_from bytes_eq
two_blanks s cur x = refl

last_end : (x : ℕ) (cur : Bytes) (k : ℕ) → split_from [] (x ∷ cur) k ≡ (x ∷ cur) ∷ []
unfolding split_from
last_end x cur k = refl

regroup : (cur p t : Bytes) (c : ℕ) → (cur ++ (p ++ c ∷ [])) ++ t ≡ cur ++ (p ++ c ∷ t)
regroup cur p t c =
    append_assoc cur (p ++ c ∷ []) t ∙ ap (λ r. cur ++ r) (append_assoc p (c ∷ []) t)

column_read :
    (t cur : Bytes) (x k : ℕ) (s : Bytes)
    → k ≤ 1
    → IsSpaced k t
    → split_from (t ++ b' ' ∷ b' ' ∷ s) (x ∷ cur) k
      ≡ ((x ∷ cur) ++ (pending k ++ t)) ∷ split_from s [] 2
column_read [] cur x k s h sp = rw sp (rw (append-nil (x ∷ cur)) (two_blanks s cur x))
column_read (c ∷ t) cur x k s h (inl (b, sp)) =
    solid c (t ++ b' ' ∷ b' ' ∷ s) cur x k b h
    ∙ column_read t (cur ++ (pending k ++ c ∷ [])) x 0 s (omega arith) sp
    ∙ ap (λ r. (x ∷ r) ∷ split_from s [] 2) (regroup cur (pending k) t c)
column_read (c ∷ t) cur x k s h (inr (e, z, sp)) =
    rw (e, z) (one_blank (t ++ b' ' ∷ b' ' ∷ s) cur x ∙ column_read t cur x 1 s (omega arith) sp)

skip_space : (s : Bytes) (k : ℕ) → split_from (b' ' ∷ s) [] k ≡ split_from s [] (suc k)
unfolding split_from bytes_eq
skip_space s k = ground arith

-- Before a column, blanks are passed over.
skip_spaces :
    (n : ℕ) (s : Bytes) (r : List Bytes)
    → ((k : ℕ) → split_from s [] k ≡ r)
    → (k : ℕ) → split_from (spaces n ++ s) [] k ≡ r
skip_spaces zero s r h k = h k
skip_spaces (suc n) s r h k = skip_space (spaces n ++ s) k ∙ skip_spaces n s r h (suc k)

first_byte :
    (c : ℕ) (s : Bytes) (k : ℕ)
    → is_blank c ≡ false
    → split_from (c ∷ s) [] k ≡ split_from s (c ∷ []) 0
unfolding split_from bytes_eq
first_byte c s k b = ground (arith, b)

split_end : (k : ℕ) → split_from [] [] k ≡ []
unfolding split_from
split_end k = refl

only_spaces : (n k : ℕ) → split_from (spaces n) [] k ≡ []
only_spaces zero k = split_end k
only_spaces (suc n) k = skip_space (spaces n) k ∙ only_spaces n (suc k)

-- Blanks behind the last column.
last_spaces : (n x : ℕ) (cur : Bytes) → split_from (spaces n) (x ∷ cur) 0 ≡ (x ∷ cur) ∷ []
last_spaces zero x cur = last_end x cur 0
last_spaces (suc zero) x cur = one_blank [] cur x ∙ last_end x cur 1
last_spaces (suc (suc n)) x cur =
    two_blanks (spaces n) cur x ∙ ap (λ r. (x ∷ cur) ∷ r) (only_spaces n 2)

-- A column at the end of the line.
last_read :
    (n : ℕ) (t cur : Bytes) (x k : ℕ)
    → k ≤ 1
    → IsSpaced k t
    → split_from (t ++ spaces n) (x ∷ cur) k ≡ ((x ∷ cur) ++ (pending k ++ t)) ∷ []
last_read n [] cur x k h sp = rw sp (rw (append-nil (x ∷ cur)) (last_spaces n x cur))
last_read n (c ∷ t) cur x k h (inl (b, sp)) =
    solid c (t ++ spaces n) cur x k b h
    ∙ last_read n t (cur ++ (pending k ++ c ∷ [])) x 0 (omega arith) sp
    ∙ ap (λ r. (x ∷ r) ∷ []) (regroup cur (pending k) t c)
last_read n (c ∷ t) cur x k h (inr (e, z, sp)) =
    rw (e, z) (one_blank (t ++ spaces n) cur x ∙ last_read n t cur x 1 (omega arith) sp)

abbrev pub AllColumns : List (ℕ × Bytes) → Type 0
AllColumns cols = All (λ col. IsColumn col.1) cols

split_print :
    (cols : List (ℕ × Bytes))
    → AllColumns cols
    → (k : ℕ) → split_from (print cols) [] k ≡ texts cols
unfolding print
split_print [] h k = split_end k
split_print ((n, c) ∷ []) (hc, h) k =
    let first = hc.first in
    let rest = hc.rest in
    rw hc.spelled (
      first_byte first (rest ++ spaces n) k hc.first_solid
      ∙ last_read n rest [] first 0 (omega arith) hc.spaced)
split_print ((n, c) ∷ d ∷ cols) (hc, h) k =
    let first = hc.first in
    let rest = hc.rest in
    let tail = b' ' ∷ b' ' ∷ (spaces n ++ print (d ∷ cols)) in
    rw hc.spelled (
      first_byte first (rest ++ tail) k hc.first_solid
      ∙ column_read rest [] first 0 (spaces n ++ print (d ∷ cols)) (omega arith) hc.spaced
      ∙ ap (λ r. (first ∷ rest) ∷ r)
          (skip_spaces n (print (d ∷ cols)) (texts (d ∷ cols)) (split_print (d ∷ cols) h) 2))

trim_texts : (cols : List (ℕ × Bytes)) → AllColumns cols → map trim_space (texts cols) ≡ texts cols
trim_texts [] h = refl
trim_texts ((n, c) ∷ cols) (hc, h) = rw (hc.trimmed, trim_texts cols h)

-- A row of columns is read back, with any number of blanks before the first.
pub split_columns-print :
    (lead : ℕ) (cols : List (ℕ × Bytes))
    → AllColumns cols
    → split_columns (spaces lead ++ print cols) ≡ texts cols
unfolding split_columns
split_columns-print lead cols h =
    rw (skip_spaces lead (print cols) (texts cols) (split_print cols h) 0) (trim_texts cols h)
