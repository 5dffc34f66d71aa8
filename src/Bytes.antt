-- ===== src/Bytes.antt =====
-- Go's strings as lists of bytes, with the operations of package `strings` that the program uses.
-- Case folding and white space are those of ASCII.
pub mod Laws
pub mod Cuts
pub mod Index
pub mod Trim
pub mod Contains
pub mod Splits
use Prim.Native.Char.{code}
use zvm_extra.Base.{
  ℕ, zero, suc, ◌+◌, ◌-◌, String, Bool, true, false, ◌&&◌, ◌||◌, Option, none, some, List, [], ◌∷◌,
  ◌++◌, reverse, leb, ◌==◌, if◌then◌else◌, length, take, drop,
}

abbrev pub Bytes : Type 0
Bytes = List ℕ

-- The code points of a literal, which are its bytes where the text is ASCII.
abbrev pub codes : String → Bytes
codes String.[] = []
codes (String.◌∷◌ c s) = code c ∷ codes s

unfoldable pub bytes_eq : Bytes → Bytes → Bool
bytes_eq [] [] = true
bytes_eq [] (y ∷ ys) = false
bytes_eq (x ∷ xs) [] = false
bytes_eq (x ∷ xs) (y ∷ ys) = if x == y then bytes_eq xs ys else false

-- strings.HasPrefix(s, p)
unfoldable pub has_prefix : Bytes → Bytes → Bool
has_prefix s [] = true
has_prefix [] (y ∷ p) = false
has_prefix (x ∷ s) (y ∷ p) = if x == y then has_prefix s p else false

-- strings.TrimPrefix
unfoldable pub trim_prefix : Bytes → Bytes → Bytes
unfolding has_prefix
trim_prefix s p = if has_prefix s p then drop (length p) s else s

-- s[a:b]
unfoldable pub slice : Bytes → ℕ → ℕ → Bytes
slice s a b = take (b - a) (drop a s)

-- strings.HasSuffix
unfoldable pub has_suffix : Bytes → Bytes → Bool
unfolding has_prefix
has_suffix s p = has_prefix (reverse s) (reverse p)

-- strings.TrimSuffix
unfoldable pub trim_suffix : Bytes → Bytes → Bytes
unfolding has_suffix
trim_suffix s p = if has_suffix s p then take (length s - length p) s else s

-- strings.Index: the first position at which `p` stands, `none` for -1.
unfoldable pub index : Bytes → Bytes → Option ℕ
unfolding has_prefix
index [] p = if has_prefix [] p then some 0 else none
index (x ∷ s) p =
    let rest = index s p in
    if has_prefix (x ∷ s) p then some 0 else elim rest [ none ↦ none | some i ↦ some (suc i) ]

-- strings.IndexByte
unfoldable pub index_byte : Bytes → ℕ → Option ℕ
index_byte [] c = none
index_byte (x ∷ s) c =
    let rest = index_byte s c in
    if x == c then some 0 else elim rest [ none ↦ none | some i ↦ some (suc i) ]

-- strings.LastIndex of a text of one byte.
unfoldable pub last_index : Bytes → ℕ → Option ℕ
last_index [] c = none
last_index (x ∷ s) c = elim (last_index s c) [
  | some i ↦ some (suc i)
  | none ↦ if x == c then some 0 else none
]

-- strings.Contains
unfoldable pub contains : Bytes → Bytes → Bool
unfolding index
contains s p = elim (index s p) [ none ↦ false | some i ↦ true ]

-- strings.Cut(s, sep) for a separator of one byte: `none` if it does not occur.
unfoldable pub cut : Bytes → ℕ → Option (Bytes × Bytes)
cut [] c = none
cut (x ∷ s) c =
    let rest = cut s c in
    if x == c then some ([], s) else elim rest [ none ↦ none | some (a, b) ↦ some (x ∷ a, b) ]

unfoldable pub is_space : ℕ → Bool
is_space c = (leb 9 c && leb c 13) || c == 32

pub trim_left : Bytes → Bytes
trim_left [] = []
trim_left (x ∷ s) = if is_space x then trim_left s else x ∷ s

pub trim_right : Bytes → Bytes
trim_right [] = []
trim_right (x ∷ s) = elim (trim_right s) [
  | [] ↦ if is_space x then [] else x ∷ []
  | y ∷ r ↦ x ∷ y ∷ r
]

-- strings.TrimSpace
unfoldable pub trim_space : Bytes → Bytes
unfolding trim_left trim_right is_space
trim_space s = trim_left (trim_right s)

unfoldable pub lower : ℕ → ℕ
lower c = if leb b'A' c && leb c b'Z' then c + 32 else c

-- strings.ToLower
unfoldable pub to_lower : Bytes → Bytes
unfolding lower
to_lower [] = []
to_lower (c ∷ s) = lower c ∷ to_lower s

-- strings.Split at one byte.
unfoldable pub split : Bytes → ℕ → List Bytes
split [] sep = [] ∷ []
split (c ∷ s) sep = elim (split s sep) [
  | [] ↦ []
  | p ∷ ps ↦ if c == sep then [] ∷ p ∷ ps else (c ∷ p) ∷ ps
]

-- The bytes up to the next white space, and the rest.
unfoldable pub word : Bytes → Bytes × Bytes
word [] = ([], [])
word (c ∷ s) = let (w, r) = word s in if is_space c then ([], c ∷ s) else (c ∷ w, r)

-- strings.Fields: `open_word` says whether the byte before belongs to a field.
unfoldable pub fields_from : Bytes → Bool → List Bytes
fields_from [] open_word = []
fields_from (c ∷ s) open_word =
    let (w, r) = word s in
    let next = fields_from s (if is_space c then false else true) in
    if is_space c then next else if open_word then next else (c ∷ w) ∷ next

unfoldable pub fields : Bytes → List Bytes
unfolding fields_from word is_space
fields s = fields_from s false

-- strings.Join
unfoldable pub join : List Bytes → Bytes → Bytes
join [] sep = []
join (p ∷ ps) sep = elim ps [ [] ↦ p | q ∷ qs ↦ p ++ sep ++ join ps sep ]

-- A digit of a hexadecimal number.
unfoldable pub is_hex_digit : ℕ → Bool
is_hex_digit c =
    (leb b'0' c && leb c b'9') || (leb b'a' c && leb c b'f') || (leb b'A' c && leb c b'F')

unfoldable pub all_bytes : (ℕ → Bool) → Bytes → Bool
all_bytes f [] = true
all_bytes f (c ∷ s) = if f c then all_bytes f s else false
