-- ===== src/Virsh/Hostdevs/Hex.antt =====
-- internal/virsh/virsh.go: the numbers that `parseHexU` reads.
use zvm_extra.Base.{
  ℕ, zero, suc, ◌+◌, ◌*◌, ◌^◌, ◌<◌, ◌≤◌, ◌≡◌, refl, ap, sym, ◌∙◌, false, [], ◌∷◌, ◌++◌, arith, All,
  All-map, ◌↔◌, length, ◌⊎◌,
}
use zvm_extra.Bytes.{Bytes, codes, to_lower, lower, trim_prefix, has_prefix, is_hex_digit, is_space}
use zvm_extra.Bytes.Trim.{trim_space_same}
use zvm_extra.Pci.Address.{HexDigit}
use zvm_extra.Virsh.Hostdevs.{hex_value, parse_digits, parse_hex_u}

-- Hexadecimal digits in lower case.
abbrev pub LowerDigit : ℕ → Type 0
LowerDigit c = ((b'0' ≤ c) × (c ≤ b'9')) ⊎ ((b'a' ≤ c) × (c ≤ b'f'))

pub lower-LowerDigit : (c : ℕ) → HexDigit c → LowerDigit (lower c)
unfolding lower
lower-LowerDigit c h = ground arith

pub to_lower-All : (s : Bytes) → All HexDigit s → All LowerDigit (to_lower s)
unfolding to_lower
to_lower-All [] h = tt
to_lower-All (c ∷ s) (hc, h) = (lower-LowerDigit c hc, to_lower-All s h)

parse_step :
    (n c : ℕ) (s : Bytes)
    → LowerDigit c
    → n < 2 ^ 60
    → parse_digits n (c ∷ s) ≡ parse_digits (n * 16 + hex_value c) s
unfolding parse_digits is_hex_digit
parse_step n c s h small = ground arith

hex_value_lt : (c : ℕ) → LowerDigit c → hex_value c < 16
unfolding hex_value
hex_value_lt c h = ground arith

hex_value_injective : (c d : ℕ) → LowerDigit c → LowerDigit d → hex_value c ≡ hex_value d → c ≡ d
unfolding hex_value
hex_value_injective c d hc hd e = ground arith

-- Numbers below `B` leave room for `k` digits more.
abbrev pub Room : ℕ → ℕ → Type 0
Room zero B = B ≤ 2 ^ 64
Room (suc k) B = Room k (B * 16)

Room-le : (k B : ℕ) → Room k B → B ≤ 2 ^ 64
Room-le zero B h = h
Room-le (suc k) B h = omega (arith, Room-le k (B * 16) h)

Room-small : (k : ℕ) → k ≤ 4 → Room k 1
Room-small zero h = omega arith
Room-small (suc zero) h = omega arith
Room-small (suc (suc zero)) h = omega arith
Room-small (suc (suc (suc zero))) h = omega arith
Room-small (suc (suc (suc (suc zero)))) h = omega arith
Room-small (suc (suc (suc (suc (suc k))))) h = absurd (omega arith)

-- Where the digits do not overflow, numbers of as many digits differ.
pub parse_digits_injective :
    (s t : Bytes) (n m B : ℕ)
    → All LowerDigit s
    → All LowerDigit t
    → length s ≡ length t
    → n < B
    → m < B
    → Room (length s) B
    → parse_digits n s ≡ parse_digits m t
    → (n ≡ m) × (s ≡ t)
parse_digits_injective [] [] n m B hs ht l ln lm room e = (unfold parse_digits in e, refl)
parse_digits_injective [] (d ∷ t) n m B hs ht l ln lm room e = absurd (omega arith)
parse_digits_injective (c ∷ s) [] n m B hs ht l ln lm room e = absurd (omega arith)
parse_digits_injective (c ∷ s) (d ∷ t) n m B (hc, hs) (hd, ht) l ln lm room e =
    let le = Room-le (length s) (B * 16) room in
    let vc = hex_value_lt c hc in
    let vd = hex_value_lt d hd in
    let e' = sym (parse_step n c s hc (omega arith)) ∙ e ∙ parse_step m d t hd (omega arith) in
    let (en, es) =
      parse_digits_injective s t (n * 16 + hex_value c) (m * 16 + hex_value d) (B * 16) hs ht
        (omega arith) (omega arith) (omega arith) room e' in
    (omega arith, cc (es, hex_value_injective c d hc hd (omega arith)))

lower-lower : (c : ℕ) → LowerDigit c → lower c ≡ c
unfolding lower
lower-lower c h = ground arith

to_lower_lower : (s : Bytes) → All LowerDigit s → to_lower s ≡ s
unfolding to_lower
to_lower_lower [] h = refl
to_lower_lower (c ∷ s) (hc, h) = rw (lower-lower c hc, to_lower_lower s h)

digit_solid : (c : ℕ) → HexDigit c → is_space c ≡ false
unfolding is_space
digit_solid c h = ground arith

lower_solid : (c : ℕ) → LowerDigit c → is_space c ≡ false
unfolding is_space
lower_solid c h = ground arith

length-to_lower : (s : Bytes) → length (to_lower s) ≡ length s
unfolding to_lower
length-to_lower [] = refl
length-to_lower (c ∷ s) = ap suc (length-to_lower s)

no_0x : (s : Bytes) → All LowerDigit s → trim_prefix s (codes "0x") ≡ s
unfolding trim_prefix has_prefix
no_0x [] h = refl
no_0x (c ∷ []) h = ground arith
no_0x (c ∷ d ∷ s) (hc, (hd, h)) = ground arith

skip_0x : (s : Bytes) → trim_prefix (codes "0x" ++ s) (codes "0x") ≡ s
unfolding trim_prefix has_prefix
skip_0x s = refl

-- The digits of an address, and those of the attribute that the program writes for it.
pub parse_hex_u-digits : (s : Bytes) → All HexDigit s → parse_hex_u s ≡ parse_digits 0 (to_lower s)
unfolding parse_hex_u
parse_hex_u-digits s h =
    rw (trim_space_same s (All-map digit_solid s h), no_0x (to_lower s) (to_lower-All s h))

lower_0x : (s : Bytes) → to_lower (codes "0x" ++ s) ≡ codes "0x" ++ to_lower s
unfolding to_lower lower
lower_0x s = refl

solid_0x : (s : Bytes) → All LowerDigit s → All (λ c. is_space c ≡ false) (codes "0x" ++ s)
unfolding is_space
solid_0x s h = (refl, (refl, All-map lower_solid s h))

pub parse_hex_u-attribute :
    (s : Bytes)
    → All HexDigit s
    → parse_hex_u (codes "0x" ++ to_lower s) ≡ parse_digits 0 (to_lower s)
unfolding parse_hex_u
parse_hex_u-attribute s h =
    let l = to_lower-All s h in
    ap (λ t. parse_digits 0 (trim_prefix (to_lower t) (codes "0x")))
      (trim_space_same (codes "0x" ++ to_lower s) (solid_0x (to_lower s) l))
    ∙ ap (λ t. parse_digits 0 (trim_prefix t (codes "0x"))) (lower_0x (to_lower s))
    ∙ ap (parse_digits 0) (skip_0x (to_lower (to_lower s)) ∙ to_lower_lower (to_lower s) l)

-- An attribute has the number of a part exactly if it is that part's, upper and lower case aside.
pub hex_equal_iff :
    (s t : Bytes)
    → All HexDigit s
    → All HexDigit t
    → length s ≡ length t
    → length s ≤ 4
    → (parse_hex_u (codes "0x" ++ to_lower t) ≡ parse_hex_u s) ↔ (to_lower s ≡ to_lower t)
hex_equal_iff s t hs ht l small =
    let es = parse_hex_u-digits s hs in
    let et = parse_hex_u-attribute t ht in
    (
      λ e.
          (parse_digits_injective (to_lower s) (to_lower t) 0 0 1 (to_lower-All s hs)
            (to_lower-All t ht) (length-to_lower s ∙ l ∙ sym (length-to_lower t)) (omega arith)
            (omega arith) (Room-small (length (to_lower s)) (omega (arith, length-to_lower s)))
            (sym es ∙ sym e ∙ et)).1,
      λ e. et ∙ ap (parse_digits 0) (sym e) ∙ sym es,
    )
