-- ===== src/Virsh/Hostdevs/Parts.antt =====
-- internal/virsh/virsh.go: addresses by their parts, upper and lower case aside.
use zvm_extra.Base.{
  ℕ, ◌≤◌, ◌≡◌, ◌≢◌, refl, ap, sym, ◌∙◌, ◌↔◌, Bool, true, false, [], ◌∷◌, ◌++◌, ◌&&◌, arith, All,
  All-map, length, ◌==◌, ==_iff, inl,
}
use zvm_extra.Bytes.{Bytes, codes, bytes_eq, to_lower, lower}
use zvm_extra.Bytes.Laws.{bytes_eq_iff, bytes_eq_refl}
use zvm_extra.Bytes.Cuts.{Lacks, first_sep_injective}
use zvm_extra.Pci.Address.{HexDigit, IsAddress}
use zvm_extra.Virsh.Hostdevs.{parse_hex_u}
use zvm_extra.Virsh.Hostdevs.Hex.{LowerDigit, to_lower-All, hex_equal_iff}

Bool_iff : (a b : Bool) → ((a ≡ true) ↔ (b ≡ true)) → a ≡ b
Bool_iff true true h = refl
Bool_iff true false h = cc (h.0 refl)
Bool_iff false true h = cc (h.1 refl)
Bool_iff false false h = refl

-- One part of an address.
pub part_eq :
    (s t : Bytes)
    → All HexDigit s
    → All HexDigit t
    → length s ≡ length t
    → length s ≤ 4
    → (parse_hex_u (codes "0x" ++ to_lower t) == parse_hex_u s) ≡ bytes_eq (to_lower t) (to_lower s)
part_eq s t hs ht l small =
    let h = hex_equal_iff s t hs ht l small in
    Bool_iff _ _ (
      λ e. (bytes_eq_iff (to_lower t) (to_lower s)).1 (sym (h.0 ((==_iff _ _).0 e))),
      λ e. (==_iff _ _).1 (h.1 (sym ((bytes_eq_iff (to_lower t) (to_lower s)).0 e))),
    )

pub fn_digit : (f : ℕ) → (b'0' ≤ f) × (f ≤ b'7') → All HexDigit (f ∷ [])
fn_digit f h = (inl (omega arith, omega arith), tt)

to_lower-append :
    (a b : Bytes) (c : ℕ) → lower c ≡ c → to_lower (a ++ c ∷ b) ≡ to_lower a ++ c ∷ to_lower b
unfolding to_lower
to_lower-append [] b c h = ap (λ x. x ∷ to_lower b) h
to_lower-append (x ∷ a) b c h = ap (λ t. lower x ∷ t) (to_lower-append a b c h)

plain_colon : lower b':' ≡ b':'
unfolding lower
plain_colon = refl

plain_dot : lower b'.' ≡ b'.'
unfolding lower
plain_dot = refl

-- An address from the lower case of its parts.
abbrev joined : Bytes → Bytes → Bytes → Bytes → Bytes
joined d b s f = d ++ b':' ∷ (b ++ b':' ∷ (s ++ b'.' ∷ f))

lowered :
    (s : Bytes) (a : IsAddress s)
    → to_lower s ≡ joined (to_lower a.dom) (to_lower a.bus) (to_lower a.slot) (to_lower (a.fn ∷ []))
lowered s a =
    ap to_lower a.spelled
    ∙ to_lower-append a.dom (a.bus ++ b':' ∷ (a.slot ++ b'.' ∷ a.fn ∷ [])) b':' plain_colon
    ∙ ap (λ r. to_lower a.dom ++ b':' ∷ r)
        (to_lower-append a.bus (a.slot ++ b'.' ∷ a.fn ∷ []) b':' plain_colon
          ∙ ap (λ r. to_lower a.bus ++ b':' ∷ r)
              (to_lower-append a.slot (a.fn ∷ []) b'.' plain_dot))

lower_no_colon : (c : ℕ) → LowerDigit c → c ≢ b':'
lower_no_colon c d = omega arith

lower_no_dot : (c : ℕ) → LowerDigit c → c ≢ b'.'
lower_no_dot c d = omega arith

no_colon : (s : Bytes) → All HexDigit s → Lacks b':' (to_lower s)
no_colon s h = All-map (λ c d. lower_no_colon c d) (to_lower s) (to_lower-All s h)

no_dot : (s : Bytes) → All HexDigit s → Lacks b'.' (to_lower s)
no_dot s h = All-map (λ c d. lower_no_dot c d) (to_lower s) (to_lower-All s h)

-- Addresses are equal, case aside, if and only if their parts are.
record SameParts (s t : Bytes) (a : IsAddress s) (b : IsAddress t) : Type 0 where
  dom : to_lower a.dom ≡ to_lower b.dom
  bus : to_lower a.bus ≡ to_lower b.bus
  slot : to_lower a.slot ≡ to_lower b.slot
  fn : to_lower (a.fn ∷ []) ≡ to_lower (b.fn ∷ [])

same_parts :
    (s t : Bytes) (a : IsAddress s) (b : IsAddress t) → to_lower s ≡ to_lower t → SameParts s t a b
same_parts s t a b e =
    let e1 = sym (lowered s a) ∙ e ∙ lowered t b in
    let (dom, e2) =
      first_sep_injective _ _ _ _ b':' (no_colon a.dom a.digits.0) (no_colon b.dom b.digits.0) e1 in
    let (bus, e3) =
      first_sep_injective _ _ _ _ b':' (no_colon a.bus a.digits.1) (no_colon b.bus b.digits.1) e2 in
    let (slot, fn) =
      first_sep_injective _ _ _ _ b'.' (no_dot a.slot a.digits.2) (no_dot b.slot b.digits.2) e3 in
    record { dom = dom; bus = bus; slot = slot; fn = fn }

parts_same :
    (s t : Bytes) (a : IsAddress s) (b : IsAddress t) → SameParts s t a b → to_lower s ≡ to_lower t
parts_same s t a b h = cc (lowered s a, lowered t b, h.dom, h.bus, h.slot, h.fn)

-- The test on an attached device, by its four parts.
pub four_tests :
    (s t : Bytes) (a : IsAddress s) (b : IsAddress t)
    → (bytes_eq (to_lower b.dom) (to_lower a.dom) && bytes_eq (to_lower b.bus) (to_lower a.bus))
        && (bytes_eq (to_lower b.slot) (to_lower a.slot)
            && bytes_eq (to_lower (b.fn ∷ [])) (to_lower (a.fn ∷ [])))
      ≡ bytes_eq (to_lower t) (to_lower s)
four_tests s t a b = Bool_iff _ _ (
  λ e. (bytes_eq_iff (to_lower t) (to_lower s)).1 (
      parts_same t s b a (record {
        dom = (bytes_eq_iff _ _).0 (ground arith);
        bus = (bytes_eq_iff _ _).0 (ground arith);
        slot = (bytes_eq_iff _ _).0 (ground arith);
        fn = (bytes_eq_iff _ _).0 (ground arith);
      })),
  λ e.
      let h = same_parts t s b a ((bytes_eq_iff (to_lower t) (to_lower s)).0 e) in
      rw (h.dom, h.bus, h.slot, h.fn)
        (ground (
          arith,
          bytes_eq_refl (to_lower a.dom),
          bytes_eq_refl (to_lower a.bus),
          bytes_eq_refl (to_lower a.slot),
          bytes_eq_refl (to_lower (a.fn ∷ [])),
        )),
)
