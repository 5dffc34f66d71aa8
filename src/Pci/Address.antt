-- ===== src/Pci/Address.antt =====
-- What `ValidAddress` accepts.
use zvm_extra.Base.{
  ℕ, ◌≡◌, ◌≢◌, true, ok, some, [], ◌∷◌, ◌++◌, arith, length, Option-cases, inl, inr, All, ◌↔◌, ◌⊎◌,
  ◌≤◌, ◌<◌, All-map, refl,
}
use zvm_extra.Bytes.{Bytes, cut, is_hex_digit, bytes_eq}
use zvm_extra.Bytes.Cuts.{Lacks, cut-append, cut-some, all_bytes-All, All-all_bytes}
use zvm_extra.Pci.{valid_address, address_parts, hostdev_xml, is_hex, is_function, address_xml}

-- What the cuts of a valid address are.
record Cuts (s : Bytes) : Type 0 where
  dom : Bytes
  rest : Bytes
  bus : Bytes
  sf : Bytes
  slot : Bytes
  fn : Bytes
  first : cut s b':' ≡ some (dom, rest)
  second : cut rest b':' ≡ some (bus, sf)
  third : cut sf b'.' ≡ some (slot, fn)
  dom_length : length dom ≡ 4
  dom_hex : is_hex dom ≡ true
  bus_length : length bus ≡ 2
  bus_hex : is_hex bus ≡ true
  slot_length : length slot ≡ 2
  slot_hex : is_hex slot ≡ true
  fn_valid : is_function fn ≡ true

Cuts-of : (s : Bytes) → valid_address s ≡ true → Cuts s
unfolding valid_address
Cuts-of s h = elim (Option-cases (cut s b':')) [
  | inl e ↦ absurd (ground (arith, e))
  | inr ((dom, rest), e1) ↦ elim (Option-cases (cut rest b':')) [
    | inl e ↦ absurd (ground (arith, e, e1))
    | inr ((bus, sf), e2) ↦ elim (Option-cases (cut sf b'.')) [
      | inl e ↦ absurd (ground (arith, e, e1, e2))
      | inr ((slot, fn), e3) ↦ record {
        dom = dom;
        rest = rest;
        bus = bus;
        sf = sf;
        slot = slot;
        fn = fn;
        first = e1;
        second = e2;
        third = e3;
        dom_length = ground (arith, e1, e2, e3);
        dom_hex = ground (arith, e1, e2, e3);
        bus_length = ground (arith, e1, e2, e3);
        bus_hex = ground (arith, e1, e2, e3);
        slot_length = ground (arith, e1, e2, e3);
        slot_hex = ground (arith, e1, e2, e3);
        fn_valid = ground (arith, e1, e2, e3);
      }
    ]
  ]
]

-- The element of an accepted address.
pub hostdev_xml_total :
    (s : Bytes) → valid_address s ≡ true → (xml : Bytes) × (hostdev_xml s ≡ ok xml)
unfolding hostdev_xml address_parts
hostdev_xml_total s h =
    let c = Cuts-of s h in
    (address_xml c.dom c.bus c.slot c.fn, ground (arith, c.first, c.second, c.third))

abbrev pub HexDigit : ℕ → Type 0
HexDigit c = ((b'0' ≤ c) × (c ≤ b'9')) ⊎ (((b'a' ≤ c) × (c ≤ b'f')) ⊎ ((b'A' ≤ c) × (c ≤ b'F')))

-- dddd:bb:ss.f with hexadecimal digits, and an octal digit f.
pub record IsAddress (s : Bytes) : Type 0 where
  pub dom : Bytes
  pub bus : Bytes
  pub slot : Bytes
  pub fn : ℕ
  pub spelled : s ≡ dom ++ b':' ∷ (bus ++ b':' ∷ (slot ++ b'.' ∷ fn ∷ []))
  pub dom_length : length dom ≡ 4
  pub bus_length : length bus ≡ 2
  pub slot_length : length slot ≡ 2
  pub digits : All HexDigit dom × All HexDigit bus × All HexDigit slot
  pub fn_range : (b'0' ≤ fn) × (fn ≤ b'7')

HexDigit-of : (c : ℕ) → is_hex_digit c ≡ true → HexDigit c
unfolding is_hex_digit
HexDigit-of c h = ground arith

of_HexDigit : (c : ℕ) → HexDigit c → is_hex_digit c ≡ true
unfolding is_hex_digit
of_HexDigit c h = ground arith

HexDigit-ne : (c : ℕ) → HexDigit c → (c ≢ b':') × (c ≢ b'.')
HexDigit-ne c h = (omega arith, omega arith)

digits_of_hex : (s : Bytes) → is_hex s ≡ true → All HexDigit s
unfolding is_hex
digits_of_hex s h = All-map HexDigit-of s (all_bytes-All is_hex_digit s (ground arith))

hex_of_digits : (s : Bytes) → 0 < length s → All HexDigit s → is_hex s ≡ true
unfolding is_hex bytes_eq
hex_of_digits [] pos h = absurd (omega arith)
hex_of_digits (c ∷ s) pos h =
    rw (All-all_bytes is_hex_digit (c ∷ s) (All-map of_HexDigit (c ∷ s) h))

function_of : (s : Bytes) → is_function s ≡ true → (c : ℕ) × (s ≡ c ∷ []) × (b'0' ≤ c) × (c ≤ b'7')
unfolding is_function
function_of [] h = absurd (ground arith)
function_of (c ∷ []) h = (c, refl, ground arith, ground arith)
function_of (c ∷ d ∷ s) h = absurd (ground arith)

IsAddress-of : (s : Bytes) → valid_address s ≡ true → IsAddress s
IsAddress-of s h =
    let c = Cuts-of s h in
    let (f, ef, lo, hi) = function_of c.fn c.fn_valid in
    let (e1, _) = cut-some s b':' c.first in
    let (e2, _) = cut-some c.rest b':' c.second in
    let (e3, _) = cut-some c.sf b'.' c.third in
    record {
      dom = c.dom;
      bus = c.bus;
      slot = c.slot;
      fn = f;
      spelled = cc (e1, e2, e3, ef);
      dom_length = c.dom_length;
      bus_length = c.bus_length;
      slot_length = c.slot_length;
      digits = (
        digits_of_hex c.dom c.dom_hex,
        digits_of_hex c.bus c.bus_hex,
        digits_of_hex c.slot c.slot_hex,
      );
      fn_range = (lo, hi);
    }

Lacks-colon : (s : Bytes) → All HexDigit s → Lacks b':' s
Lacks-colon s = All-map (λ c h. (HexDigit-ne c h).0) s

Lacks-dot : (s : Bytes) → All HexDigit s → Lacks b'.' s
Lacks-dot s = All-map (λ c h. (HexDigit-ne c h).1) s

module _ (s : Bytes) (a : IsAddress s) where
  abbrev rest : Bytes
  rest = a.bus ++ b':' ∷ (a.slot ++ b'.' ∷ a.fn ∷ [])

  cut_dom : cut s b':' ≡ some (a.dom, rest)
  cut_dom = rw a.spelled (cut-append a.dom rest b':' (Lacks-colon a.dom a.digits.0))

  cut_bus : cut rest b':' ≡ some (a.bus, a.slot ++ b'.' ∷ a.fn ∷ [])
  cut_bus = cut-append a.bus _ b':' (Lacks-colon a.bus a.digits.1)

  cut_slot : cut (a.slot ++ b'.' ∷ a.fn ∷ []) b'.' ≡ some (a.slot, a.fn ∷ [])
  cut_slot = cut-append a.slot _ b'.' (Lacks-dot a.slot a.digits.2)

  valid_of : valid_address s ≡ true
  unfolding valid_address
  valid_of = ground (
    arith,
    cut_dom,
    cut_bus,
    cut_slot,
    hex_of_digits a.dom (omega arith) a.digits.0,
    hex_of_digits a.bus (omega arith) a.digits.1,
    hex_of_digits a.slot (omega arith) a.digits.2,
  )

-- `ValidAddress` accepts exactly the texts of the form dddd:bb:ss.f, and `HostdevXML` returns a text
-- for each of them.
pub valid_address_iff :
    (s : Bytes)
    → (valid_address s ≡ true) ↔ (IsAddress s × ((xml : Bytes) × (hostdev_xml s ≡ ok xml)))
valid_address_iff s = ((λ h. (IsAddress-of s h, hostdev_xml_total s h)), λ a. valid_of s a.0)

-- The parts of a valid address.
pub parts_of :
    (s : Bytes) (a : IsAddress s) → address_parts s ≡ some (a.dom, a.bus, a.slot, a.fn ∷ [])
unfolding address_parts
parts_of s a = ground (arith, cut_dom s a, cut_bus s a, cut_slot s a)
