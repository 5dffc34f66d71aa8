-- ===== src/Virsh/TpmXml.antt =====
-- internal/virsh/tpm.go: the TPM device in the configuration of a domain, and its firmware.
pub mod Search
pub mod Edit
pub mod Restore
use zvm_extra.Base.{
  ℕ, zero, suc, ◌+◌, ◌-◌, Bool, true, false, not, Option, none, some, Result, ok, err, List, [],
  ◌∷◌, ◌++◌, ◌&&◌, ◌||◌, if◌then◌else◌, leb, ◌==◌, length, take, drop,
}
use zvm_extra.Bytes.{Bytes, codes, bytes_eq, has_prefix, index, index_byte, contains, trim_space}
use zvm_extra.Action.{Action, pure, asks, ◌>>=◌, ◌>>◌, finally}
use zvm_extra.Virsh.Graphics.{tag_attr}
use zvm_extra.Virsh.Tables.{is_blank}
use zvm_extra.Virsh.Commands.{Runner, state, command, write_temp_xml}

-- \w and \s of the regular expressions.
unfoldable pub is_word : ℕ → Bool
is_word c =
    (leb b'0' c && leb c b'9')
    || ((leb b'A' c && leb c b'Z') || ((leb b'a' c && leb c b'z') || c == b'_'))

unfoldable pub is_white : ℕ → Bool
is_white c = c == b'\t' || (c == b'\n' || (c == 12 || (c == b'\r' || c == b' ')))

-- The bytes of a class in front, and what follows them.
unfoldable pub span : (ℕ → Bool) → Bytes → Bytes × Bytes
span f [] = ([], [])
span f (c ∷ s) = let (a, b) = span f s in if f c then (c ∷ a, b) else ([], c ∷ s)

abbrev pub tpm_open : Bytes
tpm_open = codes "<tpm"

abbrev pub tpm_close : Bytes
tpm_close = codes "</tpm>"

-- \b behind a word.
unfoldable pub at_boundary : Bytes → Bool
at_boundary [] = true
at_boundary (c ∷ s) = not (is_word c)

unfoldable pub is_slash_at : Bytes → ℕ → Bool
is_slash_at [] i = false
is_slash_at (c ∷ s) zero = false
is_slash_at (c ∷ []) (suc i) = false
is_slash_at (c ∷ d ∷ s) (suc zero) = c == b'/'
is_slash_at (c ∷ s) (suc i) = is_slash_at s i

-- (?:[^>]*/>|.*?</tpm>) in what follows <tpm: how many bytes it takes. The first `>` ends the element
-- where a slash is before it; else the first </tpm> does.
unfoldable pub body_length : Bytes → Option ℕ
body_length s = elim (index_byte s b'>') [
  | none ↦ none
  | some i ↦
      if is_slash_at s i
      then some (i + 1)
      else elim (index s tpm_close) [ none ↦ none | some j ↦ some (j + length tpm_close) ]
]

-- A match in three parts: the blanks, the element, the white space behind it; and what follows.
pub record TpmMatch : Type 0 where
  pub blanks : Bytes
  pub element : Bytes
  pub white : Bytes
  pub after : Bytes

-- What stands behind <tpm, with the blanks before it.
unfoldable pub element_of : Bytes → Bytes → Option TpmMatch
element_of blanks s = elim (body_length s) [
  | none ↦ none
  | some n ↦ some (record {
    blanks = blanks;
    element = tpm_open ++ take n s;
    white = (span is_white (drop n s)).0;
    after = (span is_white (drop n s)).1;
  })
]

-- `tpmDeviceRe` at the beginning of a text.
unfoldable pub match_tpm : Bytes → Option TpmMatch
match_tpm s =
    let (blanks, rest) = span is_blank s in
    if has_prefix rest tpm_open && at_boundary (drop (length tpm_open) rest)
    then element_of blanks (drop (length tpm_open) rest)
    else none

-- The first match, with the text before it.
unfoldable pub find_tpm : Bytes → Option (Bytes × TpmMatch)
find_tpm [] = none
find_tpm (c ∷ s) =
    let rest = find_tpm s in
    elim (match_tpm (c ∷ s)) [
      | some m ↦ some ([], m)
      | none ↦ elim rest [ none ↦ none | some (before, m) ↦ some (c ∷ before, m) ]
    ]

-- ReplaceAllString with the empty text.
unfoldable pub remove_tpm : ℕ → Bytes → Bytes
remove_tpm zero s = s
remove_tpm (suc fuel) s = elim (find_tpm s) [
  | none ↦ s
  | some (before, m) ↦ before ++ remove_tpm fuel m.after
]

pub record TpmInfo : Type 0 where
  pub present : Bool
  pub model : Bytes
  pub version : Bytes

-- The tag that a text begins with, up to the first `>`.
unfoldable pub first_tag : Bytes → Bytes
first_tag m = elim (index_byte m b'>') [ none ↦ m | some i ↦ take (i + 1) m ]

backend_version : Bytes → Bytes
backend_version m = elim (index m (codes "<backend")) [
  | none ↦ []
  | some i ↦ elim (index_byte (drop i m) b'>') [
    | none ↦ []
    | some j ↦ tag_attr (take (j + 1) (drop i m)) (codes "version")
  ]
]

unfoldable pub tpm_info_xml : Bytes → TpmInfo
unfolding first_tag backend_version
tpm_info_xml dom_xml = elim (find_tpm dom_xml) [
  | none ↦ record { present = false; model = []; version = [] }
  | some (before, m) ↦
      let text = m.blanks ++ (m.element ++ m.white) in
      record {
        present = true;
        model = tag_attr (first_tag text) (codes "model");
        version = backend_version text;
      }
]

-- strings.LastIndex
unfoldable pub last_text : Bytes → Bytes → Option ℕ
last_text [] p = if has_prefix [] p then some 0 else none
last_text (c ∷ s) p = elim (last_text s p) [
  | some i ↦ some (suc i)
  | none ↦ if has_prefix (c ∷ s) p then some 0 else none
]

abbrev pub tpm_device : Bytes
tpm_device =
    codes "    <tpm model='tpm-crb'>\n      <backend type='emulator' version='2.0'/>\n    </tpm>\n"

abbrev pub devices_close : Bytes
devices_close = codes "</devices>"

unfoldable pub set_tpm_xml : Bytes → Bool → Result Bytes
set_tpm_xml dom_xml enabled = elim enabled [
  | true ↦ elim ((tpm_info_xml dom_xml).present) [
    | true ↦ ok dom_xml
    | false ↦ elim (last_text dom_xml devices_close) [
      | none ↦ err (codes "domain XML has no <devices> section")
      | some i ↦ ok (take i dom_xml ++ (tpm_device ++ drop i dom_xml))
    ]
  ]
  | false ↦ elim ((tpm_info_xml dom_xml).present) [
    | true ↦ ok (remove_tpm (length dom_xml) dom_xml)
    | false ↦ ok dom_xml
  ]
]

pub record Firmware : Type 0 where
  pub loader : Bytes
  pub secure_boot : Bool
  pub enrolled_keys : Bool

-- \s+ : what follows one white byte or more.
some_white : Bytes → Option Bytes
some_white [] = none
some_white (c ∷ s) = if is_white c then some (span is_white s).1 else none

-- What follows a text that has to be there.
unfoldable pub after_text : Bytes → Bytes → Option Bytes
after_text p s = if has_prefix s p then some (drop (length p) s) else none

is_feature_byte : ℕ → Bool
is_feature_byte c = (leb b'a' c && leb c b'z') || c == b'-'

-- '\s*/>' closes the element whose name was read.
close_feature : Bool → Bytes → Bytes → Option (Bool × Bytes)
close_feature enabled name s = elim (after_text (codes "'") s) [
  | none ↦ none
  | some t ↦
      if bytes_eq name [] || not (has_prefix (span is_white t).1 (codes "/>"))
      then none
      else some (enabled, name)
]

feature_name : Bool → Bytes → Option (Bool × Bytes)
unfolding close_feature is_feature_byte some_white
feature_name enabled s = elim (some_white s) [
  | none ↦ none
  | some t ↦ elim (after_text (codes "name='") t) [
    | none ↦ none
    | some u ↦ close_feature enabled (span is_feature_byte u).0 (span is_feature_byte u).1
  ]
]

-- The two groups of `firmwareFeatureRe` at the beginning of a text.
unfoldable pub match_feature : Bytes → Option (Bool × Bytes)
unfolding feature_name some_white
match_feature s = elim (after_text (codes "<feature") s) [
  | none ↦ none
  | some t ↦ elim (some_white t) [
    | none ↦ none
    | some u ↦ elim (after_text (codes "enabled='yes'") u) [
      | some v ↦ feature_name true v
      | none ↦ elim (after_text (codes "enabled='no'") u) [
        | none ↦ none
        | some v ↦ feature_name false v
      ]
    ]
  ]
]

set_feature : Firmware → Bool × Bytes → Firmware
set_feature fw (enabled, name) =
    if bytes_eq name (codes "secure-boot")
    then record fw { secure_boot = enabled }
    else if bytes_eq name (codes "enrolled-keys")
    then record fw { enrolled_keys = enabled }
    else fw

-- All matches in turn: a match has one `<`, so that none begins inside another.
unfoldable pub features : Firmware → Bytes → Firmware
unfolding set_feature
features fw [] = fw
features fw (c ∷ s) = elim (match_feature (c ∷ s)) [
  | none ↦ features fw s
  | some m ↦ features (set_feature fw m) s
]

-- The text of the element <loader>.
unfoldable pub loader_of : Bytes → Option Bytes
loader_of out = elim (index out (codes "<loader")) [
  | none ↦ none
  | some i ↦ elim (index (drop i out) (codes "</loader>")) [
    | none ↦ none
    | some j ↦ elim (index_byte (take j (drop i out)) b'>') [
      | none ↦ none
      | some k ↦ some (trim_space (drop (k + 1) (take j (drop i out))))
    ]
  ]
]

unfoldable pub firmware_of : Bytes → Firmware
firmware_of out =
    let fw = features (record { loader = []; secure_boot = false; enrolled_keys = false }) out in
    elim (loader_of out) [
      | none ↦ fw
      | some path ↦ record {
        loader = path;
        secure_boot = fw.secure_boot || contains path (codes "secure-code");
        enrolled_keys = fw.enrolled_keys;
      }
    ]

module _ {W : Type 0} (virsh : Runner W) where
  -- dumpxml --inactive --security-info
  unfoldable pub secret_xml : Bytes → Action W Bytes
  secret_xml domain =
      virsh.run (codes "dumpxml" ∷ codes "--inactive" ∷ codes "--security-info" ∷ domain ∷ [])

  unfoldable pub tpm_info : Bytes → Action W TpmInfo
  tpm_info domain = do out ← secret_xml domain; pure (tpm_info_xml out)

  -- Whether the domain runs, and whether its running instance has a TPM.
  unfoldable pub tpm_live_info : Bytes → Action W (Bool × Bool)
  tpm_live_info domain = do
    st ← state virsh domain
    if not (bytes_eq st (codes "running")) then pure (false, false) else (do
      out ← virsh.run (codes "dumpxml" ∷ codes "--security-info" ∷ domain ∷ [])
      pure (true, (tpm_info_xml out).present))

  unfoldable pub set_tpm : Bytes → Bool → Action W (Unit {0})
  set_tpm domain enabled = do
    out ← secret_xml domain
    modified ← asks (λ _. set_tpm_xml out enabled)
    tmp ← write_temp_xml virsh modified
    finally (command virsh (codes "define" ∷ tmp ∷ [])) (virsh.remove_temp tmp)

  unfoldable pub firmware_info : Bytes → Action W Firmware
  firmware_info domain = do out ← secret_xml domain; pure (firmware_of out)
