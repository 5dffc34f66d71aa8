-- ===== src/Examples/Hosts.antt =====
-- A host on which every domain runs and every call succeeds, and files that are written at once.
use zvm_extra.Base.{
  ◌≡◌, Bool, true, false, ◌&&◌, none, Result, ok, err, List, [], ◌∷◌, arith, ℕ, if◌then◌else◌,
}
use zvm_extra.Bytes.{Bytes, codes, bytes_eq}
use zvm_extra.Bytes.Laws.{bytes_eq_refl}
use zvm_extra.FileStore.{Codec, Disk, SaveCalls}
use zvm_extra.FileStore.Reload.{ReadsBack}

-- The devices that are attached: the domain and the XML.
abbrev pub Attached : Type 0
Attached = List (Bytes × Bytes)

unfoldable pub has : Bytes → Bytes → Attached → Bool
has vm xml [] = false
has vm xml ((dom, x) ∷ w) =
    let rest = has vm xml w in if bytes_eq dom vm && bytes_eq x xml then true else rest

pub has-same : (vm xml : Bytes) (w : Attached) → has vm xml ((vm, xml) ∷ w) ≡ true
unfolding has
has-same vm xml w = ground (arith, bytes_eq_refl vm, bytes_eq_refl xml)

pub Has-more :
    (vm xml dom x : Bytes) (w : Attached) → has vm xml w ≡ true → has vm xml ((dom, x) ∷ w) ≡ true
unfolding has
Has-more vm xml dom x w h = ground (arith, h)

abbrev pub running : Result Bytes
running = ok (codes "running")

abbrev pub all_well : SaveCalls
all_well = record { mkdir = ok tt; write = ok tt; left = none; rename = ok tt }

abbrev pub no_files : Disk
no_files = record { file = none; tmp = none }

-- The text `text` stands for the array `arr`, and no other text is read.
abbrev pub codec_of : {E : Type 0} → Bytes → List E → Codec E
codec_of text arr = record {
  encode = λ _. ok text;
  decode = λ b. if bytes_eq b text then ok arr else err (codes "invalid character");
}

pub codec_of-ReadsBack :
    {E : Type 0} (c : ℕ) (text : Bytes) (arr : List E) → ReadsBack (codec_of (c ∷ text) arr) arr
codec_of-ReadsBack c text arr b e =
    (ground (arith, e, bytes_eq_refl (c ∷ text)), λ h. ground (arith, e, h))
