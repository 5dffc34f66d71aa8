-- ===== src/Handlers/Server.antt =====
-- internal/handlers/handlers.go: the state of the server, and what its handlers share. Routing by the
-- first part of the path and the JSON of bodies and answers are left out: a request holds its
-- method, its path and what its body decodes to, and an answer holds its code and what is encoded.
use zvm_extra.Base.{
  ℕ, ◌≡◌, Bool, true, false, not, Result, ok, err, List, [], ◌∷◌, ◌++◌, ◌||◌, if◌then◌else◌,
}
use zvm_extra.Bytes.{Bytes, codes, bytes_eq, has_prefix, contains, split, trim_prefix, trim_suffix}
use zvm_extra.Action.{Action}
use zvm_extra.FileStore.{Codec, SaveCalls, Store}
use zvm_extra.Paths.{is_abs, clean}
use zvm_extra.Autostart
use zvm_extra.Mounts
use zvm_extra.Mounts.Commands
use zvm_extra.Usb.Store as UsbStore
use zvm_extra.Pci.Store as PciStore
use zvm_extra.Schedule
use zvm_extra.Backup
use zvm_extra.Vnc.Store as VncStore
use zvm_extra.Tpm
use zvm_extra.Settings
use zvm_extra.Virsh.Client.{Virsh}
use zvm_extra.Virsh.Commands.{Runner}
use zvm_extra.Virsh.Hostdevs.{InterfaceDoc}
use zvm_extra.Handlers.Names.{valid_name}

-- The stores of the server, over the world `W` of the host.
pub record Server (W : Type 0) : Type 0 where
  pub host : W
  pub auto : Store Autostart.Entry
  pub mounts : Mounts.Manager
  pub usb : Store UsbStore.PinnedDevice
  pub pci : Store PciStore.PinnedDevice
  pub sched : Store Schedule.Entry
  pub jobs : Backup.Jobs
  pub vnc : Store VncStore.Entry
  pub tpm : Tpm.Tpms
  pub settings : Settings.Store

-- What the handlers call: the host, and JSON at the types of the stores.
pub record Env (W : Type 0) : Type 0 where
  pub virsh : Runner W
  pub console : Virsh W
  pub mounter : Mounts.Commands.Host W
  pub copier : Backup.Host W
  pub mkdir_all : Bytes → Action W (Unit {0})
  pub lsusb : W → Result Bytes
  pub lspci : W → Result Bytes
  pub iommu_group : W → Bytes → Bytes
  pub interfaces : Bytes → Result (List InterfaceDoc)
  pub saves : W → SaveCalls
  pub random : W → List ℕ
  pub auto_json : Codec Autostart.Entry
  pub mounts_json : Codec Mounts.Entry
  pub usb_json : Codec UsbStore.PinnedDevice
  pub pci_json : Codec PciStore.PinnedDevice
  pub sched_json : Codec Schedule.Entry
  pub vnc_json : Codec VncStore.Entry
  pub tpm_json : Codec Bytes
  pub settings_json : Settings.Codec
  pub snapshot_root : Bytes

pub record Request (B : Type 0) : Type 0 where
  pub method : Bytes
  pub path : Bytes
  pub body : Result B

-- writeJSON and writeErr.
pub data Reply (A : Type 0) : Type 0 where
  answer : ℕ → A → Reply A
  failure : ℕ → Bytes → Reply A

-- A part of a handler: it goes on with a value, or it ends with an answer or an error.
pub data Step (B A : Type 0) : Type 0 where
  next : A → Step B A
  stop : Reply B → Step B A

abbrev pub Handler : Type 0 → Type 0 → Type 0 → Type 0
Handler W B A = Server W → Step B A × Server W

-- What is written at the end.
abbrev pub Answer : Type 0 → Type 0 → Type 0
Answer W B = Server W → Reply B × Server W

abbrev pub pure : {W B A : Type 0} → A → Handler W B A
pure a s = (next a, s)

abbrev pub gets : {W B A : Type 0} → (Server W → A) → Handler W B A
gets f s = (next (f s), s)

-- writeErr and return.
abbrev pub fail : {W B A : Type 0} → ℕ → Bytes → Handler W B A
fail code m s = (stop (failure code m), s)

abbrev pub reply : {W B A : Type 0} → ℕ → B → Handler W B A
reply code b s = (stop (answer code b), s)

infixl 5 ◌>>=◌ ◌>>◌
abbrev pub ◌>>=◌ : {W B A C : Type 0} → Handler W B A → (A → Handler W B C) → Handler W B C
◌>>=◌ m f s = let (r, t) = m s in elim r [ next a ↦ f a t | stop b ↦ (stop b, t) ]

abbrev pub ◌>>◌ : {W B C : Type 0} → Handler W B (Unit {0}) → Handler W B C → Handler W B C
m >> k = m >>= λ _. k

abbrev pub fail_if : {W B : Type 0} → Bool → ℕ → Bytes → Handler W B (Unit {0})
fail_if c code m s = (if c then stop (failure code m) else next tt, s)

-- A result whose error ends the request.
abbrev pub or_fail : {W B A : Type 0} → ℕ → Bytes → (Server W → Result A × Server W) → Handler W B A
or_fail code label m s =
    let (r, t) = m s in
    elim r [ ok a ↦ (next a, t) | err e ↦ (stop (failure code (label ++ e)), t) ]

-- A result that cannot change anything.
abbrev pub decoded : {W B A : Type 0} → ℕ → Result A → Handler W B A
decoded code r s = elim r [ ok a ↦ (next a, s) | err e ↦ (stop (failure code e), s) ]

-- A call of the host.
abbrev pub on_host : {W A : Type 0} → Action W A → Server W → Result A × Server W
on_host m s = let (r, w) = m s.host in (r, record s { host = w })

-- A call whose error is passed over.
abbrev pub or_else : {W B A : Type 0} → (Server W → Result A × Server W) → A → Handler W B A
or_else m a s = let (r, t) = m s in (next (elim r [ ok b ↦ b | err _ ↦ a ]), t)

-- The answer of a handler, which always ends: with an empty body where it would not.
unfoldable pub run : {W B : Type 0} → Handler W B (Reply B) → Answer W B
run m s = let (r, t) = m s in elim r [ next b ↦ (b, t) | stop b ↦ (b, t) ]

abbrev pub not_allowed : {W B A : Type 0} → Handler W B A
not_allowed = fail 405 (codes "method not allowed")

abbrev pub is_method : {B : Type 0} → Request B → Bytes → Bool
is_method r m = bytes_eq r.method m

-- The parts of the path behind the prefix of the handler.
unfoldable pub path_parts : Bytes → Bytes → List Bytes
path_parts prefix path = split (trim_suffix (trim_prefix path prefix) (codes "/")) b'/'

-- The checks of the name of a domain.
unfoldable pub check_vm : {W B : Type 0} → Bytes → Handler W B (Unit {0})
check_vm vm = do
  fail_if (bytes_eq vm []) 400 (codes "vm name required")
  fail_if (not (valid_name vm)) 400 (codes "invalid vm name")

abbrev pub forbidden_paths : List Bytes
forbidden_paths =
    codes "/"
    ∷ codes "/proc"
    ∷ codes "/sys"
    ∷ codes "/dev"
    ∷ codes "/run"
    ∷ codes "/var"
    ∷ codes "/usr"
    ∷ codes "/etc"
    ∷ codes "/boot"
    ∷ codes "/tmp"
    ∷ []

unfoldable pub below_any : List Bytes → Bytes → Bool
below_any [] p = false
below_any (f ∷ fs) p =
    let rest = below_any fs p in
    if bytes_eq p f || has_prefix p (f ++ codes "/") then true else rest

unfoldable pub forbidden_snapshot_dir : Bytes → Bool
forbidden_snapshot_dir p = below_any forbidden_paths (clean p)

-- The two checks of a directory that a request names.
unfoldable pub check_dir : {W B : Type 0} → Bytes → Bytes → Handler W B (Unit {0})
check_dir label p = do
  fail_if (not (is_abs p) || contains p (codes "..")) 400
      (label ++ codes " must be an absolute path without '..'")
  fail_if (forbidden_snapshot_dir p) 400 (label ++ codes " is not allowed (system path)")

-- The request `h` is answered with `b`, and the server is `t` then.
abbrev pub Answered : {W B : Type 0} → Handler W B (Reply B) → Server W → ℕ → B → Server W → Type 0
Answered h s k b t = h s ≡ (stop (answer k b), t)
