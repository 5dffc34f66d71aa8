-- ===== src/Units.antt =====
-- internal/watchdog/watchdog.go: the units that start the daemon after a boot.
use zvm_extra.Base.{Bool, true, false, Result, ok, err, List, [], ◌∷◌, ◌++◌, if◌then◌else◌}
use zvm_extra.Bytes.{Bytes, codes, bytes_eq}
use zvm_extra.Action.{Action, pure, ◌>>=◌, ◌>>◌}

abbrev pub unit_dir : Bytes
unit_dir = codes "/etc/systemd/system"

abbrev pub service_name : Bytes
service_name = codes "zima-vm-extras-watchdog.service"

abbrev pub timer_name : Bytes
timer_name = codes "zima-vm-extras-watchdog.timer"

abbrev pub service_unit : Bytes
service_unit =
    codes "[Unit]\nDescription=Start zima-vm-extras if the sysext unit was missed at boot\n\n"
    ++ codes
        "[Service]\nType=oneshot\nExecStart=/bin/sh -c 'systemctl is-active --quiet zima-vm-extras.service || systemctl start zima-vm-extras.service'\n"

abbrev pub timer_unit : Bytes
timer_unit =
    codes
      "[Unit]\nDescription=Ensure zima-vm-extras is running after the sysext overlay is merged\n\n"
    ++ codes "[Timer]\nOnBootSec=15\n\n[Install]\nWantedBy=timers.target\n"

-- The calls of the system. The error of a removal says whether the file was missing.
pub record Host (W : Type 0) : Type 0 where
  pub read_file : Bytes → W → Result Bytes
  pub write_file : Bytes → Bytes → Action W (Unit {0})
  pub remove_file : Bytes → Action W (Unit {0})
  pub is_not_exist : Bytes → Bool
  pub systemctl : List Bytes → Action W (Unit {0})

-- filepath.Join of the directory and a plain name.
unfoldable pub unit_path : Bytes → Bytes
unit_path name = unit_dir ++ b'/' ∷ name

-- The units in an order that Go leaves open.
abbrev pub units : List (Bytes × Bytes)
units = (service_name, service_unit) ∷ (timer_name, timer_unit) ∷ []

unfoldable pub is_text : Bytes → Result Bytes → Bool
is_text content (ok cur) = bytes_eq cur content
is_text content (err m) = false

module _ {W : Type 0} (host : Host W) where
  -- Whether a unit had to be written.
  unfoldable pub install : List (Bytes × Bytes) → Action W Bool
  install [] w = (ok false, w)
  install ((name, content) ∷ us) w = elim (is_text content (host.read_file (unit_path name) w)) [
    | true ↦ install us w
    | false ↦
        let (r, v) = host.write_file (unit_path name) content w in
        elim r [
          | err m ↦ (err m, v)
          | ok _ ↦ let (s, u) = install us v in (elim s [ err m ↦ err m | ok _ ↦ ok true ], u)
        ]
  ]

  unfoldable pub reload : Bool → Action W (Unit {0})
  reload changed = if changed then host.systemctl (codes "daemon-reload" ∷ []) else pure tt

  unfoldable pub ensure_installed : Action W (Unit {0})
  ensure_installed = do
    changed ← install units
    reload changed
    host.systemctl (codes "enable" ∷ codes "--now" ∷ timer_name ∷ [])

  -- The first error that does not say that a file is missing.
  unfoldable pub remove_files : List Bytes → Action W (Unit {0})
  remove_files [] w = (ok tt, w)
  remove_files (name ∷ names) w =
      let (r, v) = host.remove_file (unit_path name) w in
      let (s, u) = remove_files names v in
      (elim r [ ok _ ↦ s | err m ↦ if host.is_not_exist m then s else err m ], u)

  unfoldable pub remove : Action W (Unit {0})
  remove w =
      let (_, v) = host.systemctl (codes "disable" ∷ codes "--now" ∷ timer_name ∷ []) w in
      let (r, u) = remove_files (service_name ∷ timer_name ∷ []) v in
      (r, (host.systemctl (codes "daemon-reload" ∷ []) u).1)
