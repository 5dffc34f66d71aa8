-- ===== src/Virsh/Commands.antt =====
-- internal/virsh/virsh.go: the commands of the client, over the process `virsh` that each of them runs.
pub mod Overlays
use zvm_extra.Base.{
  ℕ, suc, ◌+◌, Bool, true, false, not, Option, none, some, Result, ok, err, List, [], ◌∷◌, ◌++◌,
  ◌||◌, if◌then◌else◌, ◌==◌,
}
use zvm_extra.Base.Int.{ℤ}
use zvm_extra.Bytes.{Bytes, codes, bytes_eq, contains, trim_space}
use zvm_extra.Dict.{Dict}
use zvm_extra.Action.{Action, pure, raise, asks, ◌>>=◌, ◌>>◌, or_else, finally}
use zvm_extra.Virsh.Listen.{itoa}
use zvm_extra.Virsh.FileStem.{file_stem}
use zvm_extra.Virsh.Tables

-- The process, and the calls for temporary files, named by their paths.
pub record Runner (W : Type 0) : Type 0 where
  pub run : List Bytes → Action W Bytes
  pub create_temp : Action W Bytes
  pub write_temp : Bytes → Bytes → Action W (Unit {0})
  pub close_temp : Bytes → Action W (Unit {0})
  pub remove_temp : Bytes → W → W

-- The arguments of an option that stands behind the others where `given` holds.
abbrev pub flag : Bool → Bytes → List Bytes
flag given name = if given then name ∷ [] else []

-- strings.TrimRight(s, "/")
unfoldable pub trim_slashes : Bytes → Bytes
trim_slashes [] = []
trim_slashes (c ∷ s) = elim (trim_slashes s) [
  | [] ↦ if c == b'/' then [] else c ∷ []
  | d ∷ t ↦ c ∷ d ∷ t
]

unfoldable pub is_removable : Tables.Disk → Bool
is_removable d = bytes_eq d.device (codes "cdrom") || bytes_eq d.device (codes "floppy")

-- The overlay of the disk `target`, the `i`th of the domain.
unfoldable pub overlay_path : Bytes → Bytes → Bytes → ℕ → Bytes
unfolding trim_slashes
overlay_path dir stem target i =
    trim_slashes dir ++ b'/' ∷ (stem ++ b'-' ∷ (target ++ b'-' ∷ (itoa i ++ codes ".qcow2")))

unfoldable pub disk_spec : Bytes → Bytes → Tables.Disk → ℕ → Bytes
disk_spec dir stem d i =
    if is_removable d
    then d.target ++ codes ",snapshot=no"
    else d.target ++ (codes ",snapshot=external,file=" ++ overlay_path dir stem d.target i)

unfoldable pub disk_specs : Bytes → Bytes → ℕ → List Tables.Disk → List Bytes
disk_specs dir stem i [] = []
disk_specs dir stem i (d ∷ disks) =
    codes "--diskspec" ∷ disk_spec dir stem d i ∷ disk_specs dir stem (i + 1) disks

unfoldable pub mem_spec : Bytes → Bytes → Bytes → List Bytes
unfolding trim_slashes
mem_spec dir stem state =
    if bytes_eq state (codes "running") || bytes_eq state (codes "paused")
    then codes "--memspec"
      ∷ (codes "file="
          ++ (trim_slashes dir ++ b'/' ∷ (stem ++ codes "-memory.save,snapshot=external")))
      ∷ []
    else []

unfoldable pub snapshot_args : Bytes → Bytes → Bytes → List Bytes
snapshot_args domain name description =
    codes "snapshot-create-as"
    ∷ domain
    ∷ name
    ∷ (if bytes_eq description [] then [] else codes "--description" ∷ description ∷ [])

module _ {W : Type 0} (virsh : Runner W) where
  -- A command of which only the error counts.
  unfoldable pub command : List Bytes → Action W (Unit {0})
  command args = do _ ← virsh.run args; pure tt

  unfoldable pub list_domains : Action W (List Bytes)
  list_domains = do
    out ← virsh.run (codes "list" ∷ codes "--all" ∷ codes "--name" ∷ [])
    pure (Tables.list_domains out)

  unfoldable pub is_autostart : Bytes → Action W Bool
  is_autostart name = do
    out ← virsh.run (codes "dominfo" ∷ name ∷ [])
    asks (λ _. elim (Tables.is_autostart out) [
      | none ↦ err (codes "could not parse Autostart for " ++ name)
      | some b ↦ ok b
    ])

  unfoldable pub set_autostart : Bytes → Bool → Action W (Unit {0})
  set_autostart name enable =
      command (codes "autostart" ∷ name ∷ flag (not enable) (codes "--disable"))

  unfoldable pub state : Bytes → Action W Bytes
  state name = do out ← virsh.run (codes "domstate" ∷ name ∷ []); pure (trim_space out)

  unfoldable pub start : Bytes → Action W (Unit {0})
  start name = command (codes "start" ∷ name ∷ [])

  unfoldable pub shutdown : Bytes → Action W (Unit {0})
  shutdown name = command (codes "shutdown" ∷ name ∷ [])

  unfoldable pub reboot : Bytes → Action W (Unit {0})
  reboot name = command (codes "reboot" ∷ name ∷ [])

  unfoldable pub destroy : Bytes → Action W (Unit {0})
  destroy name = command (codes "destroy" ∷ name ∷ [])

  unfoldable pub suspend : Bytes → Action W (Unit {0})
  suspend name = command (codes "suspend" ∷ name ∷ [])

  unfoldable pub resume : Bytes → Action W (Unit {0})
  resume name = command (codes "resume" ∷ name ∷ [])

  unfoldable pub set_mem_stats_period : Bytes → ℕ → Action W (Unit {0})
  set_mem_stats_period domain seconds =
      command (codes "dommemstat" ∷ domain ∷ codes "--period" ∷ itoa seconds ∷ codes "--live" ∷ [])

  unfoldable pub dump_xml : Bytes → Action W Bytes
  dump_xml name = virsh.run (codes "dumpxml" ∷ name ∷ [])

  unfoldable pub inactive_xml : Bytes → Action W Bytes
  inactive_xml name = virsh.run (codes "dumpxml" ∷ codes "--inactive" ∷ name ∷ [])

  -- Having no current snapshot is no error.
  unfoldable pub current_snapshot : Bytes → Action W Bytes
  current_snapshot domain w =
      let (r, w') = virsh.run (codes "snapshot-current" ∷ domain ∷ codes "--name" ∷ []) w in
      elim r [
        | ok out ↦ (ok (trim_space out), w')
        | err m ↦ (if contains m (codes "has no current snapshot") then ok [] else err m, w')
      ]

  unfoldable pub list_snapshots : Bytes → Action W (List Tables.Snapshot)
  list_snapshots domain = do
    out ← virsh.run (codes "snapshot-list" ∷ domain ∷ codes "--parent" ∷ [])
    cur ← or_else (current_snapshot domain) []
    pure (Tables.list_snapshots out cur)

  unfoldable pub domain_disks : Bytes → Action W (List Tables.Disk)
  domain_disks domain = do
    out ← virsh.run (codes "domblklist" ∷ codes "--details" ∷ domain ∷ [])
    pure (Tables.domain_disks out)

  unfoldable pub create_external : Bytes → Bytes → Bytes → Bytes → Action W (Unit {0})
  create_external domain name description dir = do
    disks ← domain_disks domain
    st ← or_else (state domain) []
    command (
        snapshot_args domain name description
        ++ (disk_specs dir (file_stem name) 0 disks
            ++ (mem_spec dir (file_stem name) st ++ codes "--atomic" ∷ [])))

  unfoldable pub create_snapshot : Bytes → Bytes → Bytes → Bool → Bytes → Action W (Unit {0})
  create_snapshot domain name description external dir =
      if not external
      then command (snapshot_args domain name description)
      else if bytes_eq dir []
      then raise (codes "externalDir required for external snapshot")
      else create_external domain name description dir

  unfoldable pub revert_snapshot : Bytes → Bytes → Bool → Action W (Unit {0})
  revert_snapshot domain snapshot force =
      command (codes "snapshot-revert" ∷ domain ∷ snapshot ∷ flag force (codes "--force"))

  unfoldable pub delete_snapshot : Bytes → Bytes → Bool → Action W (Unit {0})
  delete_snapshot domain snapshot with_children =
      command
        (codes "snapshot-delete" ∷ domain ∷ snapshot ∷ flag with_children (codes "--children"))

  unfoldable pub domain_stats : Bytes → Action W (Dict Bytes)
  domain_stats domain = do
    out ← virsh.run (codes "domstats" ∷ domain ∷ [])
    pure (Tables.domain_stats out)

  unfoldable pub has_uefi : Bytes → Action W Bool
  has_uefi domain = do xml ← dump_xml domain; pure (Tables.has_uefi xml)

  unfoldable pub title : Bytes → Action W Bytes
  title domain = do xml ← dump_xml domain; pure (Tables.title xml)

  -- A file that cannot be written is closed and removed; one that cannot be closed is left.
  unfoldable pub write_temp_xml : Bytes → Action W Bytes
  write_temp_xml content = do
    f ← virsh.create_temp
    λ w.
        let (r, w') = virsh.write_temp f content w in
        elim r [
          | err m ↦ (err m, virsh.remove_temp f (virsh.close_temp f w').1)
          | ok _ ↦ (do _ ← virsh.close_temp f; pure f) w'
        ]

  -- `attach-device` and `detach-device` of a file of XML, which is removed afterwards.
  unfoldable pub device_xml : Bytes → Bytes → Bytes → Bool → Action W (Unit {0})
  device_xml verb domain snippet persistent = do
    tmp ← write_temp_xml snippet
    finally
        (do
          st ← or_else (state domain) []
          command (
              verb
              ∷ domain
              ∷ tmp
              ∷ (flag (bytes_eq st (codes "running")) (codes "--live")
                  ++ flag persistent (codes "--config"))))
        (virsh.remove_temp tmp)

  unfoldable pub attach_device_xml : Bytes → Bytes → Bool → Action W (Unit {0})
  attach_device_xml domain snippet persistent =
      device_xml (codes "attach-device") domain snippet persistent

  unfoldable pub detach_device_xml : Bytes → Bytes → Bool → Action W (Unit {0})
  detach_device_xml domain snippet persistent =
      device_xml (codes "detach-device") domain snippet persistent

  -- The configuration alone: a domain that runs is left as it is.
  unfoldable pub attach_device_config : Bytes → Bytes → Action W (Unit {0})
  attach_device_config domain snippet = do
    tmp ← write_temp_xml snippet
    finally (command (codes "attach-device" ∷ domain ∷ tmp ∷ codes "--config" ∷ []))
        (virsh.remove_temp tmp)

  unfoldable pub network_list : Action W (List Tables.Network)
  network_list = do
    out ← virsh.run (codes "net-list" ∷ codes "--all" ∷ [])
    pure (Tables.network_list out)

  -- A call whose error gets a prefix.
  unfoldable pub because : {A : Type 0} → Bytes → Action W A → Action W A
  because what m w =
      let (r, w') = m w in elim r [ ok a ↦ (ok a, w') | err e ↦ (err (what ++ e), w') ]

  unfoldable pub switch_interface : Bytes → Bytes → Bytes → Bytes → Bytes → Action W (Unit {0})
  switch_interface domain old_type mac network model = do
    because (codes "detach old NIC: ") (
        command (
          codes "detach-interface"
          ∷ domain
          ∷ old_type
          ∷ codes "--mac"
          ∷ mac
          ∷ codes "--config"
          ∷ []))
    because (codes "attach new NIC: ") (
        command (
          codes "attach-interface"
          ∷ domain
          ∷ codes "network"
          ∷ network
          ∷ codes "--mac"
          ∷ mac
          ∷ codes "--config"
          ∷ (if bytes_eq model [] then [] else codes "--model" ∷ model ∷ [])))
