-- ===== src/Examples/Requests.antt =====
-- A server over a host on which every call succeeds.
use zvm_extra.Base.{List, ◌∷◌, ◌≤◌, length, arith, true, ◌≡◌, refl, none, ok, []}
use zvm_extra.Base.Int.{pos}
use zvm_extra.Bytes.{Bytes, codes}
use zvm_extra.FileStore.{Store}
use zvm_extra.Examples.Hosts.{running, no_files, all_well, codec_of}
use zvm_extra.Handlers.Server.{Server, Env}
use zvm_extra.Handlers.Consoles.{VncRequest, VncBody, vnc_post}
use zvm_extra.Backup.{Clock, start}
use zvm_extra.Backup.Kept.{IsByIds, start_keeps_fifty}
use zvm_extra.Virsh.Commands.{Runner}
use zvm_extra.Handlers.Names.{valid_snapshot_name}
use zvm_extra.Handlers.Snapshots.{SnapshotBody, CreateSnapshot, is_live, snapshot_create}
use zvm_extra.Handlers.Snapshots.Guarded.{
  state_of, Guarded, IsCreatedBy, readied, created_snapshot-Guarded,
}
use zvm_extra.Handlers.Consoles.Exposed.{Protected, exposed_console-Protected}

abbrev console_xml : Bytes
console_xml = codes "<domain><graphics type='vnc' port='-1'/></domain>"

abbrev empty : {E : Type 0} → Store E
empty = record { entries = []; disk = no_files }

abbrev text : Bytes
text = codes "[{}]"

-- The calls of virsh and of MkdirAll, the last first.
abbrev Calls : Type 0
Calls = List (List Bytes)

abbrev env : Env Calls
env = record {
  virsh = record {
    run = λ args w. (ok (codes "running"), args ∷ w);
    create_temp = λ w. (ok (codes "/tmp/zvm-1.xml"), w);
    write_temp = λ p b w. (ok tt, w);
    close_temp = λ p w. (ok tt, w);
    remove_temp = λ p w. w;
  };
  console = record {
    inactive_xml = λ vm w. ok console_xml;
    live_xml = λ vm w. ok console_xml;
    state = λ vm w. running;
    write_temp_xml = λ xml w. ok tt;
    define = λ xml w. (ok tt, w);
  };
  mounter = record {
    proc_mounts = λ w. none;
    mkdir_all = λ p w. (ok tt, w);
    run_cmd = λ cmd args w. (ok tt, w);
    create_creds = λ w. (ok (codes "/tmp/creds"), w);
    write_creds = λ p b w. (ok tt, w);
    close_creds = λ p w. (ok tt, w);
    chmod_creds = λ p w. (ok tt, w);
    remove_creds = λ p w. w;
  };
  copier = record {
    mkdir_all = λ p w. (ok tt, w);
    write_file = λ p b w. (ok tt, w);
    convert = λ p q w. (ok tt, w);
  };
  mkdir_all = λ p w. (ok tt, (codes "mkdir" ∷ p ∷ []) ∷ w);
  lsusb = λ w. ok [];
  lspci = λ w. ok [];
  iommu_group = λ w a. [];
  interfaces = λ xml. ok [];
  saves = λ w. all_well;
  random = λ w. [];
  auto_json = codec_of text [];
  mounts_json = codec_of text [];
  usb_json = codec_of text [];
  pci_json = codec_of text [];
  sched_json = codec_of text [];
  vnc_json = codec_of text [];
  tpm_json = codec_of text [];
  settings_json = record { encode = λ d. ok text; decode = λ b d. ok d };
  snapshot_root = codes "/DATA/snapshots";
}

abbrev server : Server Calls
server = record {
  host = [];
  auto = empty;
  mounts = record { store = empty; last = [] };
  usb = empty;
  pci = empty;
  sched = empty;
  jobs = [];
  vnc = empty;
  tpm = record { pins = []; disk = no_files };
  settings = record { data_set = record { backup_dir = []; snapshot_dir = [] }; disk = no_files };
}

abbrev request : VncRequest
request = record { password = codes "s3cret"; listen = codes "0.0.0.0"; port = pos 0 }

abbrev vm : Bytes
vm = codes "debian"

exposed_console-Protected_example : Protected env vm server (vnc_post env vm (ok request) server).1
unfolding zvm_extra.Virsh.Graphics.vnc_open_tag zvm_extra.Virsh.Graphics.set_graphics_password_xml
    zvm_extra.Virsh.Client.set_vnc_listen zvm_extra.Virsh.Client.set_vnc_password
    zvm_extra.Virsh.Listen.set_graphics_listen_xml zvm_extra.Vnc.valid_password
    zvm_extra.Vnc.Store.set zvm_extra.Vnc.Store.get zvm_extra.Dict.get zvm_extra.Bytes.bytes_eq
    zvm_extra.Bytes.index_byte zvm_extra.Bytes.contains zvm_extra.Handlers.Consoles.is_listen
    zvm_extra.Handlers.Consoles.is_port zvm_extra.Handlers.Consoles.with_pinned
    zvm_extra.Handlers.Consoles.vnc_set zvm_extra.Handlers.Consoles.vnc_protect
    zvm_extra.Handlers.Consoles.vnc_post
exposed_console-Protected_example =
    exposed_console-Protected env vm request server 200
      (VncBody.protecting (codes "0.0.0.0") (pos 0)) (vnc_post env vm (ok request) server).1 refl
      refl

abbrev creation : CreateSnapshot
creation = record {
  name = codes "before update";
  description = [];
  external = true;
  external_dir = [];
}

created_snapshot-Guarded_example :
    (valid_snapshot_name (codes "before update") ≡ true)
    × (true ≡ is_live (state_of env vm server))
    × Guarded env true (codes "/DATA/snapshots/debian")
    × IsCreatedBy env vm
        (codes "before update")
        []
        true
        (codes "/DATA/snapshots/debian")
        (readied env vm true (codes "/DATA/snapshots/debian") server)
        (snapshot_create env vm (ok creation) server).1.host
unfolding zvm_extra.Virsh.Commands.command zvm_extra.Virsh.Commands.state
    zvm_extra.Virsh.Commands.domain_disks zvm_extra.Virsh.Commands.create_external
    zvm_extra.Virsh.Commands.create_snapshot zvm_extra.Settings.get zvm_extra.Bytes.bytes_eq
    zvm_extra.Bytes.contains zvm_extra.Bytes.trim_space zvm_extra.Bytes.split zvm_extra.Bytes.join
    zvm_extra.Bytes.all_bytes zvm_extra.Paths.is_abs zvm_extra.Paths.clean_parts
    zvm_extra.Paths.join_path zvm_extra.Handlers.Names.is_name_byte
    zvm_extra.Handlers.Names.is_snapshot_byte zvm_extra.Handlers.Names.valid_snapshot_name
    zvm_extra.Handlers.Server.below_any zvm_extra.Handlers.Server.forbidden_snapshot_dir
    zvm_extra.Handlers.Server.check_dir zvm_extra.Handlers.Snapshots.is_live
    zvm_extra.Handlers.Snapshots.snapshot_base zvm_extra.Handlers.Snapshots.check_create
    zvm_extra.Handlers.Snapshots.external_dir zvm_extra.Handlers.Snapshots.snapshot_create
created_snapshot-Guarded_example =
    created_snapshot-Guarded env vm creation server 201 (codes "before update") true
      (codes "/DATA/snapshots/debian") (snapshot_create env vm (ok creation) server).1 refl

abbrev off : Runner Calls
off = record env.virsh { run = λ args w. (ok (codes "shut off"), args ∷ w) }

abbrev now : Clock
now = record { unix = pos 1700000000; stamp = codes "20231114-221320" }

start_keeps_fifty_example :
    IsByIds (start off env.copier now (codes "1") vm (codes "/DATA/backups") [] []).1
    × (length (start off env.copier now (codes "1") vm (codes "/DATA/backups") [] []).1 ≤ 50)
start_keeps_fifty_example =
    start_keeps_fifty off env.copier now (codes "1") vm (codes "/DATA/backups") [] [] tt
      (omega arith)
