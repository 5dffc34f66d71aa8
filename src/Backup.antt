-- ===== src/Backup.antt =====
-- internal/backup/backup.go: the jobs that copy a domain.
pub mod Kept
use zvm_extra.Base.{
  ℕ, ◌+◌, true, false, not, Result, ok, err, List, [], ◌∷◌, ◌++◌, if◌then◌else◌, leb, drop, length,
}
use zvm_extra.Base.Int.{ℤ, pos, ltb_ℤ}
use zvm_extra.Bytes.{Bytes, codes, bytes_eq}
use zvm_extra.Dict.{Dict, put, remove, values}
use zvm_extra.Action.{Action, pure, raise_if, ◌>>=◌, ◌>>◌}
use zvm_extra.Paths.{join_path}
use zvm_extra.Virsh.Tables.{Disk}
use zvm_extra.Virsh.Listen.{itoa}
use zvm_extra.Virsh.Commands.{Runner, state, dump_xml, domain_disks, is_removable}

pub record Job : Type 0 where
  pub id : Bytes
  pub vm : Bytes
  pub dest : Bytes
  pub state : Bytes
  pub step : Bytes
  pub started_unix : ℤ
  pub ended_unix : ℤ
  pub error : Bytes

-- The jobs by their ids.
abbrev pub Jobs : Type 0
Jobs = Dict Job

-- Newer jobs first.
unfoldable pub insert : Job → List Job → List Job
insert j [] = j ∷ []
insert j (k ∷ ks) =
    let rest = insert j ks in if ltb_ℤ j.started_unix k.started_unix then k ∷ rest else j ∷ k ∷ ks

unfoldable pub sort : List Job → List Job
sort [] = []
sort (j ∷ js) = insert j (sort js)

unfoldable pub list : Jobs → List Job
list jobs = sort (values jobs)

abbrev pub max_jobs : ℕ
max_jobs = 50

unfoldable pub delete_all : List Job → Jobs → Jobs
delete_all [] jobs = jobs
delete_all (j ∷ js) jobs = delete_all js (remove j.id jobs)

unfoldable pub prune_locked : Jobs → Jobs
prune_locked jobs =
    if leb (length jobs) max_jobs
    then jobs
    else delete_all (drop max_jobs (sort (values jobs))) jobs

-- The calls of the system: a directory, a file, and `qemu-img convert` from a source to a file.
pub record Host (W : Type 0) : Type 0 where
  pub mkdir_all : Bytes → Action W (Unit {0})
  pub write_file : Bytes → Bytes → Action W (Unit {0})
  pub convert : Bytes → Bytes → Action W (Unit {0})

-- What a job finds at its start.
pub record Clock : Type 0 where
  pub unix : ℤ
  pub stamp : Bytes

-- The file of the disk `target`, the `i`th of the domain.
unfoldable pub disk_name : Bytes → ℕ → Bytes
disk_name target i = target ++ b'-' ∷ (itoa i ++ codes ".qcow2")

unfoldable pub finish : ℤ → Result (Unit {0}) → Job → Job
finish now r job = elim r [
  | err m ↦ record job {
    ended_unix = now;
    state = codes "failed";
    step = codes "failed";
    error = m;
  }
  | ok _ ↦ record job { ended_unix = now; state = codes "done"; step = codes "done" }
]

module _ {W : Type 0} (virsh : Runner W) (host : Host W) where
  -- A job that may run, with the XML and the disks it copies.
  unfoldable pub prepare : Clock → Bytes → Bytes → Bytes → Action W (Job × Bytes × List Disk)
  prepare now id vm dest_dir = do
    st ← state virsh vm
    raise_if (not (bytes_eq st (codes "shut off")))
        (codes "the VM must be shut off to back up safely (currently \"" ++ (st ++ codes "\")"))
    xml ← dump_xml virsh vm
    disks ← domain_disks virsh vm
    host.mkdir_all (join_path dest_dir (vm ++ b'-' ∷ now.stamp))
    pure (
      record {
        id = id;
        vm = vm;
        dest = join_path dest_dir (vm ++ b'-' ∷ now.stamp);
        state = codes "running";
        step = codes "starting";
        started_unix = now.unix;
        ended_unix = pos 0;
        error = [];
      },
      xml,
      disks,
    )

  -- The jobs after Start: the new one is among them before the oldest are dropped.
  unfoldable pub start :
      Clock → Bytes → Bytes → Bytes → Jobs → W → Result (Job × Bytes × List Disk) × Jobs × W
  start now id vm dest_dir jobs w =
      let (r, w') = prepare now id vm dest_dir w in
      elim r [
        | err m ↦ (err m, jobs, w')
        | ok (job, xml, disks) ↦ (ok (job, xml, disks), prune_locked (put job.id job jobs), w')
      ]

  -- The loop over the disks, from the `i`th on: the names of the files written, and the error of the
  -- first copy that fails.
  unfoldable pub copy_disks : Bytes → ℕ → List Disk → Action W (List Bytes)
  copy_disks dest i [] w = (ok [], w)
  copy_disks dest i (d ∷ disks) w = elim (is_removable d) [
    | true ↦ copy_disks dest (i + 1) disks w
    | false ↦
        let (r, v) = host.convert d.source (join_path dest (disk_name d.target i)) w in
        elim r [
          | err m ↦ (err (codes "qemu-img convert " ++ (d.target ++ (codes ": " ++ m))), v)
          | ok _ ↦
              let (s, u) = copy_disks dest (i + 1) disks v in
              (elim s [ err m ↦ err m | ok names ↦ ok (disk_name d.target i ∷ names) ], u)
        ]
  ]

  -- The steps of `run` up to its end. An error of the manifest is passed over; `manifest` is its text.
  unfoldable pub copy : (List Bytes → Bytes) → Job → Bytes → List Disk → Action W (Unit {0})
  copy manifest job xml disks = do
    host.write_file (join_path job.dest (codes "domain.xml")) xml
    saved ← copy_disks job.dest 0 disks
    λ w.
        (ok tt, (host.write_file (join_path job.dest (codes "manifest.json")) (manifest saved) w).1)

  -- The job when `run` returns.
  unfoldable pub run : ℤ → (List Bytes → Bytes) → Job → Bytes → List Disk → W → Job × W
  run now manifest job xml disks w =
      let (r, w') = copy manifest job xml disks w in (finish now r job, w')
