-- ===== src/Handlers/Machines.antt =====
-- internal/handlers/handlers.go: the handlers of domains, of their schedules and of their power.
use zvm_extra.Base.{
  Bool, false, not, Option, none, some, Result, List, [], ◌∷◌, ◌||◌, ◌==◌, reverse, if◌then◌else◌,
}
use zvm_extra.Base.Int.{ℤ}
use zvm_extra.Bytes.{Bytes, codes, bytes_eq, trim_prefix}
use zvm_extra.Autostart
use zvm_extra.Schedule
use zvm_extra.Storage
use zvm_extra.Virsh.Commands
use zvm_extra.Handlers.Names.{valid_name}
use zvm_extra.Handlers.Server.{
  Server, Env, Request, Reply, Handler, Answer, ◌>>=◌, ◌>>◌, pure, gets, fail, fail_if, reply,
  or_fail, decoded, on_host, or_else, run, not_allowed, is_method, check_vm,
}

pub record VmEntry : Type 0 where
  pub name : Bytes
  pub title : Bytes
  pub state : Bytes
  pub libvirt_autostart : Bool
  pub enabled : Bool
  pub order : ℤ
  pub delay_s : ℤ
  pub watchdog : Bool
  pub uefi : Bool

pub data VmBody : Type 0 where
  vms : List VmEntry → VmBody
  entries : List Autostart.Entry → VmBody
  entry : Autostart.Entry → VmBody
  schedules : List Schedule.Entry → VmBody
  schedule : Schedule.Entry → VmBody
  powered : Bytes → Bytes → Bytes → VmBody
  targets : List Storage.Target → VmBody
  deleted : VmBody

-- The action that the body of a power request names.
unfoldable pub power_action :
    {W : Type 0} → Commands.Runner W → Bytes → Option (Bytes → W → Result (Unit {0}) × W)
power_action virsh action =
    if bytes_eq action (codes "start")
    then some (Commands.start virsh)
    else if bytes_eq action (codes "shutdown")
    then some (Commands.shutdown virsh)
    else if bytes_eq action (codes "reboot")
    then some (Commands.reboot virsh)
    else if bytes_eq action (codes "force-off")
    then some (Commands.destroy virsh)
    else if bytes_eq action (codes "suspend")
    then some (Commands.suspend virsh)
    else if bytes_eq action (codes "resume")
    then some (Commands.resume virsh)
    else none

drop_slashes : Bytes → Bytes
drop_slashes [] = []
drop_slashes (c ∷ s) = let rest = drop_slashes s in if c == b'/' then rest else c ∷ s

-- strings.Trim(s, "/")
unfoldable pub trim_path : Bytes → Bytes
unfolding drop_slashes
trim_path s = reverse (drop_slashes (reverse (drop_slashes s)))

module _ {W : Type 0} (env : Env W) where
  unfoldable pub vm_entry : Bytes → Handler W VmBody VmEntry
  vm_entry n = do
    e ← gets (λ s. Autostart.get_entry n s.auto)
    st ← or_else (on_host (Commands.state env.virsh n)) []
    las ← or_else (on_host (Commands.is_autostart env.virsh n)) false
    uefi ← or_else (on_host (Commands.has_uefi env.virsh n)) false
    title ← or_else (on_host (Commands.title env.virsh n)) []
    pure (record {
      name = n;
      title = title;
      state = st;
      libvirt_autostart = las;
      enabled = e.enabled;
      order = e.order;
      delay_s = e.delay_s;
      watchdog = e.watchdog;
      uefi = uefi;
    })

  unfoldable pub vm_entries : List Bytes → Handler W VmBody (List VmEntry)
  vm_entries [] = pure []
  vm_entries (n ∷ ns) = do e ← vm_entry n; es ← vm_entries ns; pure (e ∷ es)

  unfoldable pub list_vms : Request (Unit {0}) → Answer W VmBody
  list_vms r = run (do
    fail_if (not (is_method r (codes "GET"))) 405 (codes "method not allowed")
    names ← or_fail 500 [] (on_host (Commands.list_domains env.virsh))
    es ← vm_entries names
    reply 200 (VmBody.vms es))

  unfoldable pub auto_set : Autostart.Entry → Server W → Result Autostart.Entry × Server W
  auto_set e s =
      let (r, t) = Autostart.set env.auto_json (env.saves s.host) e s.auto in
      (r, record s { auto = t })

  unfoldable pub auto_delete : Bytes → Server W → Result (Unit {0}) × Server W
  auto_delete n s =
      let (r, t) = Autostart.delete env.auto_json (env.saves s.host) n s.auto in
      (r, record s { auto = t })

  unfoldable pub autostart_collection : Request (Unit {0}) → Answer W VmBody
  autostart_collection r = run (
      if is_method r (codes "GET")
      then (λ s. reply 200 (VmBody.entries (Autostart.all s.auto)) s)
      else not_allowed)

  -- The flag of libvirt stays off: the daemon starts the domains itself, in their order.
  unfoldable pub autostart_put : Bytes → Result Autostart.Entry → Handler W VmBody (Reply VmBody)
  autostart_put name body = do
    sent ← decoded 400 body
    saved ← or_fail 500 [] (auto_set (record sent { name = name }))
    or_fail 500 (codes "libvirt autostart sync failed: ")
        (on_host (Commands.set_autostart env.virsh name false))
    reply 200 (VmBody.entry saved)

  unfoldable pub autostart_delete : Bytes → Handler W VmBody (Reply VmBody)
  autostart_delete name = do
    _ ← or_else (on_host (Commands.set_autostart env.virsh name false)) tt
    or_fail 500 [] (auto_delete name)
    reply 200 VmBody.deleted

  unfoldable pub autostart_item : Request Autostart.Entry → Answer W VmBody
  autostart_item r = run (
      let name = trim_prefix r.path (codes "/api/autostart/") in
      check_vm name
      >> (if is_method r (codes "GET")
          then (λ s. reply 200 (VmBody.entry (Autostart.get_entry name s.auto)) s)
          else if is_method r (codes "PUT")
          then autostart_put name r.body
          else if is_method r (codes "DELETE")
          then autostart_delete name
          else not_allowed))

  unfoldable pub sched_upsert : Schedule.Entry → Server W → Result Schedule.Entry × Server W
  sched_upsert e s =
      let (r, t) = Schedule.upsert env.sched_json (env.saves s.host) e s.sched in
      (r, record s { sched = t })

  unfoldable pub sched_delete : Bytes → Server W → Result (Unit {0}) × Server W
  sched_delete vm s =
      let (r, t) = Schedule.delete env.sched_json (env.saves s.host) vm s.sched in
      (r, record s { sched = t })

  unfoldable pub schedule_collection : Request (Unit {0}) → Answer W VmBody
  schedule_collection r = run (
      if not (is_method r (codes "GET"))
      then not_allowed
      else (λ s. reply 200 (VmBody.schedules (Schedule.list s.sched)) s))

  unfoldable pub schedule_item : Request Schedule.Entry → Answer W VmBody
  schedule_item r = run (
      let vm = trim_prefix r.path (codes "/api/schedule/") in
      fail_if (bytes_eq vm [] || not (valid_name vm)) 400 (codes "invalid vm name")
      >> (if is_method r (codes "GET")
          then (λ s. reply 200 (VmBody.schedule (Schedule.get_entry vm s.sched)) s)
          else if is_method r (codes "PUT")
          then (do
            sent ← decoded 400 r.body
            saved ← or_fail 400 [] (sched_upsert (record sent { vm = vm }))
            reply 200 (VmBody.schedule saved))
          else if is_method r (codes "DELETE")
          then (do or_fail 500 [] (sched_delete vm); reply 200 VmBody.deleted)
          else not_allowed))

  -- The body is the action.
  unfoldable pub power_handler : Request Bytes → Answer W VmBody
  power_handler r = run (
      let vm = trim_path (trim_prefix r.path (codes "/api/power/")) in
      (do
        fail_if (not (is_method r (codes "POST"))) 405 (codes "method not allowed")
        fail_if (bytes_eq vm [] || not (valid_name vm)) 400 (codes "invalid vm name")
        action ← decoded 400 r.body
        elim (power_action env.virsh action) [
          | none ↦
              fail 400
                (codes "action must be start, shutdown, reboot, force-off, suspend or resume")
          | some act ↦ or_fail 500 [] (on_host (act vm))
        ]
        st ← or_else (on_host (Commands.state env.virsh vm)) []
        reply 200 (VmBody.powered vm action st)))

  unfoldable pub storage_targets :
      (Bytes → Option Storage.Statfs) → Result Bytes → Request (Unit {0}) → Answer W VmBody
  storage_targets statfs text r = run (do
    fail_if (not (is_method r (codes "GET"))) 405 (codes "method not allowed")
    found ← decoded 500 (Storage.list statfs text)
    reply 200 (VmBody.targets found))
