-- ===== src/Handlers/Networks.antt =====
-- internal/handlers/handlers.go: the handlers of networks and of mounts.
use zvm_extra.Base.{
  Bool, true, false, not, Option, none, some, Result, ok, err, List, [], ◌∷◌, ◌++◌, ◌&&◌,
  if◌then◌else◌,
}
use zvm_extra.Bytes.{Bytes, codes, bytes_eq, trim_prefix, to_lower}
use zvm_extra.Mounts
use zvm_extra.Mounts.Commands as MountCalls
use zvm_extra.Virsh.Tables.{Network}
use zvm_extra.Virsh.Hostdevs.{Interface, domain_interfaces}
use zvm_extra.Virsh.Commands.{network_list, switch_interface}
use zvm_extra.Handlers.Names.{valid_name, valid_mac, valid_nic_model}
use zvm_extra.Handlers.Server.{
  Server, Env, Request, Reply, answer, failure, next, stop, Handler, Answer, ◌>>=◌, ◌>>◌, gets,
  fail, fail_if, reply, or_fail, decoded, on_host, or_else, run, not_allowed, is_method, path_parts,
  check_vm,
}

pub record SwitchRequest : Type 0 where
  pub network : Bytes
  pub model : Bytes

pub data NetBody : Type 0 where
  networks : List Network → NetBody
  interfaces : List Interface → NetBody
  updated : NetBody

unfoldable pub is_network : Bytes → List Network → Bool
is_network name [] = false
is_network name (n ∷ ns) =
    let rest = is_network name ns in if bytes_eq n.name name then true else rest

-- The type of the first card of an address, empty where there is none; strings.EqualFold, of ASCII.
unfoldable pub type_of : Bytes → List Interface → Bytes
type_of mac [] = []
type_of mac (i ∷ is) =
    let rest = type_of mac is in if bytes_eq (to_lower i.mac) (to_lower mac) then i.kind else rest

module _ {W : Type 0} (env : Env W) where
  unfoldable pub net_networks : {B : Type 0} → Request B → Handler W NetBody (Reply NetBody)
  net_networks r = do
    fail_if (not (is_method r (codes "GET"))) 405 (codes "method not allowed")
    nets ← or_fail 500 [] (on_host (network_list env.virsh))
    reply 200 (NetBody.networks nets)

  unfoldable pub net_list : Bytes → Handler W NetBody (Reply NetBody)
  net_list vm = do
    cards ← or_fail 500 [] (on_host (domain_interfaces env.virsh env.interfaces vm))
    reply 200 (NetBody.interfaces cards)

  unfoldable pub check_switch : SwitchRequest → Handler W NetBody (Unit {0})
  check_switch q = do
    fail_if (not (valid_name q.network)) 400 (codes "invalid network name")
    fail_if (not (bytes_eq q.model []) && not (valid_nic_model q.model)) 400
        (codes "model must be one of virtio, e1000, e1000e, rtl8139")

  -- The target is a network of libvirt, and the card is one of the domain.
  unfoldable pub net_switch :
      Bytes → Bytes → Result SwitchRequest → Handler W NetBody (Reply NetBody)
  net_switch vm part body = do
    let mac = to_lower part
    fail_if (not (valid_mac mac)) 400 (codes "invalid mac address")
    q ← decoded 400 body
    check_switch q
    nets ← or_fail 500 [] (on_host (network_list env.virsh))
    fail_if (not (is_network q.network nets)) 400 (codes "unknown libvirt network: " ++ q.network)
    cards ← or_fail 500 [] (on_host (domain_interfaces env.virsh env.interfaces vm))
    fail_if (bytes_eq (type_of mac cards) []) 404 (codes "no NIC with that mac on this VM")
    or_fail 500 []
        (on_host (switch_interface env.virsh vm (type_of mac cards) mac q.network q.model))
    reply 200 NetBody.updated

  unfoldable pub net_item :
      Request SwitchRequest → Bytes → List Bytes → Handler W NetBody (Reply NetBody)
  net_item r vm [] = if is_method r (codes "GET") then net_list vm else not_allowed
  net_item r vm (mac ∷ []) =
      if is_method r (codes "PUT") then net_switch vm mac r.body else not_allowed
  net_item r vm (mac ∷ more ∷ rest) = not_allowed

  unfoldable pub net_domain : Request SwitchRequest → Answer W NetBody
  net_domain r = run (
      if bytes_eq (trim_prefix r.path (codes "/api/net/")) (codes "networks")
      then net_networks r
      else elim (path_parts (codes "/api/net/") r.path) [
        | [] ↦ not_allowed
        | vm ∷ parts ↦ check_vm vm >> net_item r vm parts
      ])

pub data MountBody : Type 0 where
  views : List Mounts.PublicView → MountBody
  view : Option Mounts.PublicView → MountBody
  mount_error : Option Mounts.PublicView → Bytes → MountBody
  deleted : MountBody

module _ {W : Type 0} (env : Env W) where
  unfoldable pub mount_view : Bytes → Server W → Option Mounts.PublicView
  mount_view id s = Mounts.get_view (env.mounter.proc_mounts s.host) id s.mounts

  unfoldable pub mount_upsert : Mounts.Entry → Server W → Result Mounts.Entry × Server W
  mount_upsert e s =
      let (r, m) =
        Mounts.upsert env.mounts_json (env.saves s.host) (env.random s.host) e s.mounts in
      (r, record s { mounts = m })

  unfoldable pub mount_delete : Bytes → Server W → Result (Unit {0}) × Server W
  mount_delete id s =
      let (r, m) = Mounts.delete env.mounts_json (env.saves s.host) id s.mounts in
      (r, record s { mounts = m })

  unfoldable pub do_mount : Bytes → Server W → Result (Unit {0}) × Server W
  do_mount id s =
      let (r, m, w) = MountCalls.mount env.mounter id s.mounts s.host in
      (r, record s { mounts = m; host = w })

  unfoldable pub do_unmount : Bytes → Server W → Result (Unit {0}) × Server W
  do_unmount id s =
      let (r, w) = MountCalls.unmount env.mounter id s.mounts s.host in (r, record s { host = w })

  -- An entry that mounts itself is mounted at once; an error of that leaves the entry.
  unfoldable pub mount_now : Mounts.Entry → Handler W MountBody (Unit {0})
  mount_now e s =
      if not (e.auto_mount && not (Mounts.is_mounted (env.mounter.proc_mounts s.host) e.mountpoint))
      then (next tt, s)
      else let (r, t) = do_mount e.id s in
        elim r [
          | ok _ ↦ (next tt, t)
          | err m ↦ (stop (answer 207 (MountBody.mount_error (mount_view e.id t) m)), t)
        ]

  unfoldable pub mounts_post : Result Mounts.Entry → Handler W MountBody (Reply MountBody)
  mounts_post body = do
    sent ← decoded 400 body
    e ← or_fail 400 [] (mount_upsert sent)
    mount_now e
    v ← gets (mount_view e.id)
    reply 201 (MountBody.view v)

  unfoldable pub mounts_collection : Request Mounts.Entry → Answer W MountBody
  mounts_collection r = run (
      if is_method r (codes "GET")
      then (λ s.
          reply 200 (MountBody.views (Mounts.list (env.mounter.proc_mounts s.host) s.mounts)) s)
      else if is_method r (codes "POST")
      then mounts_post r.body
      else not_allowed)

  -- The actions of the page.
  unfoldable pub mount_action :
      Request Mounts.Entry
      → (Server W → Result (Unit {0}) × Server W)
      → Bytes
      → Handler W MountBody (Reply MountBody)
  mount_action r act id = do
    fail_if (not (is_method r (codes "POST"))) 405 (codes "method not allowed")
    or_fail 500 [] act
    v ← gets (mount_view id)
    reply 200 (MountBody.view v)

  -- The entry of an id that has to be there.
  unfoldable pub known_mount : Bytes → Handler W MountBody Mounts.PublicView
  known_mount id s = elim (mount_view id s) [
    | none ↦ (stop (failure 404 (codes "not found")), s)
    | some v ↦ (next v, s)
  ]

  unfoldable pub mounts_put : Bytes → Result Mounts.Entry → Handler W MountBody (Reply MountBody)
  mounts_put id body = do
    _ ← known_mount id
    sent ← decoded 400 body
    _ ← or_fail 400 [] (mount_upsert (record sent { id = id }))
    v ← gets (mount_view id)
    reply 200 (MountBody.view v)

  unfoldable pub mounts_delete : Bytes → Handler W MountBody (Reply MountBody)
  mounts_delete id = do
    _ ← or_else (do_unmount id) tt
    or_fail 500 [] (mount_delete id)
    reply 200 MountBody.deleted

  unfoldable pub mount_entry : Request Mounts.Entry → Bytes → Handler W MountBody (Reply MountBody)
  mount_entry r id =
      if is_method r (codes "GET")
      then (do v ← known_mount id; reply 200 (MountBody.view (some v)))
      else if is_method r (codes "PUT")
      then mounts_put id r.body
      else if is_method r (codes "DELETE")
      then mounts_delete id
      else not_allowed

  unfoldable pub mounts_item : Request Mounts.Entry → Answer W MountBody
  mounts_item r = run (elim (path_parts (codes "/api/mounts/") r.path) [
    | [] ↦ not_allowed
    | id ∷ parts ↦ fail_if (bytes_eq id []) 400 (codes "id required") >> elim parts [
      | [] ↦ mount_entry r id
      | action ∷ more ↦
          if bytes_eq action (codes "mount")
          then mount_action r (do_mount id) id
          else if bytes_eq action (codes "unmount")
          then mount_action r (do_unmount id) id
          else fail 404 (codes "unknown action")
    ]
  ])
