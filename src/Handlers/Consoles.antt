-- ===== src/Handlers/Consoles.antt =====
-- internal/handlers/handlers.go: the handlers of the VNC console and of the TPM.
pub mod Exposed
use zvm_extra.Base.{
  Bool, true, false, not, Option, none, some, Result, ok, err, List, [], ◌∷◌, ◌++◌, ◌&&◌, ◌||◌,
  if◌then◌else◌,
}
use zvm_extra.Base.Int.{ℤ, pos, ltb_ℤ, eq_ℤ}
use zvm_extra.Bytes.{Bytes, codes, bytes_eq, trim_prefix, trim_suffix}
use zvm_extra.Vnc.{valid_password}
use zvm_extra.Vnc.Store as VncStore
use zvm_extra.Tpm
use zvm_extra.Virsh.Client.{
  vnc_info, vnc_live_info, vnc_listen_info, vnc_live_listen, set_vnc_listen, set_vnc_password,
}
use zvm_extra.Virsh.TpmXml.{Firmware, tpm_info, tpm_live_info, set_tpm, firmware_info}
use zvm_extra.Handlers.Server.{
  Server, Env, Request, Reply, Step, Handler, Answer, ◌>>=◌, ◌>>◌, pure, gets, fail, fail_if, reply,
  or_fail, decoded, on_host, or_else, run, not_allowed, is_method, check_vm,
}

pub record VncRequest : Type 0 where
  pub password : Bytes
  pub listen : Bytes
  pub port : ℤ

-- What the status says of the running console: nothing where it could not be looked at.
pub record Live : Type 0 where
  pub protected : Bool
  pub restart_required : Bool

pub record LiveListen : Type 0 where
  pub listen : Bytes
  pub port : ℤ
  pub restart_required : Bool

pub record VncStatus : Type 0 where
  pub vm : Bytes
  pub present : Bool
  pub protected : Bool
  pub listen : Bytes
  pub pinned : Bool
  pub port : ℤ
  pub autoport : Bool
  pub running : Bool
  pub live : Result Live
  pub live_listen : Option LiveListen

pub data VncBody : Type 0 where
  status : VncStatus → VncBody
  listening : Bytes → ℤ → VncBody
  protecting : Bytes → ℤ → VncBody
  cleared : VncBody

abbrev local_only : Bytes
local_only = codes "127.0.0.1"

abbrev all_interfaces : Bytes
all_interfaces = codes "0.0.0.0"

unfoldable pub is_listen : Bytes → Bool
is_listen l = bytes_eq l [] || (bytes_eq l local_only || bytes_eq l all_interfaces)

unfoldable pub is_port : ℤ → Bool
is_port p = eq_ℤ p (pos 0) || (not (ltb_ℤ p (pos 5900)) && not (ltb_ℤ (pos 65535) p))

-- The password of the request, or the pinned one where it has none.
unfoldable pub with_pinned : Option VncStore.Entry → VncRequest → VncRequest
with_pinned none q = q
with_pinned (some e) q = if bytes_eq q.password [] then record q { password = e.password } else q

-- The password that was pinned before.
unfoldable pub pinned_password : Option VncStore.Entry → Bytes
pinned_password none = []
pinned_password (some e) = e.password

unfoldable pub is_some : {A : Type 0} → Option A → Bool
is_some none = false
is_some (some a) = true

abbrev refusal : Bytes → Bytes
refusal listen =
    if bytes_eq listen all_interfaces
    then codes
        "a console on all interfaces needs a password — set one, or choose 127.0.0.1 (local only)"
    else codes "password must be 1–8 characters, printable ASCII, without quotes or <>&"

-- The running console; an error of looking is kept.
unfoldable pub live_of : Bool → Result (Bool × Bool) → Result Live
live_of has_password (err m) = err m
live_of has_password (ok (running, live)) =
    ok (record { protected = live; restart_required = running && (has_password && not live) })

unfoldable pub is_running : Result (Bool × Bool) → Bool
is_running (err m) = false
is_running (ok (running, live)) = running

unfoldable pub live_listen_of : Bytes → Bool → Result (Bool × Bytes × ℤ) → Option LiveListen
live_listen_of listen running (err m) = none
live_listen_of listen running (ok (_, live, port)) =
    if running
    then some (record {
      listen = live;
      port = port;
      restart_required = not (bytes_eq live []) && not (bytes_eq live listen);
    })
    else none

module _ {W : Type 0} (env : Env W) where
  unfoldable pub vnc_set : VncStore.Entry → Server W → Result (Unit {0}) × Server W
  vnc_set e s =
      let (r, t) = VncStore.set env.vnc_json (env.saves s.host) e s.vnc in (r, record s { vnc = t })

  unfoldable pub vnc_remove : Bytes → Server W → Result (Unit {0}) × Server W
  vnc_remove vm s =
      let (r, t) = VncStore.remove env.vnc_json (env.saves s.host) vm s.vnc in
      (r, record s { vnc = t })

  unfoldable pub vnc_get : Bytes → Handler W VncBody (Reply VncBody)
  vnc_get vm = do
    info ← or_fail 500 [] (λ s. (vnc_info env.console vm s.host, s))
    pinned ← gets (λ s. is_some (VncStore.get vm s.vnc))
    live ← gets (λ s. vnc_live_info env.console vm s.host)
    bound ←
        or_else (λ s. (vnc_listen_info env.console vm s.host, s))
          (record { listen = []; port = pos 0; autoport = false })
    at ← gets (λ s. vnc_live_listen env.console vm s.host)
    reply 200 (
        VncBody.status (record {
          vm = vm;
          present = info.found;
          protected = info.has_password;
          listen = info.listen;
          pinned = pinned;
          port = bound.port;
          autoport = bound.autoport;
          running = is_running live;
          live = live_of info.has_password live;
          live_listen = live_listen_of info.listen (is_running live) at;
        }))

  -- A console that is bound to the local address needs no password.
  unfoldable pub vnc_local : Bytes → VncRequest → Handler W VncBody (Reply VncBody)
  vnc_local vm q = do
    or_fail 500 [] (on_host (set_vnc_listen env.console vm q.listen q.port))
    pinned ← gets (λ s. VncStore.get vm s.vnc)
    or_fail 500 (codes "listen set, but pinning failed: ") (
        vnc_set
          (record { vm = vm; password = pinned_password pinned; listen = q.listen; port = q.port }))
    reply 200 (VncBody.listening q.listen q.port)

  unfoldable pub vnc_protect : Bytes → VncRequest → Handler W VncBody (Reply VncBody)
  vnc_protect vm q = do
    fail_if (not (valid_password q.password)) 400 (refusal q.listen)
    or_fail 500 [] (on_host (set_vnc_password env.console vm q.password))
    (if bytes_eq q.listen []
        then pure tt
        else or_fail 500 (codes "password set, but listen address failed: ")
            (on_host (set_vnc_listen env.console vm q.listen q.port)))
    or_fail 500 (codes "password set, but pinning failed: ")
        (vnc_set (record { vm = vm; password = q.password; listen = q.listen; port = q.port }))
    reply 200 (VncBody.protecting q.listen q.port)

  unfoldable pub vnc_post : Bytes → Result VncRequest → Handler W VncBody (Reply VncBody)
  vnc_post vm body = do
    sent ← decoded 400 body
    pinned ← gets (λ s. VncStore.get vm s.vnc)
    let q = with_pinned pinned sent
    fail_if (not (is_listen q.listen)) 400
        (codes "listen must be 127.0.0.1 (local only) or 0.0.0.0 (all interfaces)")
    fail_if (not (is_port q.port)) 400
        (codes "port must be 0 (automatic) or between 5900 and 65535")
    if bytes_eq q.password [] && bytes_eq q.listen local_only
        then vnc_local vm q
        else vnc_protect vm q

  unfoldable pub vnc_delete : Bytes → Handler W VncBody (Reply VncBody)
  vnc_delete vm = do
    _ ← or_else (vnc_remove vm) tt
    or_fail 500 [] (on_host (set_vnc_password env.console vm []))
    reply 200 VncBody.cleared

  unfoldable pub vnc_domain : Request VncRequest → Answer W VncBody
  vnc_domain r = run (
      let vm = trim_suffix (trim_prefix r.path (codes "/api/vnc/")) (codes "/") in
      check_vm vm
      >> (if is_method r (codes "GET")
          then vnc_get vm
          else if is_method r (codes "POST")
          then vnc_post vm r.body
          else if is_method r (codes "DELETE")
          then vnc_delete vm
          else not_allowed))

pub record TpmStatus : Type 0 where
  pub vm : Bytes
  pub present : Bool
  pub model : Bytes
  pub version : Bytes
  pub pinned : Bool
  pub running : Bool
  pub live : Result Live
  pub firmware : Result Firmware

pub data TpmBody : Type 0 where
  status : TpmStatus → TpmBody
  added : TpmBody
  removed : TpmBody

module _ {W : Type 0} (env : Env W) where
  unfoldable pub tpm_pin : Bytes → Server W → Result (Unit {0}) × Server W
  tpm_pin vm s =
      let (r, t) = Tpm.pin env.tpm_json (env.saves s.host) vm s.tpm in (r, record s { tpm = t })

  unfoldable pub tpm_unpin : Bytes → Server W → Result (Unit {0}) × Server W
  tpm_unpin vm s =
      let (r, t) = Tpm.unpin env.tpm_json (env.saves s.host) vm s.tpm in (r, record s { tpm = t })

  -- A call whose result is kept, its error too.
  unfoldable pub attempt :
      {B A : Type 0} → (Server W → Result A × Server W) → Handler W B (Result A)
  attempt m s = let (r, t) = m s in (Step.next r, t)

  unfoldable pub tpm_get : Bytes → Handler W TpmBody (Reply TpmBody)
  tpm_get vm = do
    info ← or_fail 500 [] (on_host (tpm_info env.virsh vm))
    pinned ← gets (λ s. Tpm.pinned vm s.tpm)
    live ← attempt (on_host (tpm_live_info env.virsh vm))
    fw ← attempt (on_host (firmware_info env.virsh vm))
    reply 200 (
        TpmBody.status (record {
          vm = vm;
          present = info.present;
          model = info.model;
          version = info.version;
          pinned = pinned;
          running = is_running live;
          live = live_of info.present live;
          firmware = fw;
        }))

  unfoldable pub tpm_post : Bytes → Handler W TpmBody (Reply TpmBody)
  tpm_post vm = do
    or_fail 500 [] (on_host (set_tpm env.virsh vm true))
    or_fail 500 (codes "TPM added, but pinning failed: ") (tpm_pin vm)
    reply 200 TpmBody.added

  unfoldable pub tpm_delete : Bytes → Handler W TpmBody (Reply TpmBody)
  tpm_delete vm = do
    _ ← or_else (tpm_unpin vm) tt
    or_fail 500 [] (on_host (set_tpm env.virsh vm false))
    reply 200 TpmBody.removed

  unfoldable pub tpm_domain : Request (Unit {0}) → Answer W TpmBody
  tpm_domain r = run (
      let vm = trim_suffix (trim_prefix r.path (codes "/api/tpm/")) (codes "/") in
      check_vm vm
      >> (if is_method r (codes "GET")
          then tpm_get vm
          else if is_method r (codes "POST")
          then tpm_post vm
          else if is_method r (codes "DELETE")
          then tpm_delete vm
          else not_allowed))
