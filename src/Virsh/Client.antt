-- ===== src/Virsh/Client.antt =====
-- internal/virsh/vnc.go: the console calls of the virsh client, over what `virsh` answers.
pub mod Password
use zvm_extra.Base.{
  Bool, true, false, not, [], Option, none, some, Result, ok, err, ◌>>=◌, if◌then◌else◌,
}
use zvm_extra.Base.Int.{ℤ, pos}
use zvm_extra.Bytes.{Bytes, codes, bytes_eq}
use zvm_extra.Vnc.Store.{ListenInfo}
use zvm_extra.Virsh.Graphics.{GraphicsInfo, vnc_graphics_info, set_graphics_password_xml}
use zvm_extra.Virsh.Listen.{vnc_graphics_port, set_graphics_listen_xml}

-- The commands that the calls run, over a world `W` of domains: `dumpxml --inactive` and `dumpxml`,
-- each with --security-info, `domstate`, and `define` of a temporary file, or the error of that
-- file.
pub record Virsh (W : Type 0) : Type 0 where
  pub inactive_xml : Bytes → W → Result Bytes
  pub live_xml : Bytes → W → Result Bytes
  pub state : Bytes → W → Result Bytes
  pub write_temp_xml : Bytes → W → Result (Unit {0})
  pub define : Bytes → W → Result (Unit {0}) × W

module _ {W : Type 0} (virsh : Virsh W) where
  unfoldable pub vnc_info : Bytes → W → Result GraphicsInfo
  vnc_info domain w = do xml ← virsh.inactive_xml domain w; ok (vnc_graphics_info xml)

  -- No console: nothing to repair.
  unfoldable pub vnc_has_password : Bytes → W → Result Bool
  unfolding vnc_info
  vnc_has_password domain w = do
    info ← vnc_info domain w
    ok (if not info.found then true else info.has_password)

  -- Whether the domain runs, and whether its console has a password.
  unfoldable pub vnc_live_info : Bytes → W → Result (Bool × Bool)
  vnc_live_info domain w = do
    state ← virsh.state domain w
    if not (bytes_eq state (codes "running")) then ok (false, false) else (do
      xml ← virsh.live_xml domain w
      ok (
        true,
        if not (vnc_graphics_info xml).found then true else (vnc_graphics_info xml).has_password,
      ))

  unfoldable pub vnc_listen_info : Bytes → W → Result ListenInfo
  vnc_listen_info domain w = do
    xml ← virsh.inactive_xml domain w
    ok (
        if not (vnc_graphics_info xml).found
        then record { listen = []; port = pos 0; autoport = false }
        else record {
          listen = (vnc_graphics_info xml).listen;
          port = (vnc_graphics_port xml).0;
          autoport = (vnc_graphics_port xml).1;
        })

  -- Whether the domain runs, with the address and the port of its console.
  unfoldable pub vnc_live_listen : Bytes → W → Result (Bool × Bytes × ℤ)
  vnc_live_listen domain w = do
    state ← virsh.state domain w
    if not (bytes_eq state (codes "running")) then ok (false, [], pos 0) else (do
      xml ← virsh.live_xml domain w
      ok (
          if not (vnc_graphics_info xml).found
          then (true, [], pos 0)
          else (true, (vnc_graphics_info xml).listen, (vnc_graphics_port xml).0)))

  -- writeTempXML and `define`.
  define_xml : Bytes → W → Result (Unit {0}) × W
  define_xml xml w = elim (virsh.write_temp_xml xml w) [
    | err m ↦ (err m, w)
    | ok _ ↦ virsh.define xml w
  ]

  -- What the two setters share: read, edit, define.
  edit : Bytes → (Bytes → Result Bytes) → W → Result (Unit {0}) × W
  unfolding define_xml
  edit domain change w = elim (virsh.inactive_xml domain w) [
    | err m ↦ (err m, w)
    | ok xml ↦ elim (change xml) [ err m ↦ (err m, w) | ok modified ↦ define_xml modified w ]
  ]

  unfoldable pub set_vnc_listen : Bytes → Bytes → ℤ → W → Result (Unit {0}) × W
  unfolding edit
  set_vnc_listen domain listen port w =
      edit domain (λ xml. set_graphics_listen_xml xml listen port) w

  unfoldable pub set_vnc_password : Bytes → Bytes → W → Result (Unit {0}) × W
  unfolding edit
  set_vnc_password domain pw w = edit domain (λ xml. set_graphics_password_xml xml pw) w
