-- ===== src/Virsh/Client/Password.antt =====
-- A password that the client sets protects the console.
use zvm_extra.Base.{◌≡◌, true, some, ok, arith}
use zvm_extra.Bytes.{Bytes, codes}
use zvm_extra.Vnc.{valid_password}
use zvm_extra.Virsh.Graphics.{
  Tag, is_vnc, vnc_open_tag, tag_drop_attr, vnc_graphics_info, set_graphics_password_xml,
}
use zvm_extra.Virsh.Graphics.Password.{password_reads_back}
use zvm_extra.Virsh.Client.{Virsh, vnc_info, vnc_has_password, set_vnc_password, edit, define_xml}

module _ {W : Type 0} (virsh : Virsh W) where
  -- What libvirt does: the document of a domain with another password, once it is defined, is
  -- dumped with the same console, however else libvirt writes it.
  abbrev pub KeepsConsole : Bytes → W → Type 0
  KeepsConsole domain w =
      (old pw xml : Bytes)
      → virsh.inactive_xml domain w ≡ ok old
      → set_graphics_password_xml old pw ≡ ok xml
      → (virsh.define xml w).0 ≡ ok tt
      → (new : Bytes) × (virsh.inactive_xml domain (virsh.define xml w).1 ≡ ok new)
        × (vnc_graphics_info new ≡ vnc_graphics_info xml)

  edited :
      (domain pw old xml : Bytes) (w : W)
      → virsh.inactive_xml domain w ≡ ok old
      → set_graphics_password_xml old pw ≡ ok xml
      → set_vnc_password virsh domain pw w ≡ define_xml virsh xml w
  unfolding set_vnc_password edit
  edited domain pw old xml w i e = ground (arith, i, e)

  defined :
      (xml : Bytes) (w : W)
      → (define_xml virsh xml w).0 ≡ ok tt
      → ((virsh.define xml w).0 ≡ ok tt) × ((define_xml virsh xml w).1 ≡ (virsh.define xml w).1)
  unfolding define_xml
  defined xml w h = (ground arith, ground arith)

  has_password_of :
      (domain new : Bytes) (w : W)
      → virsh.inactive_xml domain w ≡ ok new
      → (vnc_graphics_info new).has_password ≡ true
      → vnc_has_password virsh domain w ≡ ok true
  unfolding vnc_has_password vnc_info
  has_password_of domain new w i p = ground (arith, i, p)

  -- Where libvirt keeps the console of a document that it defines, and SetVNCPassword with a valid
  -- password succeeds at a domain with a VNC console, VNCHasPassword says afterwards that the
  -- console is protected. The type attribute must not stand in the value of the old password.
  pub client_protects :
      (domain pw old : Bytes) {tag : Tag} (w : W)
      → KeepsConsole domain w
      → virsh.inactive_xml domain w ≡ ok old
      → vnc_open_tag old ≡ some tag
      → valid_password pw ≡ true
      → is_vnc (tag_drop_attr tag.text (codes "passwd")) ≡ true
      → (set_vnc_password virsh domain pw w).0 ≡ ok tt
      → vnc_has_password virsh domain (set_vnc_password virsh domain pw w).1 ≡ ok true
  client_protects domain pw old w keeps i found valid typed h =
      let set = password_reads_back old pw found valid typed in
      let same = edited domain pw old set.xml w i set.written in
      let (done, world) = defined set.xml w (rw same at h) in
      let (new, dumped, console) = keeps old pw set.xml i set.written done in
      rw (same, world) (has_password_of domain new _ dumped (rw console set.protected))
