-- ===== src/Examples/Consoles.antt =====
-- A VNC console with a password and an address, in the domain's XML and in the store.
use zvm_extra.Base.{
  ◌≡◌, refl, true, false, ◌≤◌, ◌↔◌, Option, none, some, ok, [], ◌∷◌, arith, All, if◌then◌else◌,
  length,
}
use zvm_extra.Base.Int.{ℤ, pos, leb_ℤ}
use zvm_extra.Bytes.{Bytes, codes, bytes_eq}
use zvm_extra.Bytes.Laws.{bytes_eq_iff, bytes_eq_refl}
use zvm_extra.Dict.{Dict, get-put}
use zvm_extra.Dict
use zvm_extra.FileStore.{Codec, Store}
use zvm_extra.Examples.Hosts.{
  Attached, has, has-same, Has-more, running, no_files, all_well, codec_of, codec_of-ReadsBack,
}
use zvm_extra.Vnc.{valid_password}
use zvm_extra.Vnc.Password.{IsHarmless, valid_password_iff}
use zvm_extra.Vnc.Store.{Entry, ListenInfo, Controller, key, all, get, set, new_store}
use zvm_extra.Vnc.Store.Laws.{Shows, IsLawful}
use zvm_extra.Vnc.Store.Saved.{Edit, edited, left_by, edit, reopen-edit_console}
use zvm_extra.Virsh.Graphics.{Tag, find_tag, vnc_open_tag, tag_drop_attr}
use zvm_extra.Virsh.Graphics.Tags.{Search, vnc_open_tag_ends}
use zvm_extra.Virsh.Client.{Virsh, vnc_has_password, set_vnc_password}
use zvm_extra.Virsh.Client.Password.{KeepsConsole, client_protects}
use zvm_extra.Virsh.Graphics.Password.{PasswordSet, password_reads_back}

-- The passwords that are set, and the address of each console.
record World : Type 0 where
  locked : Attached
  listens : Dict ListenInfo

abbrev shown : Option ListenInfo → ListenInfo
shown none = record { listen = []; port = pos 0; autoport = false }
shown (some info) = info

abbrev listening : Bytes → ℤ → ListenInfo
listening listen port = record { listen = listen; port = port; autoport = leb_ℤ port (pos 0) }

abbrev host : Controller World
host = record {
  state = λ vm w. running;
  vnc_has_password = λ vm w. ok (has vm (codes "passwd") w.locked);
  set_vnc_password = λ vm pw w. (ok tt, record w { locked = (vm, codes "passwd") ∷ w.locked });
  vnc_listen_info = λ vm w. ok (shown (Dict.get w.listens vm));
  set_vnc_listen = λ vm listen port w.
      (ok tt, record w { listens = Dict.put vm (listening listen port) w.listens });
}

listening-Shows : (listen : Bytes) (port : ℤ) → Shows listen port (listening listen port)
listening-Shows listen port = (refl, (λ h. (refl, ground arith)), λ h. ground arith)

host-IsLawful : IsLawful host
host-IsLawful = record {
  Sane = λ w. Unit;
  sane-set_password = λ dom pw w _ h. h;
  sane-set_listen = λ dom listen port w _ h. h;
  state-set_password = λ vm dom pw w. refl;
  state-set_listen = λ vm dom listen port w. refl;
  password-set = λ vm pw w _ _ _. rw (has-same vm (codes "passwd") w.locked);
  password_kept = λ vm dom pw w _ _ h.
      rw (Has-more vm (codes "passwd") dom (codes "passwd") w.locked (ground (arith, h)));
  password-set_listen = λ vm dom listen port w _ _ h. h;
  listen-set = λ vm listen port w _ _ _. (
    listening listen port,
    rw (get-put vm vm (listening listen port) w.listens, bytes_eq_refl vm),
    listening-Shows listen port,
  );
  listen_kept = λ vm dom listen port w ne _.
      ground (arith, get-put dom vm (listening listen port) w.listens, bytes_eq_iff dom vm, ne);
  listen-set_password = λ vm dom pw w _ _. refl;
}

abbrev console : Entry
console = record {
  vm = codes "debian";
  password = codes "s3cret";
  listen = codes "0.0.0.0";
  port = pos 5901;
}

abbrev pins : Store Entry
pins = record { entries = (key console, console) ∷ []; disk = no_files }

abbrev open_world : World
open_world = record { locked = []; listens = [] }

abbrev codec : Codec Entry
codec = codec_of (codes "[{}]") (console ∷ [])

abbrev empty_store : Store Entry
empty_store = record { entries = []; disk = no_files }

reopen-edit_console_example :
    (t : Store Entry) × (new_store codec none
        (edit codec all_well (Edit.setting console) empty_store).1.disk
      ≡ ok t)
    × ((vm : Bytes)
        → get vm t ≡ (
            if bytes_eq (edited (Edit.setting console)) vm
            then left_by (Edit.setting console)
            else get vm empty_store))
unfolding all Dict.values set Dict.put Dict.remove
reopen-edit_console_example =
    reopen-edit_console codec all_well empty_store tt (Edit.setting console)
      (codec_of-ReadsBack b'[' (codes "{}]") (console ∷ [])) refl

valid_password_iff_example : (valid_password (codes "s3cret") ≡ true) ↔ (
    (1 ≤ length (codes "s3cret")) × (length (codes "s3cret") ≤ 8) × All IsHarmless (codes "s3cret"))
valid_password_iff_example = valid_password_iff (codes "s3cret")

abbrev old_xml : Bytes
old_xml = codes "<a><graphics type='vnc' passwd='old'/></a>"

abbrev old_tag : Tag
old_tag = record { text = codes "<graphics type='vnc' passwd='old'/>"; start = 3; stop = 38 }

vnc_open_tag_ends_example :
    Search 0 old_xml (vnc_open_tag old_xml) × (find_tag 100 0 old_xml ≡ vnc_open_tag old_xml)
vnc_open_tag_ends_example = vnc_open_tag_ends 100 old_xml (omega arith)

password_reads_back_example : PasswordSet old_xml old_tag (codes "new")
unfolding vnc_open_tag zvm_extra.Bytes.index zvm_extra.Bytes.index_byte zvm_extra.Bytes.contains
    valid_password tag_drop_attr
password_reads_back_example = password_reads_back old_xml (codes "new") refl refl refl

-- One domain, whose document is the world.
abbrev one_domain : Virsh Bytes
one_domain = record {
  inactive_xml = λ domain w. ok w;
  live_xml = λ domain w. ok w;
  state = λ domain w. running;
  write_temp_xml = λ xml w. ok tt;
  define = λ xml w. (ok tt, xml);
}

one_domain-KeepsConsole : KeepsConsole one_domain (codes "debian") old_xml
one_domain-KeepsConsole old pw xml i e h = (xml, refl, refl)

client_protects_example :
    vnc_has_password one_domain
      (codes "debian")
      (set_vnc_password one_domain (codes "debian") (codes "new") old_xml).1
    ≡ ok true
unfolding vnc_open_tag zvm_extra.Bytes.index zvm_extra.Bytes.index_byte zvm_extra.Bytes.contains
    valid_password tag_drop_attr set_vnc_password zvm_extra.Virsh.Graphics.set_graphics_password_xml
client_protects_example =
    client_protects one_domain (codes "debian") (codes "new") old_xml {tag = old_tag} old_xml
      one_domain-KeepsConsole refl refl refl refl refl
