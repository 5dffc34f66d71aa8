-- ===== src/Examples/Boots.antt =====
-- Three domains that start at boot.
use zvm_extra.Base.{◌≡◌, ◌⊎◌, true, false, ok, List, [], ◌∷◌, All}
use zvm_extra.Base.Int.{pos}
use zvm_extra.Bytes.{Bytes, codes}
use zvm_extra.FileStore.{Store}
use zvm_extra.Examples.Hosts.{no_files}
use zvm_extra.Autostart.{Entry, Controller, all, run, watch}
use zvm_extra.Autostart.Watch.{IsWarranted, MayRestart, restarted, watch-IsWarranted}
use zvm_extra.Autostart.Calls.{Call, Trace, starts}
use zvm_extra.Autostart.Order.{started, IsOrdered}
use zvm_extra.Autostart.Boot.{MayBoot, boot_in_order}

abbrev router : Entry
router = record {
  name = codes "router";
  enabled = true;
  order = pos 1;
  delay_s = pos 10;
  watchdog = true;
}

abbrev desktop : Entry
desktop = record {
  name = codes "desktop";
  enabled = true;
  order = pos 2;
  delay_s = pos 0;
  watchdog = false;
}

abbrev store : Store Entry
store = record {
  entries = (codes "desktop", desktop) ∷ (codes "router", router) ∷ [];
  disk = no_files;
}

-- The domains that were started.
abbrev host : Controller (List Bytes)
host = record {
  list_domains = λ w. (ok (codes "router" ∷ codes "desktop" ∷ []), w);
  state = λ name w. ok (codes "shut off");
  start = λ name w. (ok tt, name ∷ w);
  set_autostart = λ name on w. (ok tt, w);
  marked = λ w. false;
  write_marker = λ w. (ok tt, w);
  sleep = λ s w. w;
}

boot_in_order_example :
    (cs : List Call) × Trace host (MayBoot host (all store)) [] cs (run host store []).1
    × (starts cs ≡ started (run host store []).0)
    × IsOrdered (starts cs)
boot_in_order_example = boot_in_order host store []

abbrev booted : Controller (List Bytes)
booted = record host { marked = λ w. true }

watch-IsWarranted_example :
    ((cs : List Call) × Trace booted (MayRestart booted (all store)) [] cs (watch booted store []).1
      × (starts cs ≡ restarted (watch booted store []).0))
    × All IsWarranted (watch booted store []).0
    × ((true ≡ true) ⊎ (watch booted store [] ≡ ([], [])))
watch-IsWarranted_example = watch-IsWarranted booted store []
