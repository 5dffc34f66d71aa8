-- ===== src/Vnc/Store/Reconcile.antt =====
-- The VNC reconciler restores what is pinned, and comes to rest.
use zvm_extra.FileStore.{Store}
