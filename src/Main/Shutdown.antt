-- ===== src/Main/Shutdown.antt =====
-- src/sysmngr.c: how the daemon ends.
use sysmngr.Prelude.{◌≡◌, true, none}
use sysmngr.Uci.{Uci}
use sysmngr.Fwbank.{Blob}
use sysmngr.Main.{Daemon, World}

module _ (u : Uci) (b : Blob) where
  -- The loop runs and dies.
  abbrev pub DiesInLoop : World u b → Type 0
  DiesInLoop w =
      (w.bbfdm_ubus_regiter_init ≡ true)
      × (w.ubus_register_event_handler ≡ true)
      × (t : Daemon u b) × (w.uloop_run t ≡ none)
