-- ===== src/FwImages/Activate/Outcome.antt =====
-- src/fw_images.c: what an activation does, for every way that its windows and its calls turn out.
use sysmngr.Prelude.{
  ℕ, zero, ◌+◌, ◌-◌, ◌≤◌, ◌≡◌, Bool, true, false, ◌⊎◌, Option, none, some, List, [], ◌∷◌, ◌++◌,
  Text, codes, snprintf_s, length, text_eq, if◌then◌else◌,
}
use sysmngr.Prelude.Int.{ℤ, pos}
use sysmngr.Libc.{u32, strtoul, decimal}
use sysmngr.Fwbank.{Blob, Fork, child, Finish, Task, fwbank_path}
use sysmngr.Uci.{Uci}
use sysmngr.FwImages.{ImageLib}
use sysmngr.FwImages.Activate.{Window, CronLib, Device, cron_lines}
use sysmngr.FwImages.Activate.Windows.{Ordered}

abbrev pub has_child : Fork → Bool
has_child (child pid) = true
has_child _ = false

module _ (u : Uci) (b : Blob) (lib : ImageLib) (cron : CronLib) (fork : Fork) (opens : Bool)
    (restart : ℤ) (bank_id keep : Text) (s : Device u b lib) where
  -- There are windows, in order, and a bank; the crontab opens and gains their lines; nothing else changes, and the
  -- result is that of the restart of cron.
  abbrev pub Scheduled : Option (List Window) → ℕ × Device u b lib → Type 0
  Scheduled windows (res, after) =
      (ws : List Window) × (windows ≡ some ws)
      × Ordered ws
      × (1 ≤ length ws)
      × (opens ≡ true)
      × (res ≡ elim restart [ pos zero ↦ 0 | _ ↦ cron.command_failure ])
      × (after.crontab ≡ s.crontab ++ cron_lines cron bank_id keep (length ws - 1) 0 ws)
      × (after.images ≡ s.images)
      × (after.reboots ≡ s.reboots)

  -- There is no window; a task that calls the bank script for the bank is added, one reboot is forked, the crontab
  -- stays, the configuration is copied to the bank if it is to be kept, and the result is 0.
  abbrev pub Switched : Option (List Window) → ℕ × Device u b lib → Type 0
  Switched windows (res, after) =
      (pid : ℕ) × (t : Task) × (windows ≡ some [])
      × (fork ≡ child pid)
      × (res ≡ 0)
      × (after.crontab ≡ s.crontab)
      × (after.reboots ≡ s.reboots + 1)
      × (after.images.config ≡ s.images.config)
      × (after.images.copies
          ≡ (if text_eq keep (codes "1") then s.images.copies + 1 else s.images.copies))
      × (after.images.fwbank.tasks ≡ s.images.fwbank.tasks ++ (t ∷ []))
      × (t.finishcb ≡ some Finish.set_bootbank)
      × (t.pid ≡ pid)
      × (t.command
          ≡ snprintf_s 128 (
              codes "echo '{\"bank\":"
              ++ (decimal (u32 (strtoul bank_id))
                  ++ (codes "}' | " ++ (fwbank_path ++ codes " call set_bootbank 2>/dev/null")))))

  -- Nothing changes, and the result says why.
  abbrev pub Refused : Option (List Window) → ℕ × Device u b lib → Type 0
  Refused windows (res, after) =
      (after ≡ s)
      × (((windows ≡ none) × (res ≡ cron.invalid_argument))
          ⊎ ((res ≡ cron.command_failure)
              × ((bank_id ≡ [])
                  ⊎ (((windows ≡ some []) × (has_child fork ≡ false)) ⊎ (opens ≡ false)))))

  abbrev pub Outcome : Option (List Window) → ℕ × Device u b lib → Type 0
  Outcome windows r = Scheduled windows r ⊎ (Switched windows r ⊎ Refused windows r)
