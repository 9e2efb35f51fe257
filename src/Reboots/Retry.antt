-- ===== src/Reboots/Retry.antt =====
-- src/reboots.c: the retries that wait for the reset reason, as rounds of the timer.
use sysmngr.Prelude.{
  ℕ, zero, suc, ◌+◌, ◌≤◌, ◌<◌, ◌≡◌, refl, ap, ◌∙◌, true, false, Bool-cases, inl, inr, Option, none,
  some, List, [], ◌∷◌, if◌then◌else◌, arith, length, lt→ltb, le→ltb_false,
}
use sysmngr.Uci.{Uci}
use sysmngr.Reboots.{
  BootLib, Boot, State, check_valid_reset_reason_file, sysmngr_register_boot_action,
  sysmngr_reboots_init, reboot_check_timer, reboot_max_retries,
}

module _ (u : Uci) (lib : BootLib) where
  -- The daemon starts, and uloop fires the timer if one is pending, once for each set of files found.
  abbrev pub fire_at : Option ℕ → Boot → State u → State u
  fire_at none boot s = s
  fire_at (some ms) boot s = reboot_check_timer u lib boot s

  abbrev pub fire : Boot → State u → State u
  fire boot s = fire_at s.timer boot s

  abbrev pub run_timers : List Boot → State u → State u
  run_timers [] s = s
  run_timers (b ∷ bs) s = run_timers bs (fire b s)

  -- The round in which the boot action runs: the first with a reason in the file, or the last of the
  -- `k` retries that are left.
  abbrev pub deciding_round : ℕ → Boot → List Boot → Boot
  deciding_round zero b bs = b
  deciding_round (suc k) b [] = b
  deciding_round (suc k) b (b' ∷ bs) =
      if check_valid_reset_reason_file lib b then b else deciding_round k b' bs

  -- The boot action has run in the round, on the configuration of `s`, and nothing more is pending.
  pub record DoneIn (b : Boot) (s s' : State u) : Type 0 where
    pub recorded : s'.config ≡ (sysmngr_register_boot_action u lib b s).config
    pub done : s'.locked ≡ true
    pub idle : s'.timer ≡ none

  run_timers-idle : (bs : List Boot) (s : State u) → s.timer ≡ none → run_timers bs s ≡ s
  run_timers-idle [] s h = refl
  run_timers-idle (b ∷ bs) s h =
      ap (run_timers bs) (ap (λ t. fire_at t b s) h) ∙ run_timers-idle bs s h

  register-DoneIn :
      (b : Boot) (s : State u)
      → s.locked ≡ false
      → s.timer ≡ none
      → DoneIn b s (sysmngr_register_boot_action u lib b s)
  unfolding sysmngr_register_boot_action
  register-DoneIn b s h t = record { recorded = refl; done = rw h; idle = rw h t }

  -- The action reads of the state the lock and the configuration alone.
  register-config :
      (b : Boot) (s : State u) (n : ℕ)
      → (sysmngr_register_boot_action u lib b (record s { retry_count = n; timer = none })).config
        ≡ (sysmngr_register_boot_action u lib b s).config
  unfolding sysmngr_register_boot_action
  register-config b s n = ground arith

  init-valid :
      (b : Boot) (s : State u)
      → s.locked ≡ false
      → check_valid_reset_reason_file lib b ≡ true
      → sysmngr_reboots_init u lib b s ≡ sysmngr_register_boot_action u lib b s
  unfolding sysmngr_reboots_init
  init-valid b s h v = rw (h, v)

  init-exhausted :
      (b : Boot) (s : State u)
      → s.locked ≡ false
      → s.retry_count ≡ reboot_max_retries
      → sysmngr_reboots_init u lib b s ≡ sysmngr_register_boot_action u lib b s
  unfolding sysmngr_reboots_init
  init-exhausted b s h r = elim (Bool-cases (check_valid_reset_reason_file lib b)) [
    | inl v ↦ rw (h, v)
    | inr w ↦ rw (h, w, le→ltb_false s.retry_count 15 (omega arith))
  ]

  init-retry :
      (b : Boot) (s : State u)
      → s.locked ≡ false
      → check_valid_reset_reason_file lib b ≡ false
      → s.retry_count < reboot_max_retries
      → sysmngr_reboots_init u lib b s
        ≡ record s { retry_count = s.retry_count + 1; timer = some 3000 }
  unfolding sysmngr_reboots_init
  init-retry b s h v r = rw (h, v, lt→ltb _ _ r)

  -- If the boot action has not run and k of the 15 retries are left, then after a first call and at
  -- least k rounds of the timer the action has run exactly as it would have in the deciding round alone,
  -- that is in the first round with a reason in the file, or in the last; no timer is pending then.
  pub reboots_init-completes :
      (k : ℕ) (b : Boot) (bs : List Boot) (s : State u)
      → s.locked ≡ false
      → s.timer ≡ none
      → s.retry_count + k ≡ reboot_max_retries
      → k ≤ length bs
      → DoneIn (deciding_round k b bs) s (run_timers bs (sysmngr_reboots_init u lib b s))
  unfolding reboot_check_timer
  reboots_init-completes zero b bs s h t r l =
      let d = register-DoneIn b s h t in
      rw (init-exhausted b s h (omega arith))
        (rw (run_timers-idle bs (sysmngr_register_boot_action u lib b s) d.idle) d)
  reboots_init-completes (suc k) b [] s h t r l = absurd (omega arith)
  reboots_init-completes (suc k) b (b' ∷ bs) s h t r l =
      elim (Bool-cases (check_valid_reset_reason_file lib b)) [
        | inl v ↦
            let d = register-DoneIn b s h t in
            rw (v, init-valid b s h v)
              (rw (run_timers-idle (b' ∷ bs) (sysmngr_register_boot_action u lib b s) d.idle) d)
        | inr w ↦
            let later =
              reboots_init-completes k b' bs
                (record s { retry_count = s.retry_count + 1; timer = none }) h refl (omega arith)
                (omega arith) in
            rw (w, init-retry b s h w (omega arith))
              (record {
                recorded =
                    later.recorded ∙ register-config (deciding_round k b' bs) s (s.retry_count + 1);
                done = later.done;
                idle = later.idle;
              })
      ]
