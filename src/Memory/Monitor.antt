-- ===== src/Memory/Monitor.antt =====
-- The memory monitor over a series of polls, and across a reload of the configuration.
use sysmngr.Prelude.{
  ℕ, ◌≡◌, refl, ◌∙◌, ap, sym, Bool, true, false, Option, none, some, ◌>>=◌, List, [], ◌∷◌, ◌++◌,
  map, codes, if◌then◌else◌,
}
use sysmngr.Prelude.Int.{ℤ, ltb_ℤ}
use mathlib.Core.List.{append-nil}
use sysmngr.Uci.{Uci, UciLaws}
use sysmngr.Utils.{Names}
use sysmngr.Critical.{Monitored}
use sysmngr.Critical.Levels.{
  Level, level_of, next_level, level_after, alarms, all_alarms, messages, IsStamped, Increasing,
  ◌<ℤ◌, run_checks, run_checks-refines,
}
use sysmngr.Critical.Saved.{IsSaved}
use sysmngr.Memory.{
  Poll, MemoryCtx, calculate_memory_utilization, memory_critical_state_event, after_poll,
  run_memory_monitor, fill_global_memory_ctx, sysmngr_memory_init, sysmngr_memory_clean,
}

module _ (u : Uci) (lib : Names) where
  -- memory_timer_callback, once for each poll.
  abbrev pub run_polls : List Poll → MemoryCtx u → Option (MemoryCtx u)
  run_polls [] s = some s
  run_polls (p ∷ ps) s = run_memory_monitor u lib p s >>= run_polls ps

  -- The polls show these utilizations.
  pub data Shows : List Poll → List (ℤ × ℕ) → Type 0 where
    none_left : Shows [] []
    one_more :
        {p : Poll} {n : ℕ} {ps : List Poll} {ns : List (ℤ × ℕ)}
        → calculate_memory_utilization p.meminfo ≡ some n
        → Shows ps ns
        → Shows (p ∷ ps) ((p.now, n) ∷ ns)

  abbrev pub checks : List (ℤ × ℕ) → Monitored u → Monitored u
  checks = run_checks u (codes "memory") (codes "Memory") (memory_critical_state_event lib)

  run_polls-checks :
      {ps : List Poll} {ns : List (ℤ × ℕ)} (s : MemoryCtx u)
      → Shows ps ns
      → (s' : MemoryCtx u) × (run_polls ps s ≡ some s') × (s'.monitored ≡ checks ns s.monitored)
  unfolding run_memory_monitor
  run_polls-checks s none_left = (s, refl, refl)
  run_polls-checks s (one_more {p = p} {n = n} {ps = ps} e rest) =
      let (s', run, same) = run_polls-checks (after_poll u lib p.now n s) rest in
      (s', rw e run, same)

  -- If every poll shows a utilization, each poll is later than the one before and the stamps, and the
  -- fall threshold is not above the rise threshold, then the monitor survives the polls, its level is that
  -- of the machine of two levels, and it has sent one MemoryCriticalState! event for each alarm.
  pub run_polls-refines :
      {ps : List Poll} {ns : List (ℤ × ℕ)} (last : ℤ) (s : MemoryCtx u)
      → Shows ps ns
      → IsStamped s.monitored.watch last
      → Increasing last ns
      → let w = s.monitored.watch in
        let rise = w.critical_rise_threshold in
        let fall = w.critical_fall_threshold in
        (s' : MemoryCtx u) × (run_polls ps s ≡ some s')
        × (level_of s'.monitored.watch ≡ level_after rise fall (level_of w) ns)
        × (messages s'.monitored.effects
            ≡ messages s.monitored.effects
              ++ map (memory_critical_state_event lib) (all_alarms rise fall (level_of w) ns))
  run_polls-refines {ns = ns} last s shown stamped inc =
      let (s', run, same) = run_polls-checks s shown in
      let (level, sent) =
        run_checks-refines u (codes "memory") (codes "Memory") (memory_critical_state_event lib) ns
          last s.monitored stamped inc in
      (
        s',
        run,
        ap (λ (m : Monitored u). level_of m.watch) same ∙ level,
        ap (λ (m : Monitored u). messages m.effects) same ∙ sent,
      )

module _ (u : Uci) (laws : UciLaws u) (lib : Names) where
  -- Reading the configuration anew keeps the level that UCI holds.
  level-fill :
      (s : MemoryCtx u)
      → IsSaved u laws (codes "memory") s.monitored
      → level_of (fill_global_memory_ctx u s).monitored.watch ≡ level_of s.monitored.watch
  unfolding fill_global_memory_ctx
  level-fill s saved =
      λ i. if ltb_ℤ (saved.fall_saved i) (saved.rise_saved i) then Level.critical else Level.normal

  level-clean :
      (s : MemoryCtx u)
      → IsSaved u laws (codes "memory") s.monitored
      → level_of (fill_global_memory_ctx u (sysmngr_memory_clean u s)).monitored.watch
        ≡ level_of s.monitored.watch
  unfolding sysmngr_memory_clean
  level-clean s saved = level-fill (record s { timer = none }) saved

  effects-clean :
      (s : MemoryCtx u)
      → (fill_global_memory_ctx u (sysmngr_memory_clean u s)).monitored.effects
        ≡ s.monitored.effects
  unfolding sysmngr_memory_clean fill_global_memory_ctx
  effects-clean s = refl

  -- The reload of the memory monitor: sysmngr_memory_clean, then sysmngr_memory_init.
  abbrev pub reload : Poll → MemoryCtx u → Option (MemoryCtx u)
  reload p s = sysmngr_memory_init u lib p (sysmngr_memory_clean u s)

  -- If UCI holds both stamps, the poll of the reload shows a utilization at a time after both, and the fall threshold
  -- that is configured is not above the rise threshold, then the monitor survives a reload and goes on from the
  -- level it had: if it is enabled, the poll at once takes the machine of two levels one step with the
  -- thresholds of the configuration, with one event for an alarm of that step; if not, nothing is sent and the
  -- level is kept.
  pub reload-steps :
      (n : ℕ) (last : ℤ) (p : Poll) (s : MemoryCtx u)
      → calculate_memory_utilization p.meminfo ≡ some n
      → IsSaved u laws (codes "memory") s.monitored
      → let t = fill_global_memory_ctx u (sysmngr_memory_clean u s) in
        let rise = t.monitored.watch.critical_rise_threshold in
        let fall = t.monitored.watch.critical_fall_threshold in
        let level = level_of s.monitored.watch in
        IsStamped t.monitored.watch last
        → last <ℤ p.now
        → (s' : MemoryCtx u) × (reload p s ≡ some s')
          × (level_of s'.monitored.watch
              ≡ (if t.enable then next_level rise fall level n else level))
          × (messages s'.monitored.effects
              ≡ messages s.monitored.effects
                ++ (if t.enable
                    then map (memory_critical_state_event lib) (alarms rise level n)
                    else []))
  unfolding sysmngr_memory_init run_memory_monitor
  reload-steps n last p s shows saved stamped later = polls_or_not t.enable
    where
      t : MemoryCtx u
      t = fill_global_memory_ctx u (sysmngr_memory_clean u s)

      rise : ℕ
      rise = t.monitored.watch.critical_rise_threshold

      fall : ℕ
      fall = t.monitored.watch.critical_fall_threshold

      same : level_of t.monitored.watch ≡ level_of s.monitored.watch
      same = level-clean s saved

      kept_effects : t.monitored.effects ≡ s.monitored.effects
      kept_effects = effects-clean s

      polls_or_not :
          (c : Bool)
          → (s' : MemoryCtx u) × ((if c then run_memory_monitor u lib p t else some t) ≡ some s')
            × (level_of s'.monitored.watch ≡ (
                if c
                then next_level rise fall (level_of s.monitored.watch) n
                else level_of s.monitored.watch))
            × (messages s'.monitored.effects
                ≡ messages s.monitored.effects
                  ++ (if c
                      then map
                          (memory_critical_state_event lib)
                          (alarms rise (level_of s.monitored.watch) n)
                      else []))
      polls_or_not false = (t, refl, same, ap messages kept_effects ∙ sym (append-nil _))
      polls_or_not true =
          let (stepped, sent) =
            run_checks-refines u (codes "memory") (codes "Memory") (memory_critical_state_event lib)
              ((p.now, n) ∷ []) last t.monitored stamped (later, tt) in
          (
            after_poll u lib p.now n t,
            ap (λ o. o >>= λ k. some (after_poll u lib p.now k t)) shows,
            stepped ∙ ap (λ l. next_level rise fall l n) same,
            sent ∙ (λ i.
                messages (kept_effects i)
                ++ map (memory_critical_state_event lib) (append-nil (alarms rise (same i) n) i)),
          )
