-- ===== src/Critical/Stale.antt =====
-- src/memory.c and src/processes.c: the thresholds under a clock that was set back.
use sysmngr.Prelude.{
  ℕ, ◌≤◌, ◌≡◌, refl, ◌∙◌, ap, sym, subst, true, List, [], ◌∷◌, ◌++◌, map, ltb, arith,
}
use sysmngr.Prelude.Strings.{Text}
use sysmngr.Prelude.Int.{ℤ, ◌≤ℤ◌}
use mathlib.Core.List.{append-nil, append_assoc}
use sysmngr.Uci.{Uci}
use sysmngr.Utils.{Message}
use sysmngr.Critical.{Monitored, check_thresholds}
use sysmngr.Critical.Levels.{normal, level_of, messages, run_checks, check-messages}

module _ (u : Uci) (section kind : Text) (event : ℕ → Message) where
  -- Every poll is above `rise` and not below `fall`, at a time not after the stamp `fell`.
  abbrev pub AllStale : ℕ → ℕ → ℤ → List (ℤ × ℕ) → Type 0
  AllStale rise fall fell [] = Unit {0}
  AllStale rise fall fell ((now, utilization) ∷ polls) =
      ((ltb rise utilization ≡ true) × (fall ≤ utilization) × (now ≤ℤ fell))
      × AllStale rise fall fell polls

  stale-check :
      (now : ℤ) (utilization : ℕ) (s : Monitored u)
      → ltb s.watch.critical_rise_threshold utilization ≡ true
      → s.watch.critical_fall_threshold ≤ utilization
      → s.watch.critical_rise_time ≤ℤ s.watch.critical_fall_time
      → now ≤ℤ s.watch.critical_fall_time
      → let w = (check_thresholds u section kind event now utilization s).watch in
        (w.critical_rise_time ≡ now)
        × (w.critical_fall_time ≡ s.watch.critical_fall_time)
        × (w.critical_rise_threshold ≡ s.watch.critical_rise_threshold)
        × (w.critical_fall_threshold ≡ s.watch.critical_fall_threshold)
  unfolding check_thresholds
  stale-check now utilization s above not_below stamps back = ground arith

  -- If the clock has gone back to the fall stamp or before it while the level is normal, then over any series of
  -- polls above the rise threshold and not below the fall threshold every poll sends an event, the level stays
  -- normal, and the fall stamp stays as it is.
  pub stale_clock_repeats :
      (polls : List (ℤ × ℕ)) (s : Monitored u)
      → s.watch.critical_rise_time ≤ℤ s.watch.critical_fall_time
      → AllStale s.watch.critical_rise_threshold s.watch.critical_fall_threshold
          s.watch.critical_fall_time polls
      → let s' = run_checks u section kind event polls s in
        (level_of s'.watch ≡ normal)
        × (s'.watch.critical_fall_time ≡ s.watch.critical_fall_time)
        × (messages s'.effects ≡ messages s.effects ++ map (λ (p : ℤ × ℕ). event p.1) polls)
  stale_clock_repeats [] s stamps stale = (ground arith, refl, sym (append-nil _))
  stale_clock_repeats ((now, utilization) ∷ polls) s stamps ((above, not_below, back), rest) =
      let s1 = check_thresholds u section kind event now utilization s in
      let (rose, fell, rise, fall) = stale-check now utilization s above not_below stamps back in
      let (level, kept, sent) =
        stale_clock_repeats polls s1
          (subst (λ t. t ≤ℤ s1.watch.critical_fall_time) (sym rose)
            (subst (λ t. now ≤ℤ t) (sym fell) back))
          (subst
            (λ r. AllStale r s1.watch.critical_fall_threshold s1.watch.critical_fall_time polls)
            (sym rise)
            (subst
              (λ f. AllStale s.watch.critical_rise_threshold f s1.watch.critical_fall_time polls)
              (sym fall)
              (subst
                (λ t.
                  AllStale s.watch.critical_rise_threshold s.watch.critical_fall_threshold t polls)
                (sym fell) rest))) in
      let one : messages s1.effects ≡ messages s.effects ++ (event utilization ∷ []) =
        check-messages u section kind event now utilization s
        ∙ ap (λ ms. messages s.effects ++ ms) (ground arith) in
      (
        level,
        kept ∙ fell,
        sent
            ∙ ap (λ ms. ms ++ map (λ (p : ℤ × ℕ). event p.1) polls) one
            ∙ append_assoc (messages s.effects) (event utilization ∷ [])
                (map (λ (p : ℤ × ℕ). event p.1) polls),
      )
