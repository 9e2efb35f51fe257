-- ===== src/Critical/Saved.antt =====
-- src/memory.c and src/processes.c: the stamps of the thresholds in UCI.
use sysmngr.Prelude.{
  ℕ, ◌<◌, ◌≡◌, ◌∙◌, ap, sym, subst, false, ◌&&◌, Bool-cases, inl, inr, List, [], ◌∷◌, ltb, arith,
  codes, snprintf_s, text_eq_refl, take_all, is_empty,
}
use sysmngr.Prelude.Strings.{Text}
use sysmngr.Prelude.Int.{ℤ, pos, ltb_ℤ, leb_ℤ}
use sysmngr.Libc.{strtol, decimal, decimal_ℤ}
use sysmngr.Libc.Decimal.{strtol-decimal, length-decimal, decimal-nonempty, tens}
use sysmngr.Uci.{Uci, UciLaws, Key}
use sysmngr.Utils.{Message}
use sysmngr.Critical.{Monitored, check_rise, check_fall, check_thresholds}
use sysmngr.Critical.Levels.{run_checks}

-- A stamp below 10^15 survives the buffers of 32 bytes (printing) and 16 bytes (reading).
stamp_read_back : (n : ℕ) → n < tens 15 → strtol (snprintf_s 16 (snprintf_s 32 (decimal n))) ≡ pos n
stamp_read_back n h =
    let short = length-decimal n 14 h in
    rw (take_all 31 (decimal n) (omega arith), take_all 15 (decimal n) short)
      (strtol-decimal n (omega arith))

stamp_nonempty : (n : ℕ) → n < tens 15 → is_empty (snprintf_s 32 (decimal n)) ≡ false
stamp_nonempty n h =
    rw (take_all 31 (decimal n) (omega (arith, length-decimal n 14 h))) (decimal-nonempty n)

-- Every poll shows a time of this range.
abbrev pub ClockInRange : List (ℤ × ℕ) → Type 0
ClockInRange [] = Unit {0}
ClockInRange ((now, utilization) ∷ polls) =
    ((n : ℕ) × (now ≡ pos n) × (n < tens 15)) × ClockInRange polls

module _ (u : Uci) (laws : UciLaws u) (section : Text) where
  abbrev pub rise_key : Key
  rise_key = (codes "sysmngr", section, codes "critical_rise_time")

  abbrev pub fall_key : Key
  fall_key = (codes "sysmngr", section, codes "critical_fall_time")

  -- UCI holds both stamps.
  pub record IsSaved (s : Monitored u) : Type 0 where
    pub rise_saved : strtol (u.get s.config rise_key (codes "0") 16) ≡ s.watch.critical_rise_time
    pub fall_saved : strtol (u.get s.config fall_key (codes "0") 16) ≡ s.watch.critical_fall_time

  module _ (kind : Text) (event : ℕ → Message) where
    rise-IsSaved :
        (n utilization : ℕ) (s : Monitored u)
        → n < tens 15
        → IsSaved s
        → IsSaved (check_rise u section kind event (pos n) utilization s)
    unfolding check_rise decimal_ℤ
    rise-IsSaved n utilization s h saved =
        elim (Bool-cases (
          ltb s.watch.critical_rise_threshold utilization
          && leb_ℤ s.watch.critical_rise_time s.watch.critical_fall_time)) [
            | inl e ↦ rw e (record {
              rise_saved =
                  ap strtol (
                    laws.get-set s.config rise_key rise_key (snprintf_s 32 (decimal n)) (codes "0")
                      16
                    ∙ rw (text_eq_refl section, stamp_nonempty n h))
                  ∙ stamp_read_back n h;
              fall_saved =
                  ap strtol (
                    laws.get-set s.config rise_key fall_key (snprintf_s 32 (decimal n)) (codes "0")
                      16
                    ∙ rw (text_eq_refl section))
                  ∙ saved.fall_saved;
            })
            | inr e ↦ rw e saved
          ]

    fall-IsSaved :
        (n utilization : ℕ) (s : Monitored u)
        → n < tens 15
        → IsSaved s
        → IsSaved (check_fall u section kind event (pos n) utilization s)
    unfolding check_fall decimal_ℤ
    fall-IsSaved n utilization s h saved =
        elim (Bool-cases (
          ltb utilization s.watch.critical_fall_threshold
          && ltb_ℤ s.watch.critical_fall_time s.watch.critical_rise_time)) [
            | inl e ↦ rw e (record {
              rise_saved =
                  ap strtol (
                    laws.get-set s.config fall_key rise_key (snprintf_s 32 (decimal n)) (codes "0")
                      16
                    ∙ rw (text_eq_refl section))
                  ∙ saved.rise_saved;
              fall_saved =
                  ap strtol (
                    laws.get-set s.config fall_key fall_key (snprintf_s 32 (decimal n)) (codes "0")
                      16
                    ∙ rw (text_eq_refl section, stamp_nonempty n h))
                  ∙ stamp_read_back n h;
            })
            | inr e ↦ rw e saved
          ]

    check-IsSaved :
        (n utilization : ℕ) (s : Monitored u)
        → n < tens 15
        → IsSaved s
        → IsSaved (check_thresholds u section kind event (pos n) utilization s)
    unfolding check_thresholds
    check-IsSaved n utilization s h saved =
        fall-IsSaved n utilization _ h (rise-IsSaved n utilization s h saved)

    -- UCI holds both stamps after any series of polls, if it held them before and every poll shows a time
    -- of at most 15 digits.
    pub run_checks-IsSaved :
        (polls : List (ℤ × ℕ)) (s : Monitored u)
        → ClockInRange polls
        → IsSaved s
        → IsSaved (run_checks u section kind event polls s)
    run_checks-IsSaved [] s r saved = saved
    run_checks-IsSaved ((now, utilization) ∷ polls) s ((n, e, h), r) saved =
        run_checks-IsSaved polls _ r (
          subst (λ t. IsSaved (check_thresholds u section kind event t utilization s)) (sym e)
            (check-IsSaved n utilization s h saved))
