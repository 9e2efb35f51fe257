-- ===== src/Critical/Levels.antt =====
-- src/memory.c and src/processes.c: the thresholds as a machine of two levels.
use sysmngr.Prelude.{
  ℕ, ◌≤◌, ◌≡◌, refl, ◌∙◌, ap, sym, Bool, true, false, ◌&&◌, Bool-cases, inl, inr, List, [], ◌∷◌,
  ◌++◌, map, ltb, if◌then◌else◌, arith,
}
use sysmngr.Prelude.Strings.{Text}
use sysmngr.Prelude.Int.{ℤ, ◌≤ℤ◌, ltb_ℤ, leb_ℤ}
use mathlib.Core.List.{append-nil, append_assoc, map-append}
use sysmngr.Uci.{Uci}
use sysmngr.Utils.{Message}
use sysmngr.Critical.{
  Effect, run_cmd, ubus_event, Watch, Monitored, log_effect, check_rise, check_fall,
  check_thresholds,
}

pub data Level : Type 0 where
  normal critical : Level

-- The condition is present once the rise stamp is the later one.
abbrev pub level_of : Watch → Level
level_of w = if ltb_ℤ w.critical_fall_time w.critical_rise_time then critical else normal

-- One poll: the level goes up above `rise`, with an event, and down below `fall`, with none.
abbrev pub next_level : ℕ → ℕ → Level → ℕ → Level
next_level rise fall normal utilization = if ltb rise utilization then critical else normal
next_level rise fall critical utilization = if ltb utilization fall then normal else critical

abbrev pub alarms : ℕ → Level → ℕ → List ℕ
alarms rise normal utilization = if ltb rise utilization then utilization ∷ [] else []
alarms rise critical utilization = []

abbrev pub level_after : ℕ → ℕ → Level → List (ℤ × ℕ) → Level
level_after rise fall l [] = l
level_after rise fall l ((now, utilization) ∷ polls) =
    level_after rise fall (next_level rise fall l utilization) polls

abbrev pub all_alarms : ℕ → ℕ → Level → List (ℤ × ℕ) → List ℕ
all_alarms rise fall l [] = []
all_alarms rise fall l ((now, utilization) ∷ polls) =
    alarms rise l utilization ++ all_alarms rise fall (next_level rise fall l utilization) polls

-- The messages among the effects.
abbrev pub messages : List Effect → List Message
messages [] = []
messages (run_cmd c ∷ es) = messages es
messages (ubus_event m ∷ es) = m ∷ messages es

messages-append : (es fs : List Effect) → messages (es ++ fs) ≡ messages es ++ messages fs
messages-append [] fs = refl
messages-append (run_cmd c ∷ es) fs = messages-append es fs
messages-append (ubus_event m ∷ es) fs = ap (λ ms. m ∷ ms) (messages-append es fs)

-- a < b
infix 50 ◌<ℤ◌
abbrev pub ◌<ℤ◌ : ℤ → ℤ → Type 0
a <ℤ b = ltb_ℤ a b ≡ true

-- Neither stamp is later than the clock was at last, and the fall threshold is not above the rise
-- threshold.
pub record IsStamped (w : Watch) (last : ℤ) : Type 0 where
  pub rise_past : w.critical_rise_time ≤ℤ last
  pub fall_past : w.critical_fall_time ≤ℤ last
  pub ordered : w.critical_fall_threshold ≤ w.critical_rise_threshold

-- Each poll is later than the one before.
abbrev pub Increasing : ℤ → List (ℤ × ℕ) → Type 0
Increasing last [] = Unit {0}
Increasing last ((now, utilization) ∷ polls) = (last <ℤ now) × Increasing now polls

module _ (u : Uci) (section kind : Text) (event : ℕ → Message) where
  abbrev pub run_checks : List (ℤ × ℕ) → Monitored u → Monitored u
  run_checks [] s = s
  run_checks ((now, utilization) ∷ polls) s =
      run_checks polls (check_thresholds u section kind event now utilization s)

  messages-log : (w : Watch) (b : Bool) → messages (log_effect u section kind event w b) ≡ []
  messages-log w b = ground arith

  check-level :
      (last now : ℤ) (utilization : ℕ) (s : Monitored u)
      → IsStamped s.watch last
      → last <ℤ now
      → let w = (check_thresholds u section kind event now utilization s).watch in
        (level_of w
          ≡ next_level s.watch.critical_rise_threshold s.watch.critical_fall_threshold
              (level_of s.watch)
              utilization)
        × (w.critical_rise_threshold ≡ s.watch.critical_rise_threshold)
        × (w.critical_fall_threshold ≡ s.watch.critical_fall_threshold)
        × IsStamped w now
  unfolding check_thresholds
  check-level last now utilization s r later = ground arith

  messages-rise :
      (now : ℤ) (utilization : ℕ) (s : Monitored u)
      → messages (check_rise u section kind event now utilization s).effects
        ≡ messages s.effects
          ++ (if ltb s.watch.critical_rise_threshold utilization
                && leb_ℤ s.watch.critical_rise_time s.watch.critical_fall_time
              then event utilization ∷ []
              else [])
  unfolding check_rise
  messages-rise now utilization s =
      elim (Bool-cases (
        ltb s.watch.critical_rise_threshold utilization
        && leb_ℤ s.watch.critical_rise_time s.watch.critical_fall_time)) [
          | inl e ↦ rw e (
              messages-append s.effects _
              ∙ ap (λ ms. messages s.effects ++ ms)
                  (messages-append (log_effect u section kind event s.watch true) _
                    ∙ ap (λ ms. ms ++ (event utilization ∷ [])) (messages-log s.watch true)))
          | inr e ↦ rw e (sym (append-nil _))
        ]

  messages-fall :
      (now : ℤ) (utilization : ℕ) (s : Monitored u)
      → messages (check_fall u section kind event now utilization s).effects ≡ messages s.effects
  unfolding check_fall
  messages-fall now utilization s =
      elim (Bool-cases (
        ltb utilization s.watch.critical_fall_threshold
        && ltb_ℤ s.watch.critical_fall_time s.watch.critical_rise_time)) [
          | inl e ↦ rw e (
              messages-append s.effects _
              ∙ ap (λ ms. messages s.effects ++ ms) (messages-log s.watch false)
              ∙ append-nil _)
          | inr e ↦ rw e
        ]

  alarms-eq :
      (w : Watch) (utilization : ℕ)
      → (if ltb w.critical_rise_threshold utilization
            && leb_ℤ w.critical_rise_time w.critical_fall_time
          then event utilization ∷ []
          else [])
        ≡ map event (alarms w.critical_rise_threshold (level_of w) utilization)
  alarms-eq w utilization = ground arith

  pub check-messages :
      (now : ℤ) (utilization : ℕ) (s : Monitored u)
      → messages (check_thresholds u section kind event now utilization s).effects
        ≡ messages s.effects
          ++ map event (alarms s.watch.critical_rise_threshold (level_of s.watch) utilization)
  unfolding check_thresholds
  check-messages now utilization s =
      messages-fall now utilization (check_rise u section kind event now utilization s)
      ∙ messages-rise now utilization s
      ∙ ap (λ ms. messages s.effects ++ ms) (alarms-eq s.watch utilization)

  -- If the stamps are not later than the clock at last, every poll is later than the one before and the
  -- fall threshold is not above the rise threshold, then over any series of polls the stamps follow the
  -- machine of two levels, and the messages sent are one for each of its alarms, in their order.
  pub run_checks-refines :
      (polls : List (ℤ × ℕ)) (last : ℤ) (s : Monitored u)
      → IsStamped s.watch last
      → Increasing last polls
      → let rise = s.watch.critical_rise_threshold in
        let fall = s.watch.critical_fall_threshold in
        let s' = run_checks polls s in
        (level_of s'.watch ≡ level_after rise fall (level_of s.watch) polls)
        × (messages s'.effects
            ≡ messages s.effects ++ map event (all_alarms rise fall (level_of s.watch) polls))
  run_checks-refines [] last s r inc = (refl, sym (append-nil _))
  run_checks-refines ((now, utilization) ∷ polls) last s r inc =
      let s1 = check_thresholds u section kind event now utilization s in
      let (level, rise, fall, stamped) = check-level last now utilization s r inc.0 in
      let (levels, sent) = run_checks-refines polls now s1 stamped inc.1 in
      let first = alarms s.watch.critical_rise_threshold (level_of s.watch) utilization in
      let rest =
        all_alarms s.watch.critical_rise_threshold s.watch.critical_fall_threshold
          (next_level s.watch.critical_rise_threshold s.watch.critical_fall_threshold
            (level_of s.watch) utilization)
          polls in
      (
        levels ∙ (λ i. level_after (rise i) (fall i) (level i) polls),
        sent
            ∙ (λ i.
                check-messages now utilization s i
                ++ map event (all_alarms (rise i) (fall i) (level i) polls))
            ∙ append_assoc (messages s.effects) (map event first) (map event rest)
            ∙ ap (λ ms. messages s.effects ++ ms) (sym (map-append event first rest)),
      )
