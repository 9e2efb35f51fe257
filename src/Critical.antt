-- ===== src/Critical.antt =====
-- The two thresholds that src/memory.c and src/processes.c watch alike: what a monitor does once it has
-- a utilization. `section` is the UCI section and `kind` the name in the log ("memory" and "Memory", or
-- "cpu" and "CPU"); `event` makes the message of the CriticalState! event.
pub mod Levels
pub mod Saved
pub mod Stale
use sysmngr.Prelude.{
  ℕ, Bool, true, false, ◌&&◌, List, [], ◌∷◌, ◌++◌, Option, ltb, if◌then◌else◌, codes, snprintf_s,
}
use sysmngr.Prelude.Strings.{Text}
use sysmngr.Prelude.Int.{ℤ, ltb_ℤ, leb_ℤ}
use sysmngr.Libc.{decimal_ℤ}
use sysmngr.Uci.{Uci}
use sysmngr.Utils.{Message, critical_log_command}

-- What leaves the daemon, in order.
pub data Effect : Type 0 where
  run_cmd : Option Text → Effect
  ubus_event : Message → Effect

-- The fields of memory_ctx and of cpu_info that the thresholds use.
pub record Watch : Type 0 where
  pub enable_critical_log : Bool
  pub critical_rise_threshold : ℕ
  pub critical_fall_threshold : ℕ
  pub critical_rise_time : ℤ
  pub critical_fall_time : ℤ
  pub log_file : Text

pub record Monitored (u : Uci) : Type 0 where
  pub watch : Watch
  pub config : u.Config
  pub effects : List Effect

module _ (u : Uci) (section kind : Text) (event : ℕ → Message) where
  abbrev pub log_effect : Watch → Bool → List Effect
  log_effect w state =
      if w.enable_critical_log
      then run_cmd (critical_log_command w.log_file kind state) ∷ []
      else []

  -- Above the rise threshold, and not yet counted as critical.
  unfoldable pub check_rise : ℤ → ℕ → Monitored u → Monitored u
  check_rise now utilization s =
      let w = s.watch in
      if ltb w.critical_rise_threshold utilization
        && leb_ℤ w.critical_rise_time w.critical_fall_time
      then record {
        watch = record w { critical_rise_time = now };
        config =
            u.set s.config (codes "sysmngr", section, codes "critical_rise_time")
              (snprintf_s 32 (decimal_ℤ now));
        effects = s.effects ++ (log_effect w true ++ (ubus_event (event utilization) ∷ []));
      }
      else s

  -- Below the fall threshold, and counted as critical.
  unfoldable pub check_fall : ℤ → ℕ → Monitored u → Monitored u
  check_fall now utilization s =
      let w = s.watch in
      if ltb utilization w.critical_fall_threshold
        && ltb_ℤ w.critical_fall_time w.critical_rise_time
      then record {
        watch = record w { critical_fall_time = now };
        config =
            u.set s.config (codes "sysmngr", section, codes "critical_fall_time")
              (snprintf_s 32 (decimal_ℤ now));
        effects = s.effects ++ log_effect w false;
      }
      else s

  -- Both tests in a row; the clock is read once for both.
  unfoldable pub check_thresholds : ℤ → ℕ → Monitored u → Monitored u
  unfolding check_rise check_fall
  check_thresholds now utilization s = check_fall now utilization (check_rise now utilization s)
