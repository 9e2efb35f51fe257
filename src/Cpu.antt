-- ===== src/Cpu.antt =====
-- The CPU part of src/processes.c: the ring of utilization samples and the CPU monitor.
-- none stands for a fault: a write outside an array, or a division by zero.
pub mod Window
pub mod Monitor
pub mod Params
pub mod Values
pub mod Options
pub mod Independence
use sysmngr.Prelude.{
  ℕ, ◌+◌, ◌*◌, ◌/◌, ◌%◌, Bool, false, Option, none, some, ◌>>=◌, List, [], ◌∷◌, ltb, leb, ◌==◌,
  ◌&&◌, ◌||◌, if◌then◌else◌, codes, snprintf_s, text_eq, length, set, take, replicate,
}
use sysmngr.Prelude.Strings.{Text}
use sysmngr.Prelude.Int.{ℤ}
use sysmngr.Libc.{u32, strtol, strtoul, decimal}
use sysmngr.Stat.{Jiffies, get_jif_val, percent_of, total_diff_of}
use sysmngr.Uci.{Uci, Key}
use sysmngr.Utils.{Message, Names}
use sysmngr.Critical.{Monitored, check_thresholds}
use sysmngr.Memory.{bool_option}

-- g_cpu_info; `monitored` holds the thresholds, UCI and the effects.
pub record CpuInfo (u : Uci) : Type 0 where
  pub timer : Option ℕ
  pub jiffy : Jiffies
  pub enable : Bool
  pub full_samples_reached : Bool
  pub poll_interval : ℕ
  pub user_utilization_samples : List ℕ
  pub system_utilization_samples : List ℕ
  pub idle_utilization_samples : List ℕ
  pub utilization_samples : List ℕ
  pub num_samples : ℕ
  pub sample_index : ℕ
  pub monitored : Monitored u
  pub existing : Text → Bool

abbrev pub sum_from : ℕ → List ℕ → ℕ
sum_from acc [] = acc
sum_from acc (x ∷ xs) = sum_from (u32 (acc + x)) xs

abbrev pub cpu_critical_state_event : Names → ℕ → Message
cpu_critical_state_event lib utilization = record {
  name = codes "Device.DeviceInfo.ProcessStatus.CPU.1.CPUCriticalState!";
  input =
      (codes "CPUUtilization", snprintf_s 32 (decimal utilization), lib.dmt_unint)
      ∷ (codes "Name", codes "cpu", lib.dmt_string)
      ∷ [];
}

pub record Poll : Type 0 where
  pub stat : Option Text
  pub now : ℤ

abbrev pub cpu_key : Text → Key
cpu_key o = (codes "sysmngr", codes "cpu", o)

-- What a name from libbbfdm does here: remove_new_line.
pub record CpuLib : Type 0 where
  pub strip : Text → Text
  pub names : Names

module _ (u : Uci) where
  abbrev pub sample_count : CpuInfo u → ℕ
  sample_count s = if s.full_samples_reached then s.num_samples else u32 s.sample_index

  -- The loop reads `sample_count` samples; the arrays are as long as num_samples.
  unfoldable pub calculate_average_samples : CpuInfo u → List ℕ → ℕ
  calculate_average_samples s samples =
      let n = sample_count s in if n == 0 then 0 else sum_from 0 (take n samples) / n

  -- A write to the sample arrays.
  abbrev pub store_sample : ℕ → ℕ → List ℕ → Option (List ℕ)
  store_sample i x samples = if ltb i (length samples) then some (set samples i x) else none

  -- The flag and the index move on; the remainder by zero is a fault.
  abbrev pub advance : Jiffies → List ℕ → List ℕ → List ℕ → List ℕ → CpuInfo u → Option (CpuInfo u)
  advance cur user system idle all s =
      if s.num_samples == 0
      then none
      else some (record s {
        jiffy = cur;
        user_utilization_samples = user;
        system_utilization_samples = system;
        idle_utilization_samples = idle;
        utilization_samples = all;
        full_samples_reached = s.full_samples_reached || leb s.num_samples (s.sample_index + 1);
        sample_index = (s.sample_index + 1) % s.num_samples;
      })

  -- The four samples of a poll, the flag and the index.
  unfoldable pub store_samples : Jiffies → CpuInfo u → Option (CpuInfo u)
  store_samples cur s =
      let prev = s.jiffy in
      let diff = total_diff_of prev cur in
      let i = s.sample_index in
      do
        user ← store_sample i (percent_of cur.usr prev.usr diff) s.user_utilization_samples
        system ←
            store_sample i (percent_of cur.sys_time prev.sys_time diff) s.system_utilization_samples
        idle ←
            store_sample i (percent_of cur.idle_time prev.idle_time diff) s.idle_utilization_samples
        all ← store_sample i (percent_of cur.busy_time prev.busy_time diff) s.utilization_samples
        advance cur user system idle all s

  abbrev pub after_samples : Names → ℤ → CpuInfo u → CpuInfo u
  after_samples lib now s = record s {
    monitored =
        check_thresholds u (codes "cpu") (codes "CPU") (cpu_critical_state_event lib) now
          (calculate_average_samples s s.utilization_samples) s.monitored;
    timer = some (u32 (s.poll_interval * 1000));
  }

  unfoldable pub run_cpu_monitor : CpuLib → Poll → CpuInfo u → Option (CpuInfo u)
  run_cpu_monitor lib poll s = store_samples (get_jif_val lib.strip poll.stat s.jiffy) s >>= λ s'.
      some (after_samples lib.names poll.now s')

  abbrev pub no_jiffies : Jiffies
  no_jiffies = record {
    usr = 0;
    nic = 0;
    sys = 0;
    idle = 0;
    iowait = 0;
    irq = 0;
    softirq = 0;
    steal = 0;
    total_time = 0;
    idle_time = 0;
    sys_time = 0;
    busy_time = 0;
  }

  -- `allocated`: the four calloc calls succeed. If not, /proc/stat is not read.
  unfoldable pub fill_global_cpu_info : CpuLib → Bool → Option Text → CpuInfo u → CpuInfo u
  fill_global_cpu_info lib allocated stat s =
      let c = s.monitored.config in
      let log = u.get c (cpu_key (codes "file_path")) (codes "/var/log/critical_cpu.log") 512 in
      let n = u32 (strtoul (u.get c (cpu_key (codes "num_samples")) (codes "30") 16)) in
      record {
        timer = none;
        jiffy = if allocated then get_jif_val lib.strip stat no_jiffies else no_jiffies;
        enable = bool_option (u.get c (cpu_key (codes "enable")) (codes "0") 16);
        full_samples_reached = false;
        poll_interval = u32 (strtoul (u.get c (cpu_key (codes "poll_interval")) (codes "5") 16));
        user_utilization_samples = if allocated then replicate n 0 else [];
        system_utilization_samples = if allocated then replicate n 0 else [];
        idle_utilization_samples = if allocated then replicate n 0 else [];
        utilization_samples = if allocated then replicate n 0 else [];
        num_samples = n;
        sample_index = 0;
        monitored = record s.monitored {
          watch = record {
            enable_critical_log =
                bool_option (u.get c (cpu_key (codes "enable_critical_log")) (codes "0") 16);
            critical_rise_threshold =
                u32 (strtoul (u.get c (cpu_key (codes "critical_rise_threshold")) (codes "80") 16));
            critical_fall_threshold =
                u32 (strtoul (u.get c (cpu_key (codes "critical_fall_threshold")) (codes "60") 16));
            critical_rise_time =
                strtol (u.get c (cpu_key (codes "critical_rise_time")) (codes "0") 16);
            critical_fall_time =
                strtol (u.get c (cpu_key (codes "critical_fall_time")) (codes "0") 16);
            log_file = log;
          };
        };
        existing = λ path. s.existing path || text_eq path log;
      }

  unfoldable pub sysmngr_cpu_init : CpuLib → Bool → Option Text → CpuInfo u → CpuInfo u
  unfolding fill_global_cpu_info
  sysmngr_cpu_init lib allocated stat s =
      let t = fill_global_cpu_info lib allocated stat s in
      if allocated && t.enable then record t { timer = some (u32 (t.poll_interval * 1000)) } else t

  abbrev pub free_global_cpu_info : CpuInfo u → CpuInfo u
  free_global_cpu_info s = record s {
    utilization_samples = [];
    user_utilization_samples = [];
    system_utilization_samples = [];
    idle_utilization_samples = [];
  }

  -- The arrays are freed before the timer is cancelled.
  unfoldable pub sysmngr_cpu_clean : CpuInfo u → CpuInfo u
  sysmngr_cpu_clean s = record (free_global_cpu_info s) { timer = none }
