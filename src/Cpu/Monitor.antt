-- ===== src/Cpu/Monitor.antt =====
-- src/processes.c: the CPU monitor over a series of polls, its ring and the mean of its samples.
use sysmngr.Prelude.{
  ℕ, ◌+◌, ◌-◌, ◌/◌, ◌%◌, ◌^◌, ◌≤◌, ◌<◌, ◌≡◌, refl, sym, ap, ◌∙◌, Bool, true, false, Option, some,
  ◌>>=◌, List, [], ◌∷◌, ◌++◌, leb, ◌==◌, ◌||◌, if◌then◌else◌, arith, length, set, take,
  length-append, drop_none, length-set, take_all, lt→ltb,
}
use mathlib.Core.List.{append_assoc, append-nil}
use native.Mathlib.Nat.{mod-lt}
use sysmngr.Prelude.Int.{ℤ}
use sysmngr.Libc.{u32}
use sysmngr.Uci.{Uci}
use sysmngr.Stat.{Jiffies, get_jif_val, percent_of, total_diff_of}
use sysmngr.Cpu.{
  CpuInfo, CpuLib, Poll, sum_from, calculate_average_samples, store_samples, after_samples,
  run_cpu_monitor,
}
use sysmngr.Cpu.Window.{
  latest, window, sum, sum_from-sum, sum-window, window-store, latest-latest, length-window,
}

not_zero : (n : ℕ) → 0 < n → (n == 0) ≡ false
not_zero n h = ground arith

abbrev pub quotient : ℕ → ℕ → ℕ
quotient n m = if n == 0 then 0 else m / n

short :
    (full : Bool) (n i : ℕ) (buf : List ℕ) → length buf ≡ n → i < n → length (window full i buf) ≤ n
short true n i buf len inside = omega (arith, length-window true i buf (omega (arith, len)))
short false n i buf len inside = omega (arith, length-window false i buf (omega (arith, len)))

average-at :
    (full : Bool) (n i : ℕ) (buf : List ℕ)
    → length buf ≡ n
    → i < n
    → n < 2 ^ 32
    → let count = if full then n else u32 i in
      quotient count (sum_from 0 (take count buf))
      ≡ quotient (length (window full i buf)) (u32 (sum (window full i buf)))
average-at true n i buf len inside small =
    let count : n ≡ length (window true i buf) =
      omega (arith, length-window true i buf (omega (arith, len))) in
    let total : sum_from 0 (take n buf) ≡ u32 (sum (window true i buf)) =
      ap (sum_from 0) (take_all n buf (omega (arith, len)))
      ∙ sum_from-sum 0 buf (omega arith)
      ∙ omega (arith, sum-window i buf) in
    λ j. quotient (count j) (total j)
average-at false n i buf len inside small =
    let same : u32 i ≡ i = omega arith in
    let count : u32 i ≡ length (take i buf) =
      omega (arith, length-window false i buf (omega (arith, len))) in
    let total : sum_from 0 (take (u32 i) buf) ≡ u32 (sum (take i buf)) =
      ap (λ k. sum_from 0 (take k buf)) same
      ∙ sum_from-sum 0 (take i buf) (omega arith)
      ∙ omega arith in
    λ j. quotient (count j) (total j)

module _ (u : Uci) where
  -- The arrays are as long as num_samples, and the index is inside them.
  pub record IsValid (s : CpuInfo u) : Type 0 where
    pub user_length : length s.user_utilization_samples ≡ s.num_samples
    pub system_length : length s.system_utilization_samples ≡ s.num_samples
    pub idle_length : length s.idle_utilization_samples ≡ s.num_samples
    pub length_all : length s.utilization_samples ≡ s.num_samples
    pub index_inside : s.sample_index < s.num_samples
    pub count_in_range : s.num_samples < 2 ^ 32

  abbrev pub window_of : CpuInfo u → List ℕ
  window_of s = window s.full_samples_reached s.sample_index s.utilization_samples

  abbrev pub busy_sample : Jiffies → Jiffies → ℕ
  busy_sample prev cur = percent_of cur.busy_time prev.busy_time (total_diff_of prev cur)

  -- The ring after the samples of a poll.
  abbrev pub stored : Jiffies → CpuInfo u → CpuInfo u
  stored cur s =
      let i = s.sample_index in
      let old = s.jiffy in
      let diff = total_diff_of old cur in
      record s {
        jiffy = cur;
        user_utilization_samples =
            set s.user_utilization_samples i (percent_of cur.usr old.usr diff);
        system_utilization_samples =
            set s.system_utilization_samples i (percent_of cur.sys_time old.sys_time diff);
        idle_utilization_samples =
            set s.idle_utilization_samples i (percent_of cur.idle_time old.idle_time diff);
        utilization_samples = set s.utilization_samples i (busy_sample old cur);
        full_samples_reached = s.full_samples_reached || leb s.num_samples (i + 1);
        sample_index = (i + 1) % s.num_samples;
      }

  store_samples-stored :
      (cur : Jiffies) (s : CpuInfo u) → IsValid s → store_samples u cur s ≡ some (stored cur s)
  unfolding store_samples
  store_samples-stored cur s v =
      let i = s.sample_index in
      let inside = v.index_inside in
      rw (
        lt→ltb i (length s.user_utilization_samples) (omega (arith, v.user_length)),
        lt→ltb i (length s.system_utilization_samples) (omega (arith, v.system_length)),
        lt→ltb i (length s.idle_utilization_samples) (omega (arith, v.idle_length)),
        lt→ltb i (length s.utilization_samples) (omega (arith, v.length_all)),
        not_zero s.num_samples (omega arith),
      )

  stored-IsValid : (cur : Jiffies) (s : CpuInfo u) → IsValid s → IsValid (stored cur s)
  stored-IsValid cur s v = record {
    user_length = length-set _ _ _ ∙ v.user_length;
    system_length = length-set _ _ _ ∙ v.system_length;
    idle_length = length-set _ _ _ ∙ v.idle_length;
    length_all = length-set _ _ _ ∙ v.length_all;
    index_inside = mod-lt (s.sample_index + 1) (omega (arith, v.index_inside));
    count_in_range = v.count_in_range;
  }

  -- In a valid ring the samples of a poll are stored: the ring stays valid, and its window becomes the
  -- latest num_samples of the samples it held and the new one.
  pub store_samples-window :
      (cur : Jiffies) (s : CpuInfo u)
      → IsValid s
      → (s' : CpuInfo u) × (store_samples u cur s ≡ some s')
        × IsValid s'
        × (window_of s' ≡ latest s.num_samples (window_of s ++ (busy_sample s.jiffy cur ∷ [])))
        × (s'.num_samples ≡ s.num_samples)
        × (s'.jiffy ≡ cur)
  unfolding store_samples
  store_samples-window cur s v = (
    stored cur s,
    store_samples-stored cur s v,
    stored-IsValid cur s v,
    window-store s.num_samples s.sample_index (busy_sample s.jiffy cur) s.utilization_samples
        v.length_all v.index_inside s.full_samples_reached,
    refl,
    refl,
  )

  -- The whole part of the mean of a window; 0 for no sample.
  abbrev pub mean : List ℕ → ℕ
  mean w = quotient (length w) (sum w)

  -- In a valid ring whose window has a sum of 32 bits, the average is the whole part of the mean of the window.
  pub average-mean :
      (s : CpuInfo u)
      → IsValid s
      → sum (window_of s) < 2 ^ 32
      → calculate_average_samples u s s.utilization_samples ≡ mean (window_of s)
  unfolding calculate_average_samples
  average-mean s v fits =
      average-at s.full_samples_reached s.num_samples s.sample_index s.utilization_samples
        v.length_all v.index_inside v.count_in_range
      ∙ ap (quotient (length (window_of s))) (omega arith)

  window_of-short : (s : CpuInfo u) → IsValid s → length (window_of s) ≤ s.num_samples
  window_of-short s v =
      short s.full_samples_reached s.num_samples s.sample_index s.utilization_samples v.length_all
        v.index_inside

  -- cpu_timer_callback, once for each poll.
  abbrev pub run_polls : CpuLib → List Poll → CpuInfo u → Option (CpuInfo u)
  run_polls lib [] s = some s
  run_polls lib (p ∷ ps) s = run_cpu_monitor u lib p s >>= run_polls lib ps

  -- The utilization between each poll and the one before it.
  abbrev pub busy_samples : CpuLib → Jiffies → List Poll → List ℕ
  busy_samples lib old [] = []
  busy_samples lib old (p ∷ ps) =
      let cur = get_jif_val lib.strip p.stat old in busy_sample old cur ∷ busy_samples lib cur ps

  keeps :
      (lib : CpuLib) (now : ℤ) (s : CpuInfo u)
      → IsValid s
      → IsValid (after_samples u lib.names now s)
  keeps lib now s v = record {
    user_length = v.user_length;
    system_length = v.system_length;
    idle_length = v.idle_length;
    length_all = v.length_all;
    index_inside = v.index_inside;
    count_in_range = v.count_in_range;
  }

  -- From a valid ring the monitor survives every series of polls, with readable statistics or not: it never
  -- writes outside the arrays, the ring stays valid, and its window is the latest num_samples of the samples
  -- it held and those of the polls.
  pub run_polls-window :
      (lib : CpuLib) (ps : List Poll) (s : CpuInfo u)
      → IsValid s
      → (s' : CpuInfo u) × (run_polls lib ps s ≡ some s')
        × IsValid s'
        × (window_of s' ≡ latest s.num_samples (window_of s ++ busy_samples lib s.jiffy ps))
  unfolding run_cpu_monitor
  run_polls-window lib [] s v =
      let room : length (window_of s ++ []) - s.num_samples ≡ 0 =
        omega (arith, length-append (window_of s) [], window_of-short s v) in
      (s, refl, v, sym (drop_none _ (window_of s ++ []) room ∙ append-nil _))
  run_polls-window lib (p ∷ ps) s v =
      let cur = get_jif_val lib.strip p.stat s.jiffy in
      let sample = busy_sample s.jiffy cur in
      let t = after_samples u lib.names p.now (stored cur s) in
      let (s', run, valid, same) =
        run_polls-window lib ps t (keeps lib p.now (stored cur s) (stored-IsValid cur s v)) in
      let one =
        window-store s.num_samples s.sample_index sample s.utilization_samples v.length_all
          v.index_inside s.full_samples_reached in
      (
        s',
        rw (store_samples-stored cur s v) run,
        valid,
        same
            ∙ ap (λ (w : List ℕ). latest s.num_samples (w ++ busy_samples lib cur ps)) one
            ∙ latest-latest s.num_samples (window_of s ++ (sample ∷ [])) (busy_samples lib cur ps)
            ∙ ap (latest s.num_samples)
                (append_assoc (window_of s) (sample ∷ []) (busy_samples lib cur ps)),
      )
