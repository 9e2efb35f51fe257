-- ===== src/Stat.antt =====
-- The CPU part of src/processes.c, below the monitor: /proc/stat and the percentages between two readings of
-- its counters.
use sysmngr.Prelude.{
  ℕ, zero, suc, ◌+◌, ◌-◌, ◌*◌, ◌/◌, ◌^◌, Bool, true, false, Option, none, some, List, [], ◌∷◌, map,
  leb, ◌==◌, if◌then◌else◌, codes, has_prefix, length, get_or, drop,
}
use sysmngr.Prelude.Strings.{Text}
use sysmngr.Libc.{u32, u64, is_digit, skip_spaces, fgets_lines, digits_value, ulong_of}

-- unsigned long long fields.
pub record Jiffies : Type 0 where
  pub usr : ℕ
  pub nic : ℕ
  pub sys : ℕ
  pub idle : ℕ
  pub iowait : ℕ
  pub irq : ℕ
  pub softirq : ℕ
  pub steal : ℕ
  pub total_time : ℕ
  pub idle_time : ℕ
  pub sys_time : ℕ
  pub busy_time : ℕ

-- sscanf: the numbers after "cpu", up to the first that does not convert; at most `k` of them.
abbrev pub drop_digits : Text → Text
drop_digits [] = []
drop_digits (c ∷ s) = if is_digit c then drop_digits s else c ∷ s

-- "%llu" takes blanks, a sign and at least one digit.
abbrev pub scan_digits : Bool → Text → Option (ℕ × Text)
scan_digits negative [] = none
scan_digits negative (c ∷ s) =
    if is_digit c then some (ulong_of (negative, digits_value 0 (c ∷ s)), drop_digits s) else none

abbrev pub scan_sign : Text → Option (ℕ × Text)
scan_sign [] = none
scan_sign (c ∷ s) =
    if c == b'-'
    then scan_digits true s
    else if c == b'+'
    then scan_digits false s
    else scan_digits false (c ∷ s)

abbrev pub scan_ullong : Text → Option (ℕ × Text)
scan_ullong s = scan_sign (skip_spaces s)

unfoldable pub scan_numbers : ℕ → Text → List ℕ
scan_numbers zero s = []
scan_numbers (suc k) s = elim (scan_ullong s) [
  | none ↦ []
  | some (n, rest) ↦ n ∷ scan_numbers k rest
]

unfoldable pub scan_cpu_line : Text → List ℕ
unfolding scan_numbers
scan_cpu_line line = if has_prefix line (codes "cpu") then scan_numbers 8 (drop 3 line) else []

-- The fields that were not converted keep their value.
abbrev pub store_counters : List ℕ → Jiffies → Jiffies
store_counters ns j = record j {
  usr = get_or ns 0 j.usr;
  nic = get_or ns 1 j.nic;
  sys = get_or ns 2 j.sys;
  idle = get_or ns 3 j.idle;
  iowait = get_or ns 4 j.iowait;
  irq = get_or ns 5 j.irq;
  softirq = get_or ns 6 j.softirq;
  steal = get_or ns 7 j.steal;
}

unfoldable pub compute_times : Jiffies → Jiffies
compute_times j =
    let total = u64 (j.usr + j.nic + j.sys + j.idle + j.iowait + j.irq + j.softirq + j.steal) in
    let idle_time = u64 (j.idle + j.iowait) in
    record j {
      total_time = total;
      sys_time = u64 (j.sys + j.irq + j.softirq);
      idle_time = idle_time;
      busy_time = u64 (total + 2 ^ 64 - idle_time);
    }

-- The first line with at least four numbers gives the times.
unfoldable pub read_stat : List Text → Jiffies → Jiffies
read_stat [] j = j
read_stat (line ∷ lines) j =
    let ns = scan_cpu_line line in
    let j' = store_counters ns j in
    let later = read_stat lines j' in if leb 4 (length ns) then compute_times j' else later

-- `strip` is remove_new_line of libbbfdm; none is a file that cannot be opened.
unfoldable pub get_jif_val : (Text → Text) → Option Text → Jiffies → Jiffies
get_jif_val strip none j = j
get_jif_val strip (some file) j = read_stat (map strip (fgets_lines 128 file)) j

abbrev pub or_one : ℕ → ℕ
or_one n = if n == 0 then 1 else n

-- In unsigned ints: the differences are cut to 32 bits, and the product wraps.
unfoldable pub get_cpu_load : Jiffies → Jiffies → ℕ
get_cpu_load prev cur =
    let total_diff = or_one (u32 (u64 (cur.total_time + 2 ^ 64 - prev.total_time))) in
    u32 (100 * u32 (u64 (cur.busy_time + 2 ^ 64 - prev.busy_time))) / total_diff

-- One percentage of a difference of counters, in unsigned long longs, cut to an unsigned int.
unfoldable pub percent_of : ℕ → ℕ → ℕ → ℕ
percent_of cur prev total_diff = u32 (u64 (u64 (cur + 2 ^ 64 - prev) * 100) / total_diff)

unfoldable pub total_diff_of : Jiffies → Jiffies → ℕ
total_diff_of prev cur = or_one (u64 (cur.total_time + 2 ^ 64 - prev.total_time))
