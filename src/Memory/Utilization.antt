-- ===== src/Memory/Utilization.antt =====
-- The utilization that the code computes in wrapping arithmetic.
use sysmngr.Prelude.{
  ℕ, ◌+◌, ◌-◌, ◌*◌, ◌/◌, ◌^◌, ◌≤◌, ◌<◌, ◌≡◌, ◌↔◌, refl, sym, ◌∙◌, Option, none, some, ◌>>=◌, ◌==◌,
  false, ap, arith, List, [], ◌∷◌, Text, codes, if◌then◌else◌, none-some,
}
use mathlib.Core.Option.{some-injective}
use sysmngr.Libc.{u32, u64, bits64, strtol, strtok, same_nocase, fgets_lines}
use native.Mathlib.Nat.{div-le_of_le-mul, mod-eq_of_lt}
use sysmngr.Uci.{Uci}
use sysmngr.Utils.{Names}
use sysmngr.Memory.{
  MemInfo, no_info, store_field, with_value, with_key, read_line, read_lines, sysmngr_meminfo,
  used_mem, utilization_of, utilization_from, after_poll, calculate_memory_utilization, MemoryCtx,
  Poll, run_memory_monitor,
}

-- The figures fit together, and a hundred times the total fits an unsigned long.
pub record IsConsistent (i : MemInfo) : Type 0 where
  pub some_memory : 0 < i.mem_total
  pub parts_fit : i.mem_free + i.buffers + i.cached + i.sreclaimable ≤ i.mem_total
  pub total_fits : i.mem_total * 100 < 2 ^ 64

used_exact :
    (i : MemInfo)
    → IsConsistent i
    → used_mem i ≡ i.mem_total - (i.mem_free + i.buffers + i.cached + i.sreclaimable)
used_exact i c = omega arith

percent_le : (a b : ℕ) → 0 < b → a ≤ b → (a * 100) / b ≤ 100
percent_le a b p h = div-le_of_le-mul b (omega arith)

-- The percentage of numbers below these bounds, with the conversions of the code.
percent_exact :
    (used total : ℕ)
    → 0 < total
    → used ≤ total
    → total * 100 < 2 ^ 64
    → u32 (u64 (used * 100) / total) ≡ used * 100 / total
percent_exact used total p h b =
    let small = percent_le used total p h in
    let whole : u64 (used * 100) ≡ used * 100 = omega arith in rw whole (mod-eq_of_lt (omega arith))

-- For figures that fit together the utilization is the whole part of the percentage of the total that is
-- neither free nor reclaimable: it is computed with no wrap-around, and is at most 100.
pub utilization-exact :
    (i : MemInfo)
    → IsConsistent i
    → let used = i.mem_total - (i.mem_free + i.buffers + i.cached + i.sreclaimable) in
      (utilization_of i ≡ some (used * 100 / i.mem_total)) × (used * 100 / i.mem_total ≤ 100)
utilization-exact i c =
    let some_total : (i.mem_total == 0) ≡ false = ground arith in
    (
      rw (some_total, used_exact i c)
          (ap some (percent_exact _ i.mem_total c.some_memory (omega arith) c.total_fits)),
      percent_le _ i.mem_total c.some_memory (omega arith),
    )

-- The total that a line gives: the number in its second token if the first is MemTotal, else the one before it.
abbrev pub total_of_line : Text → ℕ → ℕ
total_of_line line total = elim (strtok (b' ' ∷ b':' ∷ []) line) [
  | none ↦ total
  | some (key, rest) ↦ elim (strtok (b' ' ∷ []) rest) [
    | none ↦ total
    | some (val, more) ↦ if same_nocase key (codes "MemTotal") then bits64 (strtol val) else total
  ]
]

-- The total that the last such line gives, 0 without one.
abbrev pub total_of_lines : List Text → ℕ → ℕ
total_of_lines [] total = total
total_of_lines (line ∷ lines) total = total_of_lines lines (total_of_line line total)

store_field-total :
    (key val : Text) (info : MemInfo)
    → (store_field key val info).mem_total
      ≡ (if same_nocase key (codes "MemTotal") then bits64 (strtol val) else info.mem_total)
store_field-total key val info = ground arith

with_value-total :
    (key : Text) (o : Option (Text × Text)) (info : MemInfo)
    → (with_value key o info).mem_total ≡ elim o [
      | none ↦ info.mem_total
      | some (val, more) ↦
          if same_nocase key (codes "MemTotal") then bits64 (strtol val) else info.mem_total
    ]
with_value-total key none info = refl
with_value-total key (some (val, more)) info = store_field-total key val info

with_key-total :
    (o : Option (Text × Text)) (info : MemInfo)
    → (with_key o info).mem_total ≡ elim o [
      | none ↦ info.mem_total
      | some (key, rest) ↦ elim (strtok (b' ' ∷ []) rest) [
        | none ↦ info.mem_total
        | some (val, more) ↦
            if same_nocase key (codes "MemTotal") then bits64 (strtol val) else info.mem_total
      ]
    ]
with_key-total none info = refl
with_key-total (some (key, rest)) info = with_value-total key (strtok (b' ' ∷ []) rest) info

read_lines-total :
    (lines : List Text) (info : MemInfo)
    → (read_lines lines info).mem_total ≡ total_of_lines lines info.mem_total
unfolding read_lines read_line
read_lines-total [] info = refl
read_lines-total (line ∷ lines) info =
    read_lines-total lines (read_line line info)
    ∙ ap (total_of_lines lines) (with_key-total (strtok (b' ' ∷ b':' ∷ []) line) info)

-- A chain that starts with the utilization fails exactly where that is a division by zero.
bind-none :
    {X : Type 0} (o : Option MemInfo) (f : ℕ → X)
    → (utilization_from o >>= λ n. some (f n)) ≡ none
    → (i : MemInfo) × (o ≡ some i) × (i.mem_total ≡ 0)
bind-none none f h = cc
bind-none (some i) f h = (i, refl, ground arith)

-- The file opens, and the last of its lines with the key MemTotal gives 0, or it has none.
abbrev pub NoTotal : Option Text → Type 0
NoTotal none = ⊥
NoTotal (some file) = total_of_lines (fgets_lines 256 file) 0 ≡ 0

no_total :
    (o : Option Text) (i : MemInfo) → sysmngr_meminfo o ≡ some i → i.mem_total ≡ 0 → NoTotal o
unfolding sysmngr_meminfo
no_total none i e z = absurd (none-some i e)
no_total (some file) i e z =
    sym (read_lines-total (fgets_lines 256 file) no_info)
    ∙ ap (λ (j : MemInfo). j.mem_total) (some-injective _ _ e)
    ∙ z

total_is_zero :
    (o : Option Text) → NoTotal o → (i : MemInfo) × (sysmngr_meminfo o ≡ some i) × (i.mem_total ≡ 0)
unfolding sysmngr_meminfo
total_is_zero none h = absurd h
total_is_zero (some file) h = (_, refl, read_lines-total (fgets_lines 256 file) no_info ∙ h)

-- The monitor dies, by a division by zero, exactly when /proc/meminfo opens and the last of its lines with the key
-- MemTotal gives 0, or none of its lines has this key and a value.
pub run-none :
    (u : Uci) (lib : Names) (poll : Poll) (s : MemoryCtx u)
    → (run_memory_monitor u lib poll s ≡ none) ↔ NoTotal poll.meminfo
unfolding run_memory_monitor calculate_memory_utilization
run-none u lib poll s = (
  λ h.
      let (i, e, z) =
        bind-none (sysmngr_meminfo poll.meminfo) (λ n. after_poll u lib poll.now n s) h in
      no_total poll.meminfo i e z,
  λ h. let (i, e, z) = total_is_zero poll.meminfo h in rw e (rw z),
)
