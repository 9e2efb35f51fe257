-- ===== src/Procps.antt =====
-- src/processes.c: what is read of one entry of /proc. The text behind the end of a file's bytes in the
-- buffer is taken as empty.
pub mod Command
pub mod Priority
use sysmngr.Prelude.{
  ℕ, zero, suc, ◌+◌, ◌-◌, ◌*◌, ◌/◌, ◌==◌, Bool, true, false, ◌&&◌, ◌||◌, not, Option, none, some,
  ◌>>=◌, List, [], ◌∷◌, ◌++◌, map, reverse, if◌then◌else◌, ltb, leb, codes, text_eq, has_prefix,
  strchr, drop, snprintf_s, length, is_empty,
}
use sysmngr.Prelude.Strings.{Text}
use sysmngr.Prelude.Int.{ℤ, pos, negsuc, pos_part, neg_part, leb_ℤ, ◌+ℤ◌}
use sysmngr.Libc.{u64, is_digit, is_space, skip_spaces, digits_value, long_of, to_int, decimal}
use sysmngr.Stat.{scan_ullong, drop_digits}

pub record ProcessEntry : Type 0 where
  pub command : Text
  pub state : Text
  pub pid : Text
  pub size : Text
  pub priority : Text
  pub cputime : Text

-- What the entry is read with: libbbfdm and the C library, and the files of /proc.
pub record ProcLib : Type 0 where
  -- The result of stat is 0.
  pub exists : Text → Bool
  -- dm_file_to_buf: the bytes in the buffer of the given size, or none for a negative result.
  pub file_to_buf : Text → ℕ → Option (List ℕ)
  -- DM_STRNCPY into a buffer of the given size.
  pub strncpy : ℕ → Text → Text
  -- The place in a path where the name that basename returns begins.
  pub basename : Text → ℕ
  -- sysconf (_SC_CLK_TCK).
  pub clock_ticks : ℕ
  -- The priority shown where its computation is undefined in C.
  pub undefined_priority : ℤ → ℕ

unfoldable pub get_proc_state : ℕ → Text
get_proc_state c =
    if c == b'R'
    then codes "Running"
    else if c == b'S'
    then codes "Sleeping"
    else if c == b'T'
    then codes "Stopped"
    else if c == b'D'
    then codes "Uninterruptible"
    else if c == b'Z'
    then codes "Zombie"
    else codes "Idle"

-- The bytes up to the last that is not NUL.
abbrev pub strip_nuls : List ℕ → List ℕ
strip_nuls [] = []
strip_nuls (c ∷ s) = let rest = strip_nuls s in if is_empty rest && c == 0 then [] else c ∷ rest

-- The text before the first blank or NUL.
abbrev pub first_word : List ℕ → Text
first_word [] = []
first_word (c ∷ s) = let more = first_word s in if c == 32 || c == 0 then [] else c ∷ more

abbrev pub blank : ℕ → ℕ
blank c = if ltb c 32 then 32 else c

abbrev pub skip_dash : Text → Text
skip_dash [] = []
skip_dash (c ∷ s) = if c == b'-' then s else c ∷ s

abbrev pub or_question : Option Text → Text
or_question none = codes "?"
or_question (some comm) = comm

-- `{comm} ` before the text, in a buffer of `bufsz` bytes.
abbrev pub prepend_comm : ℕ → Text → Text → Text
prepend_comm bufsz comm text =
    if ltb (length comm + 3) bufsz
    then snprintf_s bufsz (123 ∷ (comm ++ (125 ∷ 32 ∷ text)))
    else snprintf_s bufsz (123 ∷ (comm ++ (125 ∷ [])))

-- `base` is the last component of the first word, read on into the arguments.
abbrev pub name_thread : ℕ → Option Text → Text → Text → Text
name_thread bufsz none base text = text
name_thread bufsz (some comm) base text =
    if has_prefix (skip_dash base) comm then text else prepend_comm bufsz comm text

abbrev pub shown_command : ProcLib → ℕ → Option Text → List ℕ → Text
shown_command lib bufsz comm [] = snprintf_s bufsz (91 ∷ (or_question comm ++ (93 ∷ [])))
shown_command lib bufsz comm (c ∷ bytes) =
    let text = map blank (strip_nuls (c ∷ bytes)) in
    name_thread bufsz comm (drop (lib.basename (first_word (c ∷ bytes))) text) text

abbrev pub or_nothing : Option (List ℕ) → List ℕ
or_nothing none = []
or_nothing (some bytes) = bytes

unfoldable pub procps_get_cmdline : ProcLib → ℕ → Text → Option Text → Text
procps_get_cmdline lib bufsz pid comm = shown_command lib bufsz comm (
    or_nothing
      (lib.file_to_buf (snprintf_s 270 (codes "/proc/" ++ (pid ++ codes "/cmdline"))) bufsz))

-- The fields of a stat line that are kept.
pub record StatLine : Type 0 where
  pub state : ℕ
  pub utime : ℕ
  pub stime : ℕ
  pub priority : ℤ
  pub vsize : ℕ

abbrev pub scan_char : Text → Option (ℕ × Text)
scan_char [] = none
scan_char (c ∷ s) = some (c, skip_spaces s)

-- "%*u" and "%*d".
abbrev pub skip_number : Text → Option Text
skip_number s = scan_ullong s >>= λ r. some r.1

abbrev pub drop_word : Text → Text
drop_word [] = []
drop_word (c ∷ s) = if is_space c then c ∷ s else drop_word s

-- "%*s".
abbrev pub skip_word : Text → Option Text
skip_word s = if is_empty (skip_spaces s) then none else some (drop_word (skip_spaces s))

-- "%d".
abbrev pub scan_int_digits : Bool → Text → Option (ℤ × Text)
scan_int_digits negative [] = none
scan_int_digits negative (c ∷ s) =
    if is_digit c
    then some (to_int (long_of (negative, digits_value 0 (c ∷ s))), drop_digits s)
    else none

abbrev pub scan_int_sign : Text → Option (ℤ × Text)
scan_int_sign [] = none
scan_int_sign (c ∷ s) =
    if c == b'-'
    then scan_int_digits true s
    else if c == b'+'
    then scan_int_digits false s
    else scan_int_digits false (c ∷ s)

abbrev pub skip_numbers : ℕ → Text → Option Text
skip_numbers zero s = some s
skip_numbers (suc k) s = skip_number s >>= λ r. skip_numbers k r

abbrev pub skip_words : ℕ → Text → Option Text
skip_words zero s = some s
skip_words (suc k) s = skip_word s >>= λ r. skip_words k r

-- none if fewer than five fields convert.
unfoldable pub scan_stat : Text → Option StatLine
scan_stat text = do
  (state, s1) ← scan_char text
  s2 ← skip_numbers 4 s1
  s3 ← skip_words 6 s2
  (utime, s4) ← scan_ullong s3
  (stime, s5) ← scan_ullong s4
  s6 ← skip_numbers 2 s5
  (priority, s7) ← scan_int_sign (skip_spaces s6)
  s8 ← skip_number s7
  s9 ← skip_words 3 s8
  (vsize, rest) ← scan_ullong s9
  some (record { state = state; utime = utime; stime = stime; priority = priority; vsize = vsize })

-- strrchr: the text before the last `c` and the text from it on.
abbrev pub split_last : ℕ → Text → Option (Text × Text)
split_last c [] = none
split_last c (a ∷ s) = elim (split_last c s) [
  | none ↦ (if a == c then some ([], a ∷ s) else none)
  | some (front, back) ↦ some (a ∷ front, back)
]

abbrev pub until_nul : List ℕ → Text
until_nul [] = []
until_nul (c ∷ s) = let more = until_nul s in if c == 0 then [] else c ∷ more

-- (priority + 100) * 99 / 139 in ints; round has no effect on the quotient.
unfoldable pub shown_priority : ProcLib → ℤ → ℕ
shown_priority lib priority =
    if leb_ℤ (negsuc 100) priority && leb_ℤ priority (pos 21691654)
    then pos_part (priority +ℤ pos 100) * 99 / 139
    else lib.undefined_priority priority

abbrev pub make_entry : ProcLib → Text → Text → StatLine → ProcessEntry
make_entry lib name comm line =
    let cputime = u64 ((line.stime / lib.clock_ticks + line.utime / lib.clock_ticks) * 1000) in
    record {
      command = lib.strncpy 256 (procps_get_cmdline lib 256 name (some comm));
      state = lib.strncpy 16 (get_proc_state line.state);
      pid = lib.strncpy 8 name;
      size = lib.strncpy 8 (snprintf_s 32 (decimal (line.vsize / 1024)));
      priority = lib.strncpy 8 (snprintf_s 32 (decimal (shown_priority lib line.priority)));
      cputime = lib.strncpy 8 (snprintf_s 32 (decimal cputime));
    }

abbrev pub starts_with_digit : Text → Bool
starts_with_digit [] = false
starts_with_digit (c ∷ s) = is_digit c

abbrev pub check_exists : ProcLib → Text → Option Text
check_exists lib path = if lib.exists path then some path else none

-- What the round of the loop adds for an entry of the directory; none where the code continues.
unfoldable pub read_entry : ProcLib → Text → Option ProcessEntry
unfolding scan_stat procps_get_cmdline get_proc_state shown_priority
read_entry lib name =
    if starts_with_digit name
    then (do
      path ← check_exists lib (snprintf_s 288 (codes "/proc/" ++ (name ++ codes "/stat")))
      bytes ← lib.file_to_buf path 1024
      (front, back) ← split_last b')' (until_nul bytes)
      comm1 ← strchr front b'('
      line ← scan_stat (drop 2 back)
      some (make_entry lib name (lib.strncpy 32 (drop 1 comm1)) line))
    else none
