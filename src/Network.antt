-- ===== src/Network.antt =====
-- src/network.c: the TCP limits and the congestion controls. A file is none if it cannot be opened or read; a read
-- gives what fits into the buffer less its last byte. The outer none of a writer is a write outside its buffer.
pub mod Tokens
pub mod Controls
use sysmngr.Prelude.{
  ℕ, zero, suc, ◌+◌, ◌-◌, Option, none, some, ◌>>=◌, List, [], ◌∷◌, ◌++◌, reverse, if◌then◌else◌,
  ltb, leb, codes, strstr, length, take, snprintf_s, is_empty,
}
use sysmngr.Prelude.Strings.{Text}
use sysmngr.Prelude.Int.{ℤ, pos}
use sysmngr.Libc.{has_byte, skip_spaces, decimal_ℤ}
use sysmngr.Procps.{scan_int_sign}

abbrev pub read_file_content : ℕ → Option Text → Option Text
read_file_content size none = none
read_file_content size (some file) = some (snprintf_s size file)

-- sscanf with "%d %d %d".
abbrev pub scan_three : Text → Option (ℤ × ℤ × ℤ)
scan_three s = do
  (a, s1) ← scan_int_sign (skip_spaces s)
  (b, s2) ← scan_int_sign (skip_spaces s1)
  (c, s3) ← scan_int_sign (skip_spaces s2)
  some (a, b, c)

unfoldable pub read_tcp_write_memory_limits : Option Text → Option (ℤ × ℤ × ℤ)
read_tcp_write_memory_limits file = read_file_content 128 file >>= λ s. scan_three s

abbrev pub max_or_zero : Option (ℤ × ℤ × ℤ) → ℤ
max_or_zero none = pos 0
max_or_zero (some (a, b, c)) = c

unfoldable pub get_max_tcp_window_size : Option Text → Text
unfolding read_tcp_write_memory_limits
get_max_tcp_window_size file = decimal_ℤ (max_or_zero (read_tcp_write_memory_limits file))

-- `read_sysfs` is dm_read_sysfs_file into a buffer of the size, empty if it fails.
abbrev pub or_minus_one : Text → Text
or_minus_one val = if is_empty val then codes "-1" else val

unfoldable pub get_max_connections : (read_sysfs : Text → ℕ → Text) → Text
get_max_connections read_sysfs =
    or_minus_one (read_sysfs (codes "/proc/sys/net/netfilter/nf_conntrack_max") 32)

unfoldable pub get_active_connections : (read_sysfs : Text → ℕ → Text) → Text
get_active_connections read_sysfs =
    or_minus_one (read_sysfs (codes "/proc/sys/net/netfilter/nf_conntrack_count") 32)

-- What successive calls of strtok give on a text, the bytes of the token that is being read backwards in `acc`.
abbrev pub flush : Text → List Text
flush [] = []
flush (a ∷ acc) = reverse (a ∷ acc) ∷ []

unfoldable pub strtok_from : List ℕ → Text → Text → List Text
strtok_from ds acc [] = flush acc
strtok_from ds acc (c ∷ s) =
    let ended = flush acc ++ strtok_from ds [] s in
    let longer = strtok_from ds (c ∷ acc) s in if has_byte ds c then ended else longer

-- What is printed for a token.
unfoldable pub control_name : Text → Text
control_name token =
    if strstr token (codes "reno")
    then codes "Reno,"
    else if strstr token (codes "cubic")
    then codes "Cubic,"
    else if strstr token (codes "newreno")
    then codes "New Reno,"
    else if strstr token (codes "vegas")
    then codes "Vegas,"
    else if strstr token (codes "tahoe")
    then codes "Tahoe,"
    else []

-- snprintf at `place` of a buffer of `size` bytes; nothing is written for a token without a name.
abbrev pub print_at : ℕ → Text → Text × ℕ → Option (Text × ℕ)
print_at size [] state = some state
print_at size (c ∷ name) (output, place) =
    if leb place size
    then some (take place output ++ take (size - place - 1) (c ∷ name), place + length (c ∷ name))
    else none

unfoldable pub print_controls : ℕ → List Text → Text × ℕ → Option (Text × ℕ)
unfolding control_name
print_controls size [] state = some state
print_controls size (token ∷ tokens) state =
    print_at size (control_name token) state >>= λ next. print_controls size tokens next

-- The byte of the last comma becomes the end.
abbrev pub cut_comma : ℕ → Text × ℕ → Option Text
cut_comma size (output, zero) = some output
cut_comma size (output, suc place) = if ltb place size then some (take place output) else none

abbrev pub controls_of : ℕ → Option Text → Option Text
controls_of size none = some []
controls_of size (some s) =
    print_controls size (strtok_from (32 ∷ []) [] s) ([], 0) >>= λ state. cut_comma size state

-- The text of the parameter; "" if the file cannot be read.
unfoldable pub get_tcp_implementation : Option Text → Option Text
unfolding strtok_from print_controls
get_tcp_implementation file = controls_of 256 (read_file_content 128 file)
