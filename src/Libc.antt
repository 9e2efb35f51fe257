-- ===== src/Libc.antt =====
-- What the sources use of the C library on numbers and lines: strtol and strtoul in base 10, the
-- decimal conversions of snprintf, strtok, fgets. Longs have 64 bits and ints 32.
pub mod Decimal
use sysmngr.Prelude.{
  ℕ, zero, suc, ◌+◌, ◌-◌, ◌*◌, ◌/◌, ◌%◌, ◌^◌, Bool, true, false, ◌||◌, ◌&&◌, Option, none, some,
  List, [], ◌∷◌, reverse, ltb, leb, ◌==◌, if◌then◌else◌, Text, min,
}
use sysmngr.Prelude.Int.{ℤ, pos, negsuc, sub_ℕ}

-- Conversions to unsigned int, unsigned long and int.
abbrev pub u32 : ℕ → ℕ
u32 n = n % 2 ^ 32

abbrev pub u64 : ℕ → ℕ
u64 n = n % 2 ^ 64

abbrev pub i32_of_u64 : ℕ → ℤ
i32_of_u64 n = if ltb (n % 2 ^ 32) (2 ^ 31) then pos (n % 2 ^ 32) else sub_ℕ (n % 2 ^ 32) (2 ^ 32)

-- The 64-bit pattern of a long.
abbrev pub bits64 : ℤ → ℕ
bits64 (pos n) = n % 2 ^ 64
bits64 (negsuc n) = (2 ^ 64 - 1) - n % 2 ^ 64

-- (int) of a long.
unfoldable pub to_int : ℤ → ℤ
to_int z = i32_of_u64 (bits64 z)

abbrev pub is_digit : ℕ → Bool
is_digit c = leb 48 c && leb c 57

abbrev pub is_space : ℕ → Bool
is_space c = c == 32 || (leb 9 c && leb c 13)

-- The number that the digits at the front of a text stand for, `acc` standing before them.
unfoldable pub digits_value : ℕ → Text → ℕ
digits_value acc [] = acc
digits_value acc (c ∷ s) =
    let more = digits_value (acc * 10 + (c - 48)) s in if is_digit c then more else acc

abbrev pub skip_spaces : Text → Text
skip_spaces [] = []
skip_spaces (c ∷ s) = if is_space c then skip_spaces s else c ∷ s

-- The sign and the magnitude that strtol and strtoul read.
unfoldable pub signed_digits : Text → Bool × ℕ
unfolding digits_value
signed_digits [] = (false, 0)
signed_digits (c ∷ s) =
    if c == b'-'
    then (true, digits_value 0 s)
    else if c == b'+'
    then (false, digits_value 0 s)
    else (false, digits_value 0 (c ∷ s))

-- Out of range both saturate.
abbrev pub long_of : Bool × ℕ → ℤ
long_of (false, n) = pos (min n (2 ^ 63 - 1))
long_of (true, n) = sub_ℕ 0 (min n (2 ^ 63))

abbrev pub ulong_of : Bool × ℕ → ℕ
ulong_of (false, n) = min n (2 ^ 64 - 1)
ulong_of (true, n) = if ltb (2 ^ 64 - 1) n then 2 ^ 64 - 1 else (2 ^ 64 - n) % 2 ^ 64

-- strtol (s, NULL, 10) and strtoul (s, NULL, 10).
unfoldable pub strtol : Text → ℤ
unfolding signed_digits
strtol s = long_of (signed_digits (skip_spaces s))

unfoldable pub strtoul : Text → ℕ
unfolding signed_digits
strtoul s = ulong_of (signed_digits (skip_spaces s))

-- "%u" and "%lu": the digits of `n` before `acc`; `n + 1` rounds are enough for `n`.
unfoldable pub digits_before : ℕ → ℕ → Text → Text
digits_before zero n acc = acc
digits_before (suc fuel) n acc =
    let more = digits_before fuel (n / 10) ((48 + n % 10) ∷ acc) in
    if ltb n 10 then (48 + n) ∷ acc else more

unfoldable pub decimal : ℕ → Text
unfolding digits_before
decimal n = digits_before (n + 1) n []

-- "%d" and "%ld".
unfoldable pub decimal_ℤ : ℤ → Text
unfolding decimal
decimal_ℤ (pos n) = decimal n
decimal_ℤ (negsuc n) = b'-' ∷ decimal (suc n)

-- strtok: the delimiters are skipped, and the token runs to the next one, which is consumed.
abbrev pub has_byte : List ℕ → ℕ → Bool
has_byte [] c = false
has_byte (d ∷ ds) c = d == c || has_byte ds c

abbrev pub skip_delims : List ℕ → Text → Text
skip_delims ds [] = []
skip_delims ds (c ∷ s) = if has_byte ds c then skip_delims ds s else c ∷ s

abbrev pub span_token : List ℕ → Text → Text → Text × Text
span_token ds acc [] = (reverse acc, [])
span_token ds acc (c ∷ s) = elim (has_byte ds c) [
  | true ↦ (reverse acc, s)
  | false ↦ span_token ds (c ∷ acc) s
]

abbrev token_of : List ℕ → Text → Option (Text × Text)
token_of ds [] = none
token_of ds (c ∷ s) = some (span_token ds [] (c ∷ s))

unfoldable pub strtok : List ℕ → Text → Option (Text × Text)
strtok ds s = token_of ds (skip_delims ds s)

-- What successive calls of fgets (line, size, f) give on a file: a line ends after a newline, or
-- when `size - 1` bytes are in it. `room` is the room left in the line read backwards in `acc`.
unfoldable pub fgets_from : ℕ → ℕ → Text → Text → List Text
fgets_from size room [] [] = []
fgets_from size room (a ∷ acc) [] = reverse (a ∷ acc) ∷ []
fgets_from size room acc (c ∷ s) =
    let ended = reverse (c ∷ acc) ∷ fgets_from size (size - 1) [] s in
    let longer = fgets_from size (room - 1) (c ∷ acc) s in
    if c == 10 || leb room 1 then ended else longer

unfoldable pub fgets_lines : ℕ → Text → List Text
unfolding fgets_from
fgets_lines size file = fgets_from size (size - 1) [] file

-- strcasecmp (s, t) == 0
abbrev pub lower : ℕ → ℕ
lower c = if leb b'A' c && leb c b'Z' then c + 32 else c

abbrev pub same_nocase : Text → Text → Bool
same_nocase [] [] = true
same_nocase (a ∷ s) (b ∷ t) = lower a == lower b && same_nocase s t
same_nocase _ _ = false
