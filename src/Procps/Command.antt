-- ===== src/Procps/Command.antt =====
-- src/processes.c: the command that is shown of a process.
use sysmngr.Prelude.{
  ℕ, zero, suc, ◌+◌, ◌-◌, ◌≤◌, ◌≡◌, refl, Bool-cases, inl, inr, Option, none, some, List, [], ◌∷◌,
  ◌++◌, map, ltb, has_prefix, take, snprintf_s, length, length-take, arith, Text,
}
use sysmngr.Procps.{
  ProcLib, or_nothing, strip_nuls, blank, skip_dash, or_question, prepend_comm, name_thread,
  shown_command, procps_get_cmdline,
}

-- No byte below the space (32); 127 may be there.
abbrev pub NoneBelowSpace : Text → Type 0
NoneBelowSpace [] = Unit
NoneBelowSpace (c ∷ s) = (32 ≤ c) × NoneBelowSpace s

NoneBelowSpace-append : (s t : Text) → NoneBelowSpace s → NoneBelowSpace t → NoneBelowSpace (s ++ t)
NoneBelowSpace-append [] t h k = k
NoneBelowSpace-append (c ∷ s) t (x, h) k = (x, NoneBelowSpace-append s t h k)

NoneBelowSpace-take : (n : ℕ) (s : Text) → NoneBelowSpace s → NoneBelowSpace (take n s)
NoneBelowSpace-take zero s h = tt
NoneBelowSpace-take (suc n) [] h = tt
NoneBelowSpace-take (suc n) (c ∷ s) (x, h) = (x, NoneBelowSpace-take n s h)

blank-high : (c : ℕ) → 32 ≤ blank c
blank-high c = ground arith

NoneBelowSpace-blank : (bytes : List ℕ) → NoneBelowSpace (map blank bytes)
NoneBelowSpace-blank [] = tt
NoneBelowSpace-blank (c ∷ bytes) = (blank-high c, NoneBelowSpace-blank bytes)

length-map : (bytes : List ℕ) → length (map blank bytes) ≡ length bytes
length-map [] = refl
length-map (c ∷ bytes) = omega (arith, length-map bytes)

length-strip : (bytes : List ℕ) → length (strip_nuls bytes) ≤ length bytes
length-strip [] = omega arith
length-strip (c ∷ bytes) = ground (arith, length-strip bytes)

-- What is shown of a command fits into the buffer and has no byte below the space.
abbrev Shown : ℕ → Text → Type 0
Shown bufsz text = NoneBelowSpace text × (length text ≤ bufsz - 1)

cut-Shown : (bufsz : ℕ) (s : Text) → NoneBelowSpace s → Shown bufsz (snprintf_s bufsz s)
cut-Shown bufsz s h =
    (NoneBelowSpace-take (bufsz - 1) s h, omega (arith, length-take (bufsz - 1) s))

prepend-Shown :
    (bufsz : ℕ) (comm text : Text)
    → NoneBelowSpace comm
    → NoneBelowSpace text
    → Shown bufsz (prepend_comm bufsz comm text)
prepend-Shown bufsz comm text h k = elim (Bool-cases (ltb (length comm + 3) bufsz)) [
  | inl e ↦ rw e (
      cut-Shown bufsz _
        (omega arith, NoneBelowSpace-append comm _ h (omega arith, (omega arith, k))))
  | inr e ↦ rw e (cut-Shown bufsz _ (omega arith, NoneBelowSpace-append comm _ h (omega arith, tt)))
]

abbrev OptPrintable : Option Text → Type 0
OptPrintable none = Unit
OptPrintable (some comm) = NoneBelowSpace comm

thread-Shown :
    (bufsz : ℕ) (comm : Option Text) (base text : Text)
    → OptPrintable comm
    → Shown bufsz text
    → Shown bufsz (name_thread bufsz comm base text)
thread-Shown bufsz none base text h k = k
thread-Shown bufsz (some comm) base text h k =
    elim (Bool-cases (has_prefix (skip_dash base) comm)) [
      | inl e ↦ rw e k
      | inr e ↦ rw e (prepend-Shown bufsz comm text h k.0)
    ]

question-NoneBelowSpace :
    (comm : Option Text) → OptPrintable comm → NoneBelowSpace (or_question comm)
question-NoneBelowSpace none h = (omega arith, tt)
question-NoneBelowSpace (some comm) h = h

command-Shown :
    (lib : ProcLib) (bufsz : ℕ) (comm : Option Text) (bytes : List ℕ)
    → OptPrintable comm
    → length bytes ≤ bufsz - 1
    → Shown bufsz (shown_command lib bufsz comm bytes)
command-Shown lib bufsz comm [] h k = cut-Shown bufsz _ (
  omega arith,
  NoneBelowSpace-append (or_question comm) _ (question-NoneBelowSpace comm h) (omega arith, tt),
)
command-Shown lib bufsz comm (c ∷ bytes) h k =
    thread-Shown bufsz comm _ (map blank (strip_nuls (c ∷ bytes))) h (
      NoneBelowSpace-blank (strip_nuls (c ∷ bytes)),
      omega (arith, length-map (strip_nuls (c ∷ bytes)), length-strip (c ∷ bytes)),
    )

fits_or_nothing :
    (o : Option (List ℕ)) (bufsz : ℕ)
    → ((bytes : List ℕ) → o ≡ some bytes → length bytes ≤ bufsz - 1)
    → length (or_nothing o) ≤ bufsz - 1
fits_or_nothing none bufsz h = omega arith
fits_or_nothing (some bytes) bufsz h = h bytes refl

-- If the name of the process has no byte below the space (32), and reading a file fills at most the buffer less its
-- last byte, then the command shown has no byte below the space, and fits into the buffer.
pub get_cmdline-NoneBelowSpace :
    (lib : ProcLib) (bufsz : ℕ) (pid comm : Text)
    → NoneBelowSpace comm
    → ((path : Text) (bytes : List ℕ)
        → lib.file_to_buf path bufsz ≡ some bytes
        → length bytes ≤ bufsz - 1)
    → let text = procps_get_cmdline lib bufsz pid (some comm) in
      NoneBelowSpace text × (length text ≤ bufsz - 1)
unfolding procps_get_cmdline
get_cmdline-NoneBelowSpace lib bufsz pid comm h fits =
    command-Shown lib bufsz (some comm) _ h (fits_or_nothing _ bufsz (fits _))
