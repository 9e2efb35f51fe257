-- ===== src/Network/Controls.antt =====
-- src/network.c: the list of congestion controls.
use sysmngr.Prelude.{
  suc, ◌+◌, ◌-◌, ◌≤◌, ◌≡◌, refl, sym, ap, ◌∙◌, Bool, true, false, Bool-cases, inl, inr, Option,
  none, some, ◌>>=◌, List, [], ◌∷◌, ◌++◌, if◌then◌else◌, codes, strstr, has_prefix, length,
  length-append, take-append, length-take, take, take_all, snprintf_s, arith, Text, le→leb, lt→ltb,
}
use mathlib.Core.List.{append-nil, append_assoc}
use sysmngr.Network.Tokens.{newreno_inside, name-short, weight, weight-tokens}
use sysmngr.Network.{
  strtok_from, control_name, print_at, print_controls, cut_comma, get_tcp_implementation,
}

prefix-short : (s p : Text) → has_prefix s p ≡ true → length p ≤ length s
prefix-short s [] h = omega arith
prefix-short [] (b ∷ p) h = cc
prefix-short (a ∷ s) (b ∷ p) h = ground (arith, prefix-short s p)

strstr-short : (s p : Text) → strstr s p ≡ true → length p ≤ length s
strstr-short [] p h = prefix-short [] p h
strstr-short (a ∷ s) p h = ground (arith, prefix-short (a ∷ s) p, strstr-short s p)

-- The controls of the tokens, and their list with commas between them.
abbrev pub control_of : Text → Option Text
control_of token =
    if strstr token (codes "reno")
    then some (codes "Reno")
    else if strstr token (codes "cubic")
    then some (codes "Cubic")
    else if strstr token (codes "vegas")
    then some (codes "Vegas")
    else if strstr token (codes "tahoe")
    then some (codes "Tahoe")
    else none

abbrev pub cons_some : Option Text → List Text → List Text
cons_some none names = names
cons_some (some name) names = name ∷ names

abbrev pub controls : List Text → List Text
controls [] = []
controls (token ∷ tokens) = cons_some (control_of token) (controls tokens)

abbrev pub joined : List Text → Text
joined [] = []
joined (name ∷ []) = name
joined (name ∷ other ∷ names) = name ++ (b',' ∷ joined (other ∷ names))

abbrev with_commas : List Text → Text
with_commas [] = []
with_commas (name ∷ names) = name ++ (b',' ∷ with_commas names)

abbrev comma_after : Option Text → Text
comma_after none = []
comma_after (some name) = name ++ (b',' ∷ [])

same_name :
    (r c v t : Bool)
    → (if r
        then codes "Reno,"
        else if c
        then codes "Cubic,"
        else if v
        then codes "Vegas,"
        else if t
        then codes "Tahoe,"
        else [])
      ≡ comma_after (
          if r
          then some (codes "Reno")
          else if c
          then some (codes "Cubic")
          else if v
          then some (codes "Vegas")
          else if t
          then some (codes "Tahoe")
          else none)
same_name true c v t = refl
same_name false true v t = refl
same_name false false true t = refl
same_name false false false true = refl
same_name false false false false = refl

name-control : (token : Text) → control_name token ≡ comma_after (control_of token)
unfolding control_name
name-control token = elim (Bool-cases (strstr token (codes "newreno"))) [
  | inl n ↦ rw (newreno_inside token n) refl
  | inr n ↦ rw n (
      same_name (strstr token (codes "reno")) (strstr token (codes "cubic"))
        (strstr token (codes "vegas")) (strstr token (codes "tahoe")))
]

commas-joined :
    (name : Text) (names : List Text)
    → with_commas (name ∷ names) ≡ joined (name ∷ names) ++ (b',' ∷ [])
commas-joined name [] = refl
commas-joined name (other ∷ names) =
    ap (λ t. name ++ (b',' ∷ t)) (commas-joined other names)
    ∙ sym (append_assoc name (b',' ∷ joined (other ∷ names)) (b',' ∷ []))

commas-cons :
    (o : Option Text) (names : List Text)
    → with_commas (cons_some o names) ≡ comma_after o ++ with_commas names
commas-cons none names = refl
commas-cons (some name) names = sym (append_assoc name (b',' ∷ []) (with_commas names))

print_at-fits :
    (name output : Text)
    → length output + length name ≤ 255
    → print_at 256 name (output, length output) ≡ some (output ++ name, length (output ++ name))
print_at-fits [] output h = ap (λ t. some (t, length t)) (sym (append-nil output))
print_at-fits (c ∷ name) output h =
    let whole : take (length output) output ≡ output =
      take_all (length output) output (omega arith) in
    let rest : take (256 - length output - 1) (c ∷ name) ≡ c ∷ name =
      take_all (256 - length output - 1) (c ∷ name) (omega (arith, h)) in
    let place : length output + suc (length name) ≡ length (output ++ (c ∷ name)) =
      sym (length-append output (c ∷ name)) in
    rw (le→leb (length output) 256 (omega (arith, h))) (λ i. some (whole i ++ rest i, place i))

prints :
    (tokens : List Text) (output : Text)
    → length output + weight tokens ≤ 255
    → print_controls 256 tokens (output, length output)
      ≡ some (
        output ++ with_commas (controls tokens),
        length (output ++ with_commas (controls tokens)),
      )
unfolding print_controls
prints [] output h = ap (λ t. some (t, length t)) (sym (append-nil output))
prints (token ∷ tokens) output h =
    let name = control_name token in
    let longer : length (output ++ name) + weight tokens ≤ 255 =
      omega (arith, h, length-append output name, name-short token) in
    let text : (output ++ name) ++ with_commas (controls tokens)
        ≡ output ++ with_commas (controls (token ∷ tokens)) =
      append_assoc output name (with_commas (controls tokens))
      ∙ ap (λ x. output ++ x)
          (ap (λ x. x ++ with_commas (controls tokens)) (name-control token)
            ∙ sym (commas-cons (control_of token) (controls tokens))) in
    ap (λ o. o >>= λ next. print_controls 256 tokens next)
      (print_at-fits name output (omega (arith, h, name-short token)))
    ∙ prints tokens (output ++ name) longer
    ∙ ap (λ x. some (x, length x)) text

cut_own : (j t : Text) → length j ≤ 255 → cut_comma 256 (j ++ t, suc (length j)) ≡ some j
cut_own j t h =
    rw (lt→ltb (length j) 256 (omega (arith, h)))
      (ap some (take-append (length j) j t (omega arith) ∙ take_all (length j) j (omega arith)))

cuts :
    (names : List Text)
    → length (with_commas names) ≤ 255
    → cut_comma 256 (with_commas names, length (with_commas names)) ≡ some (joined names)
cuts [] h = refl
cuts (name ∷ names) h =
    let e = commas-joined name names in
    let j = joined (name ∷ names) in
    let place : length (with_commas (name ∷ names)) ≡ suc (length j) =
      ap length e ∙ length-append j (b',' ∷ []) ∙ omega arith in
    ap (λ n. cut_comma 256 (with_commas (name ∷ names), n)) place
    ∙ ap (λ x. cut_comma 256 (x, suc (length j))) e
    ∙ cut_own j (b',' ∷ []) (omega (arith, place, h))

length-commas : (tokens : List Text) → length (with_commas (controls tokens)) ≤ weight tokens
length-commas [] = omega arith
length-commas (token ∷ tokens) =
    let e : length (with_commas (controls (token ∷ tokens)))
        ≡ length (control_name token) + length (with_commas (controls tokens)) =
      ap length (
        commas-cons (control_of token) (controls tokens)
        ∙ ap (λ x. x ++ with_commas (controls tokens)) (sym (name-control token)))
      ∙ length-append (control_name token) (with_commas (controls tokens)) in
    omega (arith, e, name-short token, length-commas tokens)

-- The tokens of the file, as far as it fits into the buffer.
abbrev pub tokens_of : Option Text → List Text
tokens_of none = []
tokens_of (some file) = strtok_from (32 ∷ []) [] (snprintf_s 128 file)

-- The list of congestion controls is never written outside its buffer and never cut: for every file it is the
-- known controls of the tokens, in their order and with commas between them, and "" without a file.
pub get_tcp_implementation-joined :
    (file : Option Text) → get_tcp_implementation file ≡ some (joined (controls (tokens_of file)))
unfolding get_tcp_implementation
get_tcp_implementation-joined none = refl
get_tcp_implementation-joined (some file) =
    let s = snprintf_s 128 file in
    let tokens = strtok_from (32 ∷ []) [] s in
    let few : weight tokens ≤ 255 =
      omega (arith, weight-tokens (32 ∷ []) [] s, length-take 127 file) in
    ap (λ o. o >>= λ state. cut_comma 256 state) (prints tokens [] (omega (arith, few)))
    ∙ cuts (controls tokens) (omega (arith, few, length-commas tokens))
