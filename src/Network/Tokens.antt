-- ===== src/Network/Tokens.antt =====
-- src/network.c: the tokens of the congestion controls and the names printed for them.
use sysmngr.Prelude.{
  ℕ, ◌+◌, ◌≤◌, ◌≡◌, ◌≢◌, refl, sym, ◌∙◌, Bool, true, false, Bool-cases, inl, inr, ◌||◌, ◌&&◌, ◌⊎◌,
  ◌==◌, List, [], ◌∷◌, ◌++◌, codes, strstr, has_prefix, length, length-reverse, arith, Text,
}
use sysmngr.Libc.{has_byte}
use sysmngr.Network.{flush, strtok_from, control_name}

prefix-short : (s p : Text) → has_prefix s p ≡ true → length p ≤ length s
prefix-short s [] h = omega arith
prefix-short [] (b ∷ p) h = cc
prefix-short (a ∷ s) (b ∷ p) h = ground (arith, prefix-short s p)

strstr-short : (s p : Text) → strstr s p ≡ true → length p ≤ length s
strstr-short [] p h = prefix-short [] p h
strstr-short (a ∷ s) p h = ground (arith, prefix-short (a ∷ s) p, strstr-short s p)

true-false : true ≢ false
true-false e = cc

false-true : false ≢ true
false-true e = cc

and_right : (a b : Bool) → (a && b) ≡ true → b ≡ true
and_right true b h = h
and_right false b h = cc

or_right : (a b : Bool) → b ≡ true → (a || b) ≡ true
or_right true b h = refl
or_right false b h = h

or_cases : (a b : Bool) → (a || b) ≡ true → (a ≡ true) ⊎ (b ≡ true)
or_cases true b h = inl refl
or_cases false b h = inr h

strstr-prefix : (s p : Text) → has_prefix s p ≡ true → strstr s p ≡ true
strstr-prefix [] p h = h
strstr-prefix (a ∷ s) p h = rw h refl

strstr-tail : (a : ℕ) (s p : Text) → strstr s p ≡ true → strstr (a ∷ s) p ≡ true
strstr-tail a s p h = or_right (has_prefix (a ∷ s) p) (strstr s p) h

prefix-tail : (c d : ℕ) (s p : Text) → has_prefix (c ∷ s) (d ∷ p) ≡ true → has_prefix s p ≡ true
prefix-tail c d s p h = and_right (c == d) (has_prefix s p) h

-- A text with newreno in it has reno in it.
newreno_prefix : (s : Text) → has_prefix s (codes "newreno") ≡ true → strstr s (codes "reno") ≡ true
newreno_prefix [] h = cc
newreno_prefix (a ∷ []) h = absurd (false-true (prefix-tail a 110 [] (codes "ewreno") h))
newreno_prefix (a ∷ b ∷ []) h = absurd (
    false-true
      (prefix-tail b 101 [] (codes "wreno") (prefix-tail a 110 (b ∷ []) (codes "ewreno") h)))
newreno_prefix (a ∷ b ∷ c ∷ s) h =
    let at_b = prefix-tail a 110 (b ∷ c ∷ s) (codes "ewreno") h in
    let at_c = prefix-tail b 101 (c ∷ s) (codes "wreno") at_b in
    let inside = strstr-prefix s (codes "reno") (prefix-tail c 119 s (codes "reno") at_c) in
    strstr-tail a (b ∷ c ∷ s) (codes "reno")
      (strstr-tail b (c ∷ s) (codes "reno") (strstr-tail c s (codes "reno") inside))

pub newreno_inside : (s : Text) → strstr s (codes "newreno") ≡ true → strstr s (codes "reno") ≡ true
newreno_inside [] h = cc
newreno_inside (a ∷ s) h =
    here_or_later (or_cases (has_prefix (a ∷ s) (codes "newreno")) (strstr s (codes "newreno")) h)
      (newreno_inside s)
  where
    here_or_later :
        (has_prefix (a ∷ s) (codes "newreno") ≡ true) ⊎ (strstr s (codes "newreno") ≡ true)
        → (strstr s (codes "newreno") ≡ true → strstr s (codes "reno") ≡ true)
        → strstr (a ∷ s) (codes "reno") ≡ true
    here_or_later (inl e) later = newreno_prefix (a ∷ s) e
    here_or_later (inr e) later = strstr-tail a s (codes "reno") (later e)

-- No token is printed as New Reno: one with newreno in it is printed as Reno.
pub newreno_is_reno :
    (token : Text) → strstr token (codes "newreno") ≡ true → control_name token ≡ codes "Reno,"
unfolding control_name
newreno_is_reno token h = rw (newreno_inside token h) refl

pub name-short : (token : Text) → length (control_name token) ≤ length token + 1
unfolding control_name
name-short token = elim (Bool-cases (strstr token (codes "reno"))) [
  | inl r ↦ rw r (omega (arith, strstr-short token (codes "reno") r))
  | inr r ↦ elim (Bool-cases (strstr token (codes "cubic"))) [
    | inl c ↦ rw (r, c) (omega (arith, strstr-short token (codes "cubic") c))
    | inr c ↦ elim (Bool-cases (strstr token (codes "newreno"))) [
      | inl n ↦ absurd (true-false (sym (newreno_inside token n) ∙ r))
      | inr n ↦ elim (Bool-cases (strstr token (codes "vegas"))) [
        | inl v ↦ rw (r, c, n, v) (omega (arith, strstr-short token (codes "vegas") v))
        | inr v ↦ elim (Bool-cases (strstr token (codes "tahoe"))) [
          | inl t ↦ rw (r, c, n, v, t) (omega (arith, strstr-short token (codes "tahoe") t))
          | inr t ↦ rw (r, c, n, v, t) (omega arith)
        ]
      ]
    ]
  ]
]

-- The bytes of the tokens, with one for a comma after each.
abbrev pub weight : List Text → ℕ
weight [] = 0
weight (token ∷ tokens) = length token + 1 + weight tokens

weight-append : (xs ys : List Text) → weight (xs ++ ys) ≡ weight xs + weight ys
weight-append [] ys = omega arith
weight-append (x ∷ xs) ys = omega (arith, weight-append xs ys)

weight-flush : (acc : Text) → weight (flush acc) ≤ length acc + 1
weight-flush [] = omega arith
weight-flush (a ∷ acc) = omega (arith, length-reverse (a ∷ acc))

pub weight-tokens :
    (ds : List ℕ) (acc s : Text) → weight (strtok_from ds acc s) ≤ length acc + length s + 1
unfolding strtok_from
weight-tokens ds acc [] = omega (arith, weight-flush acc)
weight-tokens ds acc (c ∷ s) = elim (Bool-cases (has_byte ds c)) [
  | inl e ↦ rw e (
      omega (
        arith,
        weight-append (flush acc) (strtok_from ds [] s),
        weight-flush acc,
        weight-tokens ds [] s,
      ))
  | inr e ↦ rw e (omega (arith, weight-tokens ds (c ∷ acc) s))
]
