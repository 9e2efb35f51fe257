-- ===== src/Cpu/Window.antt =====
-- The ring of samples as a window on the latest samples.
use sysmngr.Prelude.{
  ℕ, zero, suc, ◌+◌, ◌-◌, ◌%◌, ◌^◌, ◌≤◌, ◌<◌, ◌≡◌, refl, sym, ap, ◌∙◌, Bool, true, false,
  Bool-cases, inl, inr, List, [], ◌∷◌, ◌++◌, leb, ◌||◌, if◌then◌else◌, arith, length, set, take,
  drop, length-append, length-take, length-drop, length-set, take_all, drop-nil, drop-cons,
  drop_none, take-append-drop, leb→le,
}
use mathlib.Core.List.{append_assoc, append-nil}
use native.Mathlib.Nat.{mod_self, mod-eq_of_lt}
use sysmngr.Libc.{u32}
use sysmngr.Cpu.{sum_from}

-- The last n elements.
abbrev pub latest {ℓ} : {A : Type ℓ} → ℕ → List A → List A
latest n xs = drop (length xs - n) xs

-- The samples that the ring holds, oldest first.
abbrev pub window : Bool → ℕ → List ℕ → List ℕ
window true i buf = drop i buf ++ take i buf
window false i buf = take i buf

abbrev pub sum : List ℕ → ℕ
sum [] = 0
sum (x ∷ xs) = x + sum xs

sum-append : (xs ys : List ℕ) → sum (xs ++ ys) ≡ sum xs + sum ys
sum-append [] ys = omega arith
sum-append (x ∷ xs) ys = omega (arith, sum-append xs ys)

-- The loop over unsigned ints wraps once in the end.
pub sum_from-sum : (acc : ℕ) (xs : List ℕ) → acc < 2 ^ 32 → sum_from acc xs ≡ u32 (acc + sum xs)
sum_from-sum acc [] h = omega arith
sum_from-sum acc (x ∷ xs) h = omega (arith, sum_from-sum (u32 (acc + x)) xs (omega arith))

-- The sum does not see where the ring is cut.
pub sum-window : (i : ℕ) (buf : List ℕ) → sum (window true i buf) ≡ sum buf
sum-window i buf = omega (
  arith,
  sum-append (drop i buf) (take i buf),
  sum-append (take i buf) (drop i buf),
  ap sum (take-append-drop i buf),
)

take-set :
    (buf : List ℕ) (i x : ℕ) → i < length buf → take (suc i) (set buf i x) ≡ take i buf ++ (x ∷ [])
take-set [] i x h = elim h [ ]
take-set (b ∷ buf) zero x h = refl
take-set (b ∷ buf) (suc i) x h = ap (λ (r : List ℕ). b ∷ r) (take-set buf i x (omega arith))

drop-set : (buf : List ℕ) (i x : ℕ) → drop (suc i) (set buf i x) ≡ drop (suc i) buf
drop-set [] i x = refl
drop-set (b ∷ buf) zero x = refl
drop-set (b ∷ buf) (suc i) x = drop-set buf i x

drop-head : (buf : List ℕ) (i : ℕ) → i < length buf → (y : ℕ) × (drop i buf ≡ y ∷ drop (suc i) buf)
drop-head [] i h = elim h [ ]
drop-head (b ∷ buf) zero h = (b, refl)
drop-head (b ∷ buf) (suc i) h = drop-head buf i (omega arith)

-- The last place written: the whole ring is what stood before it, and the new sample.
set_last : (buf : List ℕ) (i x : ℕ) → suc i ≡ length buf → set buf i x ≡ take i buf ++ (x ∷ [])
set_last buf i x h =
    sym (take_all (suc i) (set buf i x) (omega (arith, length-set buf i x)))
    ∙ take-set buf i x (omega arith)

or-true : (b : Bool) → (b || true) ≡ true
or-true true = refl
or-true false = refl

or-false : (b : Bool) → (b || false) ≡ b
or-false true = refl
or-false false = refl

leb_false→lt : (a b : ℕ) → leb a b ≡ false → b < a
leb_false→lt a b e = ground arith

wraps : (n i : ℕ) → i + 1 ≡ n → (i + 1) % n ≡ 0
wraps n i e = ap (λ k. k % n) e ∙ mod_self n

steps : (n i : ℕ) → i + 1 < n → (i + 1) % n ≡ suc i
steps n i e = mod-eq_of_lt (omega arith) ∙ omega arith

drop_all : (n : ℕ) (xs : List ℕ) → n ≡ length xs → drop n xs ≡ []
drop_all n [] e = drop-nil ℕ n
drop_all zero (x ∷ xs) e = absurd (omega arith)
drop_all (suc n) (x ∷ xs) e = drop_all n xs (omega arith)

drop-drop : (m k : ℕ) (xs : List ℕ) → drop m (drop k xs) ≡ drop (k + m) xs
drop-drop m zero xs = ap (λ j. drop j xs) (omega arith)
drop-drop m (suc k) [] = drop-nil ℕ m ∙ sym (drop-nil ℕ (suc k + m))
drop-drop m (suc k) (x ∷ xs) =
    drop-drop m k xs ∙ sym (drop-cons (suc k + m) (k + m) x xs (omega arith))

drop-append : (k : ℕ) (xs ys : List ℕ) → k ≤ length xs → drop k xs ++ ys ≡ drop k (xs ++ ys)
drop-append zero xs ys h = refl
drop-append (suc k) [] ys h = absurd (omega arith)
drop-append (suc k) (x ∷ xs) ys h = drop-append k xs ys (omega arith)

window-at : {b c : Bool} {j k : ℕ} (xs : List ℕ) → b ≡ c → j ≡ k → window b j xs ≡ window c k xs
window-at xs p q = λ i. window (p i) (q i) xs

-- A window that is cut after each sample is the cut of them all.
pub latest-latest : (n : ℕ) (xs ys : List ℕ) → latest n (latest n xs ++ ys) ≡ latest n (xs ++ ys)
latest-latest n xs ys =
    let k = length xs - n in
    let same = drop-append k xs ys (omega arith) in
    let size : k + (length (drop k xs ++ ys) - n) ≡ length (xs ++ ys) - n =
      omega (arith, length-append (drop k xs) ys, length-append xs ys, length-drop k xs) in
    ap (drop (length (drop k xs ++ ys) - n)) same
    ∙ drop-drop (length (drop k xs ++ ys) - n) k (xs ++ ys)
    ∙ ap (λ m. drop m (xs ++ ys)) size

module _ (n i x : ℕ) (buf : List ℕ) (len : length buf ≡ n) (inside : i < n) where
  -- A ring that is not full grows.
  latest_short : latest n (take i buf ++ (x ∷ [])) ≡ take i buf ++ (x ∷ [])
  latest_short =
      drop_none _ _ (omega (arith, length-append (take i buf) (x ∷ []), length-take i buf))

  -- A full ring loses its oldest sample.
  latest_full :
      latest n (window true i buf ++ (x ∷ [])) ≡ drop (suc i) buf ++ (take i buf ++ (x ∷ []))
  latest_full =
      let (y, e) = drop-head buf i (omega arith) in
      let l = window true i buf ++ (x ∷ []) in
      let size : length l ≡ suc n = omega (
        arith,
        length-append (window true i buf) (x ∷ []),
        length-append (drop i buf) (take i buf),
        length-take i buf,
        length-drop i buf,
      ) in
      let one : length l - n ≡ 1 = omega arith in
      ap (λ k. drop k l) one
      ∙ ap (λ (d : List ℕ). drop 1 (d ++ take i buf ++ (x ∷ []))) e
      ∙ append_assoc (drop (suc i) buf) (take i buf) (x ∷ [])

  -- The write is not in the last place.
  window-store_inner :
      (full : Bool) → window full (suc i) (set buf i x) ≡ latest n (window full i buf ++ (x ∷ []))
  window-store_inner true =
      ap (λ (d : List ℕ). d ++ take (suc i) (set buf i x)) (drop-set buf i x)
      ∙ ap (λ (t : List ℕ). drop (suc i) buf ++ t) (take-set buf i x (omega arith))
      ∙ sym latest_full
  window-store_inner false = take-set buf i x (omega arith) ∙ sym latest_short

  -- The write is in the last place: the index goes back to 0 and the ring is full.
  window-store_last :
      suc i ≡ n
      → (full : Bool) → window true 0 (set buf i x) ≡ latest n (window full i buf ++ (x ∷ []))
  window-store_last e true =
      append-nil _
      ∙ set_last buf i x (omega arith)
      ∙ sym (
          latest_full
          ∙ ap (λ (d : List ℕ). d ++ (take i buf ++ (x ∷ []))) (drop_all (suc i) buf (omega arith)))
  window-store_last e false = append-nil _ ∙ set_last buf i x (omega arith) ∙ sym latest_short

  -- One sample is stored: the window becomes the latest n of its samples and the new one.
  pub window-store :
      (full : Bool)
      → window (full || leb n (i + 1)) ((i + 1) % n) (set buf i x)
        ≡ latest n (window full i buf ++ (x ∷ []))
  window-store full = elim (Bool-cases (leb n (i + 1))) [
    | inl e ↦
        let last : suc i ≡ n = omega (arith, leb→le n (i + 1) e) in
        let reset : (i + 1) % n ≡ 0 = wraps n i (omega arith) in
        window-at (set buf i x) (ap (λ b. full || b) e ∙ or-true full) reset
        ∙ window-store_last last full
    | inr e ↦
        let next : (i + 1) % n ≡ suc i = steps n i (leb_false→lt n (i + 1) e) in
        window-at (set buf i x) (ap (λ b. full || b) e ∙ or-false full) next
        ∙ window-store_inner full
  ]

pub length-window :
    (full : Bool) (i : ℕ) (buf : List ℕ)
    → i < length buf
    → length (window full i buf) ≡ (if full then length buf else i)
length-window true i buf h =
    omega (arith, length-append (drop i buf) (take i buf), length-take i buf, length-drop i buf)
length-window false i buf h = omega (arith, length-take i buf)
