-- ===== src/Configs/Sync.antt =====
-- src/configs.c: the sections of the vendor config files against the files.
use sysmngr.Prelude.{
  ℕ, zero, suc, ◌+◌, ◌≡◌, refl, sym, ap, ◌∙◌, Bool, true, false, Bool-cases, inl, inr, ◌⊎◌, ◌&&◌,
  ◌||◌, not, List, [], ◌∷◌, ◌++◌, if◌then◌else◌, ◌==◌, text_eq, eq_of_text_eq, snprintf_s, subst,
  arith, Text,
}
use sysmngr.Configs.{
  Section, has_section, starts_with_dot, add_section, add_files, remove_missing,
  dmmap_synchronize_vcf_inst,
}

-- How many sections have the name.
abbrev pub count : Text → List Section → ℕ
count n [] = 0
count n (s ∷ rest) = (if text_eq s.name n then 1 else 0) + count n rest

-- Does a visible file have the name?
abbrev pub is_listed : Text → List Text → Bool
is_listed n [] = false
is_listed n (f ∷ files) = (text_eq f n && not (starts_with_dot f)) || is_listed n files

-- The sections that a name has once the files are gone through.
abbrev pub at_least_one : Bool → ℕ → ℕ
at_least_one listed zero = if listed then 1 else 0
at_least_one listed (suc k) = suc k

count-append : (n : Text) (xs ys : List Section) → count n (xs ++ ys) ≡ count n xs + count n ys
count-append n [] ys = omega arith
count-append n (s ∷ xs) ys = omega (arith, count-append n xs ys)

has-count :
    (n : Text) (sections : List Section) → has_section n sections ≡ not (count n sections == 0)
has-count n [] = refl
has-count n (s ∷ rest) = ground (arith, has-count n rest)

and_false : (b : Bool) → (b && false) ≡ false
and_false true = refl
and_false false = refl

as_before : (k : ℕ) → at_least_one false k ≡ k
as_before zero = refl
as_before (suc k) = refl

stays : (b : Bool) (k : ℕ) → not (k == 0) ≡ true → at_least_one b k ≡ k
stays b zero h = cc
stays b (suc k) h = refl

count-add :
    (n f : Text) (sections : List Section)
    → count n (add_section f sections)
      ≡ at_least_one (text_eq f n && not (starts_with_dot f)) (count n sections)
count-add n f sections = elim (Bool-cases (starts_with_dot f)) [
  | inl d ↦ rw d (
      sym (
        ap (λ c. at_least_one c (count n sections)) (and_false (text_eq f n))
        ∙ as_before (count n sections)))
  | inr d ↦ elim (Bool-cases (has_section f sections)) [
    | inl h ↦
        rw (d, h)
          (elim (Bool-cases (text_eq f n)) [
            | inl e ↦ rw e (
                sym (
                  stays true (count n sections) (
                    sym (has-count n sections)
                    ∙ subst (λ m. has_section m sections ≡ true) (eq_of_text_eq f n e) h)))
            | inr e ↦ rw e (sym (as_before (count n sections)))
          ])
    | inr h ↦
        rw (d, h)
          (elim (Bool-cases (text_eq f n)) [
            | inl e ↦ rw e (
                count-append n sections _
                ∙ first (count n sections) f e (
                    sym (has-count n sections)
                    ∙ subst (λ m. has_section m sections ≡ false) (eq_of_text_eq f n e) h))
            | inr e ↦ rw e (count-append n sections _ ∙ other (count n sections) f e)
          ])
  ]
]
  where
    first :
        (k : ℕ) (f : Text)
        → text_eq f n ≡ true
        → not (k == 0) ≡ false
        → k + ((if text_eq f n then 1 else 0) + 0) ≡ at_least_one true k
    first zero f e h = rw e refl
    first (suc k) f e h = ground arith

    other :
        (k : ℕ) (f : Text)
        → text_eq f n ≡ false
        → k + ((if text_eq f n then 1 else 0) + 0) ≡ at_least_one false k
    other k f e = rw e (sum ∙ sym (as_before k))
      where
        sum : k + (0 + 0) ≡ k
        sum = omega arith

at_least_one-or : (a b : Bool) (k : ℕ) → at_least_one b (at_least_one a k) ≡ at_least_one (a || b) k
at_least_one-or true b zero = refl
at_least_one-or false b zero = refl
at_least_one-or a b (suc k) = refl

count-files :
    (n : Text) (files : List Text) (sections : List Section)
    → count n (add_files files sections) ≡ at_least_one (is_listed n files) (count n sections)
unfolding add_files
count-files n [] sections = sym (as_before (count n sections))
count-files n (f ∷ files) sections =
    count-files n files (add_section f sections)
    ∙ ap (at_least_one (is_listed n files)) (count-add n f sections)
    ∙ at_least_one-or (text_eq f n && not (starts_with_dot f)) (is_listed n files)
        (count n sections)

-- One section that is kept or not, in front of the others.
one_kept :
    (n : Text) (s : Section) (kept rest : List Section) (own all : Bool)
    → (text_eq s.name n ≡ false) ⊎ (own ≡ all)
    → count n kept ≡ (if all then count n rest else 0)
    → count n (if own then s ∷ kept else kept) ≡ (if all then count n (s ∷ rest) else 0)
one_kept n s kept rest true true h k = ap (λ c. (if text_eq s.name n then 1 else 0) + c) k
one_kept n s kept rest false false h k = k
one_kept n s kept rest true false (inl e) k = rw e (omega (arith, k))
one_kept n s kept rest true false (inr e) k = cc
one_kept n s kept rest false true (inl e) k = rw e (omega (arith, k))
one_kept n s kept rest false true (inr e) k = cc

count-remove :
    (config_dir : Text) (exists : Text → Bool) (n : Text) (sections : List Section)
    → count n (remove_missing config_dir exists sections)
      ≡ (if exists (snprintf_s 128 (config_dir ++ n)) then count n sections else 0)
unfolding remove_missing
count-remove config_dir exists n [] = both (exists (snprintf_s 128 (config_dir ++ n)))
  where
    both : (e : Bool) → ◌≡◌ {A = ℕ} 0 (if e then 0 else 0)
    both true = refl
    both false = refl
count-remove config_dir exists n (s ∷ rest) =
    one_kept n s (remove_missing config_dir exists rest) rest
      (exists (snprintf_s 128 (config_dir ++ s.name))) (exists (snprintf_s 128 (config_dir ++ n)))
      (same_or_other (Bool-cases (text_eq s.name n))) (count-remove config_dir exists n rest)
  where
    same_or_other :
        (text_eq s.name n ≡ true) ⊎ (text_eq s.name n ≡ false)
        → (text_eq s.name n ≡ false)
          ⊎ (exists (snprintf_s 128 (config_dir ++ s.name))
              ≡ exists (snprintf_s 128 (config_dir ++ n)))
    same_or_other (inl e) =
        inr (ap (λ m. exists (snprintf_s 128 (config_dir ++ m))) (eq_of_text_eq s.name n e))
    same_or_other (inr e) = inl e

-- The synchronization leaves a name without a section if its file does not exist. For a file that exists it
-- keeps the sections that its name had; if there was none, it makes one exactly if the file is listed and
-- visible.
pub synchronize-count :
    (config_dir : Text) (exists : Text → Bool) (files : List Text) (sections : List Section)
    (n : Text)
    → count n (dmmap_synchronize_vcf_inst config_dir exists files sections) ≡ (
        if exists (snprintf_s 128 (config_dir ++ n))
        then at_least_one (is_listed n files) (count n sections)
        else 0)
unfolding dmmap_synchronize_vcf_inst
synchronize-count config_dir exists files sections n =
    count-remove config_dir exists n (add_files files sections)
    ∙ ap (λ k. if exists (snprintf_s 128 (config_dir ++ n)) then k else 0)
        (count-files n files sections)
