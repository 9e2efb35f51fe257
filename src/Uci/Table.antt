-- ===== src/Uci/Table.antt =====
-- A configuration held in memory that has the laws of Uci: the options newest first, and for each
-- package and type the names of its sections.
use sysmngr.Prelude.{
  ℕ, ◌≡◌, refl, Bool, true, false, ◌&&◌, ◌||◌, some, List, [], ◌∷◌, ◌++◌, if◌then◌else◌, Text,
  text_eq, text_eq_refl, snprintf_s, arith, eq_of_text_eq, is_empty, Bool-cases, inl, inr, ap,
  subst,
}
use mathlib.Core.Option.{some-injective}
use sysmngr.Uci.{Key, key_eq, erase, Uci, UciLaws}

pub record Table : Type 0 where
  pub options : List (Key × Text)
  pub names : Text → Text → List Text
  pub used : List (Text × Text)

abbrev pub lookup : Key → List (Key × Text) → Text
lookup j [] = []
lookup j ((k, v) ∷ rest) = if key_eq k j then v else lookup j rest

abbrev or_default : Text → Text → Text
or_default d [] = d
or_default d (a ∷ s) = a ∷ s

abbrev without : Text → Text → List (Key × Text) → List (Key × Text)
without p s [] = []
without p s (((q, t, o), v) ∷ rest) =
    if text_eq q p && text_eq t s then without p s rest else ((q, t, o), v) ∷ without p s rest

abbrev is_used : Text → Text → List (Text × Text) → Bool
is_used p s [] = false
is_used p s ((q, t) ∷ rest) = (text_eq q p && text_eq t s) || is_used p s rest

abbrev add_name : Table → Text → Text → Text → Table
add_name c p s t = record c {
  names = λ q u. if text_eq p q && text_eq t u then c.names q u ++ (s ∷ []) else c.names q u;
  used = (p, s) ∷ c.used;
}

abbrev remove_name : Table → Text → Text → Table
remove_name c p s = record {
  options = without p s c.options;
  names = λ q u. if text_eq p q then erase s (c.names q u) else c.names q u;
  used = c.used;
}

abbrev pub table_uci : Uci
table_uci = record {
  Config = Table;
  get = λ c j d n. snprintf_s n (or_default d (lookup j c.options));
  set = λ c k v. record c { options = (k, v) ∷ c.options };
  add = λ c p s t. if is_used p s c.used then c else add_name c p s t;
  sections = λ c p t. c.names p t;
  taken = λ c p s. is_used p s c.used;
  delete = λ c p s. some (remove_name c p s);
  commit = λ c p. true;
}

abbrev pub empty_table : Table
empty_table = record { options = []; names = λ p t. []; used = [] }

lookup-without :
    (p s : Text) (j : Key) (l : List (Key × Text))
    → text_eq s j.1 ≡ false
    → lookup j (without p s l) ≡ lookup j l
lookup-without p s j [] h = refl
lookup-without p s (q, t, o) (((q', t', o'), v) ∷ l) h = ground (
  arith,
  lookup-without p s (q, t, o) l h,
  eq_of_text_eq t' s,
  eq_of_text_eq t' t,
  text_eq_refl t,
)

table_get-set :
    (c : Table) (k j : Key) (v d : Text) (n : ℕ)
    → table_uci.get (table_uci.set c k v) j d n ≡ (
        if key_eq k j
        then (if is_empty v then snprintf_s n d else snprintf_s n v)
        else table_uci.get c j d n)
table_get-set c k j [] d n = ground arith
table_get-set c k j (a ∷ v) d n = ground arith

table_get-add :
    (c : Table) (p s t : Text) (j : Key) (d : Text) (n : ℕ)
    → table_uci.get (table_uci.add c p s t) j d n ≡ table_uci.get c j d n
table_get-add c p s t j d n = elim (Bool-cases (is_used p s c.used)) [ inl e ↦ rw e | inr e ↦ rw e ]

table_sections-add :
    (c : Table) (p s t : Text)
    → is_used p s c.used ≡ false
    → table_uci.sections (table_uci.add c p s t) p t ≡ c.names p t ++ (s ∷ [])
table_sections-add c p s t h = rw (h, text_eq_refl p, text_eq_refl t)

module _ (c c' : Table) (p s : Text) (h : some (remove_name c p s) ≡ some c') where
  table_sections-delete : (t : Text) → c'.names p t ≡ erase s (c.names p t)
  table_sections-delete t =
      subst (λ (x : Table). x.names p t ≡ erase s (c.names p t)) (some-injective _ _ h)
        (rw (text_eq_refl p))

  table_taken-delete : (t : Text) → is_used p t c.used ≡ false → is_used p t c'.used ≡ false
  table_taken-delete t k =
      subst (λ (x : Table). is_used p t x.used ≡ false) (some-injective _ _ h) k

  table_get-delete :
      (j : Key) (d : Text) (n : ℕ)
      → text_eq s j.1 ≡ false
      → table_uci.get c' j d n ≡ table_uci.get c j d n
  table_get-delete j d n k =
      subst (λ (x : Table). table_uci.get x j d n ≡ table_uci.get c j d n) (some-injective _ _ h)
        (ap (λ v. snprintf_s n (or_default d v)) (lookup-without p s j c.options k))

pub table_laws : UciLaws table_uci
table_laws = record {
  get-set = table_get-set;
  get-add = table_get-add;
  sections-set = λ c k v p t. refl;
  taken-set = λ c k v p s. refl;
  sections-add = table_sections-add;
  sections-delete = λ c c' p s t h. table_sections-delete c c' p s h t;
  taken-delete = λ c c' p s t h. table_taken-delete c c' p s h t;
  get-delete = λ c c' p s j d n h. table_get-delete c c' p s h j d n;
}
