-- ===== src/Dmmap.antt =====
-- The aliases that src/temperature.c and src/supported_dm.c keep in sections of dmmap, by the same code: the
-- sections of one type, the alias of an instance, and its change.
use sysmngr.Prelude.{
  ◌≡◌, refl, ap, ◌∙◌, Bool, true, false, Bool-cases, inl, inr, List, [], ◌∷◌, ◌++◌, if◌then◌else◌,
  codes, text_eq, eq_of_text_eq, Text,
}

-- A section with the instance that it belongs to.
pub record Section : Type 0 where
  pub instance_name : Text
  pub alias : Text

-- The first section of the instance; the value is empty before.
abbrev pub find_alias : Text → List Section → Text
find_alias instance_name [] = []
find_alias instance_name (s ∷ rest) =
    if text_eq s.instance_name instance_name then s.alias else find_alias instance_name rest

abbrev pub or_cpe : Text → Text → Text
or_cpe instance_name [] = codes "cpe-" ++ instance_name
or_cpe instance_name (c ∷ value) = c ∷ value

-- The first section of the instance is written; one is added if there is none.
abbrev pub put_alias : Text → Text → List Section → List Section
put_alias instance_name value [] = record { instance_name = instance_name; alias = value } ∷ []
put_alias instance_name value (s ∷ rest) =
    if text_eq s.instance_name instance_name
    then record s { alias = value } ∷ rest
    else s ∷ put_alias instance_name value rest

find_alias-put_alias :
    (written read value : Text) (sections : List Section)
    → find_alias read (put_alias written value sections)
      ≡ (if text_eq written read then value else find_alias read sections)
find_alias-put_alias written read value [] = refl
find_alias-put_alias written read value (s ∷ rest) =
    elim (Bool-cases (text_eq s.instance_name written)) [
      | inl e ↦
          rw (e, ap (λ i. text_eq i read) (eq_of_text_eq s.instance_name written e))
            (once (text_eq written read))
      | inr e ↦ elim (Bool-cases (text_eq s.instance_name read)) [
        | inl f ↦ rw (e, f, elsewhere e f) refl
        | inr f ↦ rw (e, f) (find_alias-put_alias written read value rest)
      ]
    ]
  where
    once :
        (c : Bool)
        → (if c then value else find_alias read rest)
          ≡ (if c then value else (if c then s.alias else find_alias read rest))
    once true = refl
    once false = refl

    elsewhere :
        text_eq s.instance_name written ≡ false
        → text_eq s.instance_name read ≡ true
        → text_eq written read ≡ false
    elsewhere e f = elim (Bool-cases (text_eq written read)) [
      | inl w ↦ let same = eq_of_text_eq written read w in cc
      | inr w ↦ w
    ]

-- The same with the default for an empty alias.
pub or_cpe-put_alias :
    (written read value : Text) (sections : List Section)
    → or_cpe read (find_alias read (put_alias written value sections))
      ≡ (if text_eq written read then or_cpe read value else or_cpe read (find_alias read sections))
or_cpe-put_alias written read value sections =
    ap (or_cpe read) (find_alias-put_alias written read value sections)
    ∙ pushed (text_eq written read)
  where
    pushed :
        (c : Bool)
        → or_cpe read (if c then value else find_alias read sections)
          ≡ (if c then or_cpe read value else or_cpe read (find_alias read sections))
    pushed true = refl
    pushed false = refl
