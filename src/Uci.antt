-- ===== src/Uci.antt =====
-- The UCI configuration, which libbbfdm and libuci keep for the program: what the sources read and
-- write of it, with the documented behaviour that they rely on. A program part takes it as a
-- parameter; Uci/Table.antt is an instance.
pub mod Table
use sysmngr.Prelude.{
  ℕ, ◌≡◌, Bool, ◌&&◌, Option, some, List, [], ◌∷◌, ◌++◌, if◌then◌else◌, Text, text_eq, snprintf_s,
  is_empty,
}

-- A package, a section and an option name.
abbrev pub Key : Type 0
Key = Text × Text × Text

abbrev pub key_eq : Key → Key → Bool
key_eq (p, s, o) (q, t, u) = text_eq p q && (text_eq s t && text_eq o u)

-- The first occurrence of a name taken out of a list.
abbrev pub erase : Text → List Text → List Text
erase n [] = []
erase n (m ∷ ms) = if text_eq m n then ms else m ∷ erase n ms

pub record Uci : Type 1 where
  pub Config : Type 0
  -- BBFDM_UCI_GET (package, section, option, default, buffer, size): what is in the buffer.
  pub get : Config → Key → Text → ℕ → Text
  -- BBFDM_UCI_SET (package, section, option, value).
  pub set : Config → Key → Text → Config
  -- BBFDM_UCI_SET (package, section, NULL, type): the section and its type.
  pub add : Config → Text → Text → Text → Config
  -- The names of the sections of a type, in the order of BBFDM_UCI_FOREACH_SECTION.
  pub sections : Config → Text → Text → List Text
  -- Is the name taken by a section of the package?
  pub taken : Config → Text → Text → Bool
  -- bbfdm_uci_delete of a section, on a working copy: none if it fails.
  pub delete : Config → Text → Text → Option Config
  -- bbfdm_uci_commit_package of a working copy: true if it is written.
  pub commit : Config → Text → Bool

-- The documented behaviour. Setting an option to the empty text removes it.
pub record UciLaws (u : Uci) : Type 0 where
  pub get-set :
      (c : u.Config) (k j : Key) (v d : Text) (n : ℕ)
      → u.get (u.set c k v) j d n ≡ (
          if key_eq k j
          then (if is_empty v then snprintf_s n d else snprintf_s n v)
          else u.get c j d n)
  pub get-add :
      (c : u.Config) (p s t : Text) (j : Key) (d : Text) (n : ℕ)
      → u.get (u.add c p s t) j d n ≡ u.get c j d n
  pub sections-set :
      (c : u.Config) (k : Key) (v p t : Text) → u.sections (u.set c k v) p t ≡ u.sections c p t
  pub taken-set :
      (c : u.Config) (k : Key) (v p s : Text) → u.taken (u.set c k v) p s ≡ u.taken c p s
  pub sections-add :
      (c : u.Config) (p s t : Text)
      → u.taken c p s ≡ Bool.false
      → u.sections (u.add c p s t) p t ≡ u.sections c p t ++ (s ∷ [])
  pub sections-delete :
      (c c' : u.Config) (p s t : Text)
      → u.delete c p s ≡ some c'
      → u.sections c' p t ≡ erase s (u.sections c p t)
  pub taken-delete :
      (c c' : u.Config) (p s t : Text)
      → u.delete c p s ≡ some c'
      → u.taken c p t ≡ Bool.false
      → u.taken c' p t ≡ Bool.false
  -- A delete takes away options of the section alone.
  pub get-delete :
      (c c' : u.Config) (p s : Text) (j : Key) (d : Text) (n : ℕ)
      → u.delete c p s ≡ some c'
      → text_eq s j.1 ≡ Bool.false
      → u.get c' j d n ≡ u.get c j d n
