-- ===== src/DataModel/Schema.antt =====
-- The rows of the tables DMLEAF and DMOBJ, which libbbfdm reads. A row whose Bool is false is left out by the macros of
-- the build. Functions stand by their names, none for NULL.
use sysmngr.Prelude.{
  Bool, true, false, ◌&&◌, ◌||◌, not, Option, none, some, List, [], ◌∷◌, if◌then◌else◌, codes,
  text_eq, String, Text,
}

-- DMREAD, DMWRITE and DMASYNC.
pub data Permission : Type 0 where
  dmread : Permission
  dmwrite : Permission
  dmasync : Permission

pub data LeafType : Type 0 where
  string : LeafType
  unint : LeafType
  int : LeafType
  bool : LeafType
  time : LeafType
  command : LeafType
  event : LeafType

-- BBFDM_BOTH, BBFDM_USP and BBFDM_CWMP.
pub data Protocol : Type 0 where
  both : Protocol
  usp : Protocol
  cwmp : Protocol

-- DM_FLAG_UNIQUE, DM_FLAG_LINKER and DM_FLAG_REFERENCE.
pub data Flag : Type 0 where
  unique : Flag
  linker : Flag
  reference : Flag

pub record Leaf : Type 0 where
  pub name : Text
  pub permission : Permission
  pub leaf_type : LeafType
  pub getvalue : Option Text
  pub setvalue : Option Text
  pub protocol : Protocol
  pub flags : List Flag

abbrev pub names_of : Option String → Option Text
names_of none = none
names_of (some s) = some (codes s)

abbrev pub row :
    String
    → Permission
    → LeafType
    → Option String
    → Option String
    → Protocol
    → List Flag
    → Bool × Leaf
row n permission leaf_type get set protocol flags = (
  true,
  record {
    name = codes n;
    permission = permission;
    leaf_type = leaf_type;
    getvalue = names_of get;
    setvalue = names_of set;
    protocol = protocol;
    flags = flags;
  },
)

-- A row between #ifdef and #endif.
abbrev pub when : Bool → Bool × Leaf → Bool × Leaf
when built r = (built, r.1)

-- An object: its name, checkdep, browseinstobj, nextobj, leaf and the protocol. All are DMREAD, and the other columns
-- are NULL in every table.
mutual
  pub data Object : Type 0 where
    object : Text → Option Text → Option Text → Objects → List (Bool × Leaf) → Protocol → Object

  pub data Objects : Type 0 where
    nil : Objects
    cons : Bool → Object → Objects → Objects

abbrev pub obj :
    String → Option String → Option String → Objects → List (Bool × Leaf) → Protocol → Object
obj n checkdep browse nextobj leaf protocol =
    object (codes n) (names_of checkdep) (names_of browse) nextobj leaf protocol

-- What is asked of a row. A parameter is read by a getter and has a setter exactly if it can be written; a command runs a
-- setter and is offered to USP alone, as an event is, which has a getter.
abbrev pub is_some : Option Text → Bool
is_some none = false
is_some (some t) = true

abbrev pub accessors_fit : Permission → LeafType → Bool → Bool → Protocol → Bool
accessors_fit dmasync command get set usp = set
accessors_fit dmasync leaf_type get set protocol = false
accessors_fit permission command get set protocol = false
accessors_fit dmread event get set usp = get && not set
accessors_fit permission event get set protocol = false
accessors_fit dmread leaf_type get set protocol = get && not set
accessors_fit dmwrite leaf_type get set protocol = get && set

-- Is a row of the protocol `inner` reached under an object of the protocol `outer`?
abbrev pub covers : (outer inner : Protocol) → Bool
covers both inner = true
covers usp usp = true
covers cwmp cwmp = true
covers outer inner = false

abbrev pub row_is_sane : Protocol → Leaf → Bool
row_is_sane outer l =
    covers outer l.protocol
    && accessors_fit l.permission l.leaf_type (is_some l.getvalue) (is_some l.setvalue) l.protocol

abbrev pub has_text : Text → List Text → Bool
has_text t [] = false
has_text t (s ∷ rest) = text_eq s t || has_text t rest

abbrev pub distinct : List Text → Bool
distinct [] = true
distinct (t ∷ rest) = not (has_text t rest) && distinct rest

-- What `f` gives for the rows that are built.
abbrev pub push : Option Text → List Text → List Text
push none ts = ts
push (some t) ts = t ∷ ts

unfoldable pub built {ℓ} : {A : Type ℓ} → (A → Option Text) → List (Bool × A) → List Text
built f [] = []
built f ((true, r) ∷ rest) = push (f r) (built f rest)
built f ((false, r) ∷ rest) = built f rest

unfoldable pub rows_are_sane : Protocol → List (Bool × Leaf) → Bool
rows_are_sane outer [] = true
rows_are_sane outer ((true, l) ∷ rest) = row_is_sane outer l && rows_are_sane outer rest
rows_are_sane outer ((false, l) ∷ rest) = rows_are_sane outer rest

abbrev pub name_of : Object → Text
name_of (object n checkdep browse nextobj leaf protocol) = n

abbrev pub named : Objects → List (Bool × Text)
named nil = []
named (cons b o rest) = (b, name_of o) ∷ named rest

-- get_empty may stand in several rows.
abbrev pub getter_of : Leaf → Option Text
getter_of l = elim l.getvalue [
  | none ↦ none
  | some t ↦ (if text_eq t (codes "get_empty") then none else some t)
]
