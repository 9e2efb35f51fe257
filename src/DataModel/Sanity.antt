-- ===== src/DataModel/Sanity.antt =====
-- The tables of the data model as a whole, for every choice of the macros of the build.
use sysmngr.Prelude.{
  ◌≡◌, refl, Bool, true, false, ◌&&◌, ◌||◌, not, Option, none, some, List, [], ◌∷◌, text_eq, Text,
  ap, sym, ◌∙◌,
}
use mathlib.Core.Path.{ap₂}
use sysmngr.DataModel.Schema.{
  Leaf, Object, Objects, nil, cons, object, Protocol, both, built, rows_are_sane, row_is_sane,
  has_text, distinct, named, push, name_of, getter_of, covers,
}
use sysmngr.DataModel.Tables.{Macros}
use sysmngr.DataModel.Tables.Device.{dm_device_info_obj}

abbrev protocol_of : Object → Protocol
protocol_of (object n checkdep browse nextobj leaf protocol) = protocol

-- In the tables of an object and of all objects below it that are built: the names of the parameters differ, and so
-- do the names of the objects; no getter but get_empty and no setter stands in two rows; and the rows
-- are sane and of a protocol that the objects above them are offered to.
mutual
  pub object_is_sane : Object → Bool
  object_is_sane (object n checkdep browse nextobj leaf protocol) =
      (distinct (built (λ (l : Leaf). some l.name) leaf)
        && (distinct (built getter_of leaf)
            && (distinct (built (λ (l : Leaf). l.setvalue) leaf) && rows_are_sane protocol leaf)))
      && (distinct (built (λ (t : Text). some t) (named nextobj))
          && objects_are_sane protocol nextobj)

  pub objects_are_sane : Protocol → Objects → Bool
  objects_are_sane outer nil = true
  objects_are_sane outer (cons true o rest) =
      covers outer (protocol_of o) && (object_is_sane o && objects_are_sane outer rest)
  objects_are_sane outer (cons false o rest) = objects_are_sane outer rest

-- The same with every row built.
all_rows {ℓ} : {A : Type ℓ} → List (Bool × A) → List (Bool × A)
all_rows [] = []
all_rows ((b, r) ∷ rest) = (true, r) ∷ all_rows rest

mutual
  all_in : Object → Object
  all_in (object n checkdep browse nextobj leaf protocol) =
      object n checkdep browse (all_objects nextobj) (all_rows leaf) protocol

  all_objects : Objects → Objects
  all_objects nil = nil
  all_objects (cons b o rest) = cons true (all_in o) (all_objects rest)

and_parts : (a b : Bool) → (a && b) ≡ true → (a ≡ true) × (b ≡ true)
and_parts true b h = (refl, h)
and_parts false b h = cc

or_parts : (a b : Bool) → (a || b) ≡ false → (a ≡ false) × (b ≡ false)
or_parts true b h = cc
or_parts false b h = (refl, h)

or_false : (a b : Bool) → a ≡ false → b ≡ false → (a || b) ≡ false
or_false true b h k = cc
or_false false b h k = k

false_of_not : (a : Bool) → not a ≡ true → a ≡ false
false_of_not true h = cc
false_of_not false h = refl

and_both : (a b : Bool) → a ≡ true → b ≡ true → (a && b) ≡ true
and_both true b h k = k
and_both false b h k = h

-- A text that is not among more texts is not among fewer, and fewer texts differ if more do.
has_text-push :
    (t : Text) (o : Option Text) (more fewer : List Text)
    → (has_text t more ≡ false → has_text t fewer ≡ false)
    → has_text t (push o more) ≡ false
    → has_text t (push o fewer) ≡ false
has_text-push t none more fewer keep h = keep h
has_text-push t (some s) more fewer keep h =
    let (differs, gone) = or_parts (text_eq s t) (has_text t more) h in
    or_false (text_eq s t) (has_text t fewer) differs (keep gone)

has_text-drop :
    (t : Text) (o : Option Text) (more fewer : List Text)
    → (has_text t more ≡ false → has_text t fewer ≡ false)
    → has_text t (push o more) ≡ false
    → has_text t fewer ≡ false
has_text-drop t none more fewer keep h = keep h
has_text-drop t (some s) more fewer keep h = keep (or_parts (text_eq s t) (has_text t more) h).1

distinct-push :
    (o : Option Text) (more fewer : List Text)
    → ((t : Text) → has_text t more ≡ false → has_text t fewer ≡ false)
    → (distinct more ≡ true → distinct fewer ≡ true)
    → distinct (push o more) ≡ true
    → distinct (push o fewer) ≡ true
distinct-push none more fewer keep tail h = tail h
distinct-push (some t) more fewer keep tail h =
    let (absent, rest) = and_parts (not (has_text t more)) (distinct more) h in
    and_both (not (has_text t fewer)) (distinct fewer)
      (ap not (keep t (false_of_not (has_text t more) absent))) (tail rest)

distinct-drop :
    (o : Option Text) (more fewer : List Text)
    → (distinct more ≡ true → distinct fewer ≡ true)
    → distinct (push o more) ≡ true
    → distinct fewer ≡ true
distinct-drop none more fewer tail h = tail h
distinct-drop (some t) more fewer tail h =
    tail (and_parts (not (has_text t more)) (distinct more) h).1

module _ {ℓ} {A : Type ℓ} (f : A → Option Text) where
  has-built :
      (t : Text) (rows : List (Bool × A))
      → has_text t (built f (all_rows rows)) ≡ false
      → has_text t (built f rows) ≡ false
  unfolding built all_rows
  has-built t [] h = refl
  has-built t ((false, r) ∷ rest) h =
      has_text-drop t (f r) (built f (all_rows rest)) (built f rest) (has-built t rest) h
  has-built t ((true, r) ∷ rest) h =
      has_text-push t (f r) (built f (all_rows rest)) (built f rest) (has-built t rest) h

  -- If the texts of all rows differ, then so do those of the rows that are built.
  distinct-built :
      (rows : List (Bool × A))
      → distinct (built f (all_rows rows)) ≡ true
      → distinct (built f rows) ≡ true
  unfolding built all_rows
  distinct-built [] h = refl
  distinct-built ((false, r) ∷ rest) h =
      distinct-drop (f r) (built f (all_rows rest)) (built f rest) (distinct-built rest) h
  distinct-built ((true, r) ∷ rest) h =
      distinct-push (f r) (built f (all_rows rest)) (built f rest) (λ t. has-built t rest)
        (distinct-built rest) h

rows_are_sane-built :
    (outer : Protocol) (rows : List (Bool × Leaf))
    → rows_are_sane outer (all_rows rows) ≡ true
    → rows_are_sane outer rows ≡ true
unfolding rows_are_sane all_rows
rows_are_sane-built outer [] h = refl
rows_are_sane-built outer ((false, l) ∷ rest) h =
    rows_are_sane-built outer rest (and_parts (row_is_sane outer l) _ h).1
rows_are_sane-built outer ((true, l) ∷ rest) h =
    let (here, later) = and_parts (row_is_sane outer l) (rows_are_sane outer (all_rows rest)) h in
    and_both (row_is_sane outer l) (rows_are_sane outer rest) here
      (rows_are_sane-built outer rest later)

name_of-all_in : (o : Object) → name_of (all_in o) ≡ name_of o
unfolding all_in
name_of-all_in (object n checkdep browse nextobj leaf protocol) = refl

protocol_of-all_in : (o : Object) → protocol_of (all_in o) ≡ protocol_of o
unfolding all_in
protocol_of-all_in (object n checkdep browse nextobj leaf protocol) = refl

named-all_objects : (os : Objects) → named (all_objects os) ≡ all_rows (named os)
unfolding all_objects all_rows
named-all_objects nil = refl
named-all_objects (cons b o rest) =
    ap₂ (λ (t : Text) (ts : List (Bool × Text)). (true, t) ∷ ts) (name_of-all_in o)
      (named-all_objects rest)

mutual
  unfolding object_is_sane objects_are_sane all_in all_objects

  object_is_sane-built : (o : Object) → object_is_sane (all_in o) ≡ true → object_is_sane o ≡ true
  object_is_sane-built (object n checkdep browse nextobj leaf protocol) h =
      let (params, below) = and_parts _ _ h in
      let (names, p1) = and_parts _ _ params in
      let (getters, p2) = and_parts _ _ p1 in
      let (setters, rows) = and_parts _ _ p2 in
      let (children, objects) = and_parts _ _ below in
      and_both _ _
        (and_both _ _ (distinct-built (λ (l : Leaf). some l.name) leaf names) (
          and_both _ _ (distinct-built getter_of leaf getters) (
            and_both _ _ (distinct-built (λ (l : Leaf). l.setvalue) leaf setters)
              (rows_are_sane-built protocol leaf rows))))
        (and_both _ _
          (distinct-built (λ (t : Text). some t) (named nextobj)
            (ap (λ ts. distinct (built (λ (t : Text). some t) ts)) (sym (named-all_objects nextobj))
              ∙ children))
          (objects_are_sane-built protocol nextobj objects))

  objects_are_sane-built :
      (outer : Protocol) (os : Objects)
      → objects_are_sane outer (all_objects os) ≡ true
      → objects_are_sane outer os ≡ true
  objects_are_sane-built outer nil h = refl
  objects_are_sane-built outer (cons false o rest) h =
      objects_are_sane-built outer rest (and_parts _ _ (and_parts _ _ h).1).1
  objects_are_sane-built outer (cons true o rest) h =
      let (covered, more) = and_parts _ _ h in
      let (here, later) = and_parts _ _ more in
      and_both _ _ (ap (covers outer) (sym (protocol_of-all_in o)) ∙ covered)
        (and_both _ _ (object_is_sane-built o here) (objects_are_sane-built outer rest later))

sane_tables : (m : Macros) → objects_are_sane both (all_objects (dm_device_info_obj m)) ≡ true
unfolding objects_are_sane all_objects all_rows built rows_are_sane
sane_tables m = refl

-- Whatever the build leaves out, in the tables of Device.DeviceInfo and below the names of the parameters of an object
-- differ, and so do those of its objects; no getter but get_empty and no setter stands in two rows of an
-- object; a row can be written exactly if it has a setter, and read exactly if it has a getter, but for
-- commands, which have a setter and are offered to USP alone, as events are; and nothing is offered to a
-- protocol that the objects above it are not offered to.
pub device_info-IsSane : (m : Macros) → objects_are_sane both (dm_device_info_obj m) ≡ true
device_info-IsSane m = objects_are_sane-built both (dm_device_info_obj m) (sane_tables m)
