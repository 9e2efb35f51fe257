-- ===== src/Configs/Acts.antt =====
-- src/configs.c: the acts of a backup or a restore, by their kind.
use sysmngr.Prelude.{
  ◌≡◌, refl, ap, ◌∙◌, Bool, Option, none, some, List, [], ◌∷◌, ◌++◌, if◌then◌else◌, Text,
}
use sysmngr.Utils.{Message}
use sysmngr.Configs.{Act, upload_file, import_file, send_event}

-- The acts of one kind.
abbrev pub events_of : Act → Option Message
events_of (send_event m) = some m
events_of _ = none

abbrev pub uploads_of : Act → Option Text
uploads_of (upload_file path url user pass) = some path
uploads_of _ = none

abbrev pub imports_of : Act → Option Text
imports_of (import_file path) = some path
imports_of _ = none

abbrev pub cons_some {ℓ} : {X : Type ℓ} → Option X → List X → List X
cons_some none xs = xs
cons_some (some x) xs = x ∷ xs

abbrev pub collect {ℓ} : {X : Type ℓ} → (Act → Option X) → List Act → List X
collect f [] = []
collect f (a ∷ acts) = cons_some (f a) (collect f acts)

cons_some-append {ℓ} :
    {X : Type ℓ} (o : Option X) (xs ys : List X) → cons_some o (xs ++ ys) ≡ cons_some o xs ++ ys
cons_some-append none xs ys = refl
cons_some-append (some x) xs ys = refl

pub collect-append {ℓ} :
    {X : Type ℓ} (f : Act → Option X) (xs ys : List Act)
    → collect f (xs ++ ys) ≡ collect f xs ++ collect f ys
collect-append f [] ys = refl
collect-append f (a ∷ xs) ys =
    ap (cons_some (f a)) (collect-append f xs ys)
    ∙ cons_some-append (f a) (collect f xs) (collect f ys)

abbrev pub one_if : Bool → Text → List Text
one_if c path = if c then path ∷ [] else []
