-- ===== src/FwImages/Activate/Windows.antt =====
-- src/fw_images.c: the time windows that an activation accepts.
use sysmngr.Prelude.{
  ℕ, zero, suc, ◌+◌, ◌≤◌, ◌≡◌, refl, Bool, true, false, Bool-cases, inl, inr, ◌&&◌, Option, none,
  some, List, [], ◌∷◌, is_empty, length, arith, leb→le, subst, IfSome-bind, IfSome-some, none-some,
  Text,
}
use mathlib.Core.Option.{some-injective}
use sysmngr.Prelude.Int.{ℤ, ◌≤ℤ◌, leb_ℤ}
use sysmngr.Libc.{strtol}
use sysmngr.FwImages.Activate.{
  max_time_window, Window, get_window, CronLib, not_before, window_is_valid, read_windows,
}

-- The end of the one comes no later than the start of the other.
abbrev pub Before : Window → Window → Type 0
Before v w = strtol v.end_time ≤ℤ strtol w.start_time

pub data AllFrom (t : ℤ) : List Window → Type 0 where
  no_window : AllFrom t []
  window_from :
      {w : Window} {ws : List Window} → t ≤ℤ strtol w.start_time → AllFrom t ws → AllFrom t (w ∷ ws)

-- No window ends before it starts, and none starts before an earlier one ends.
pub data Ordered : List Window → Type 0 where
  no_more : Ordered []
  window_first :
      {w : Window} {ws : List Window}
      → strtol w.start_time ≤ℤ strtol w.end_time
      → AllFrom (strtol w.end_time) ws
      → Ordered ws
      → Ordered (w ∷ ws)

leb_ℤ→le : (a b : ℤ) → leb_ℤ a b ≡ true → a ≤ℤ b
leb_ℤ→le a b h = leb→le _ _ h

le_trans : (a b c : ℤ) → a ≤ℤ b → b ≤ℤ c → a ≤ℤ c
le_trans a b c h k = ground arith

earlier_too : (s t : ℤ) (ws : List Window) → s ≤ℤ t → AllFrom t ws → AllFrom s ws
earlier_too s t [] h no_window = no_window
earlier_too s t (w ∷ ws) h (window_from k r) =
    window_from (le_trans s t (strtol w.start_time) h k) (earlier_too s t ws h r)

and_left : (a b : Bool) → (a && b) ≡ true → a ≡ true
and_left true b h = refl
and_left false b h = h

and_right : (a b : Bool) → (a && b) ≡ true → b ≡ true
and_right true b h = h
and_right false b h = cc

valid-in_order :
    (lib : CronLib) (previous : Option ℤ) (w : Window)
    → window_is_valid lib previous w ≡ true
    → (strtol w.start_time ≤ℤ strtol w.end_time)
      × (not_before previous (strtol w.start_time) ≡ true)
unfolding window_is_valid
valid-in_order lib previous w h = ground arith

abbrev From : Option ℤ → List Window → Type 0
From none ws = Unit
From (some t) ws = AllFrom t ws

From-nil : (previous : Option ℤ) → From previous []
From-nil none = tt
From-nil (some t) = no_window

From-cons :
    (previous : Option ℤ) (w : Window) (ws : List Window)
    → not_before previous (strtol w.start_time) ≡ true
    → strtol w.start_time ≤ℤ strtol w.end_time
    → AllFrom (strtol w.end_time) ws
    → From previous (w ∷ ws)
From-cons none w ws h k r = tt
From-cons (some t) w ws h k r =
    let start = leb_ℤ→le t (strtol w.start_time) h in
    window_from start (earlier_too t _ ws (le_trans t (strtol w.start_time) _ start k) r)

-- What the windows read after `previous` are.
abbrev Accepted : ℕ → Option ℤ → List Window → Type 0
Accepted left previous ws = Ordered ws × From previous ws × (length ws ≤ left)

Accepted-nil : (left : ℕ) (previous : Option ℤ) → Accepted left previous []
Accepted-nil left previous = (no_more, From-nil previous, omega arith)

reads :
    (lib : CronLib) (input : Text → Text) (left i : ℕ) (previous : Option ℤ) (ws : List Window)
    → read_windows lib input left i previous ≡ some ws
    → Accepted left previous ws
unfolding read_windows
reads lib input zero i previous ws h =
    subst (Accepted 0 previous) (some-injective _ _ h) (Accepted-nil 0 previous)
reads lib input (suc left) i previous ws h =
    let w = get_window input i in
    elim (Bool-cases (is_empty w.start_time)) [
      | inl e ↦
          subst (Accepted (suc left) previous) (some-injective _ _ (rw e at h))
            (Accepted-nil (suc left) previous)
      | inr e ↦ elim (Bool-cases (window_is_valid lib previous w)) [
        | inl v ↦
            IfSome-bind (Accepted (suc left) previous) _ _
              (λ rest r.
                let (ordered, from, few) =
                  reads lib input left (i + 1) (some (strtol w.end_time)) rest r in
                let (own, before) = valid-in_order lib previous w v in
                IfSome-some (Accepted (suc left) previous) (w ∷ rest) (
                  window_first own from ordered,
                  From-cons previous w rest before own from,
                  omega arith,
                ))
              ws (rw (e, v) at h)
        | inr v ↦ absurd (none-some ws (rw (e, v) at h))
      ]
    ]

-- If the windows of an activation are read without a fault, then there are at most five of them, none ends
-- before it starts, and none starts before an earlier one has ended.
pub read_windows-Ordered :
    (lib : CronLib) (input : Text → Text) (ws : List Window)
    → read_windows lib input max_time_window 0 none ≡ some ws
    → Ordered ws × (length ws ≤ max_time_window)
read_windows-Ordered lib input ws h =
    let (ordered, from, few) = reads lib input max_time_window 0 none ws h in (ordered, few)
