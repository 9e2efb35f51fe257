-- ===== src/Procps/Priority.antt =====
-- src/processes.c: the priority that is shown of a process.
use sysmngr.Prelude.{ℕ, ◌+◌, ◌*◌, ◌/◌, ◌≤◌, ◌<◌, ◌≡◌, refl, true, ◌&&◌, arith}
use sysmngr.Prelude.Int.{ℤ, pos, negsuc, ◌≤ℤ◌, leb_ℤ, ◌+ℤ◌, pos_part}
use sysmngr.Procps.{ProcLib, shown_priority}

in_range :
    (z : ℤ) → negsuc 99 ≤ℤ z → z ≤ℤ pos 39 → (leb_ℤ (negsuc 100) z && leb_ℤ z (pos 21691654)) ≡ true
in_range z h k = ground arith

abbrev pub above_lowest : ℤ → ℕ
above_lowest z = pos_part (z +ℤ pos 100)

above_mono : (a b : ℤ) → negsuc 99 ≤ℤ a → a ≤ℤ b → b ≤ℤ pos 39 → above_lowest a ≤ above_lowest b
above_mono a b h l k = ground arith

above_small : (b : ℤ) → negsuc 99 ≤ℤ b → b ≤ℤ pos 39 → above_lowest b ≤ 139
above_small b h k = ground arith

shown-quotient :
    (lib : ProcLib) (z : ℤ)
    → negsuc 99 ≤ℤ z
    → z ≤ℤ pos 39
    → shown_priority lib z ≡ above_lowest z * 99 / 139
unfolding shown_priority
shown-quotient lib z h k = rw (in_range z h k) refl

le_trans : (a b c : ℤ) → a ≤ℤ b → b ≤ℤ c → a ≤ℤ c
le_trans a b c h k = ground arith

-- For priorities from -100 to 39, the ones of the kernel, the number shown is at most 99, it does not decrease
-- as the priority grows, and it is the quotient of 99 times the distance from -100 by 139, rounded down.
pub shown_priority-bounds :
    (lib : ProcLib) (a b : ℤ)
    → negsuc 99 ≤ℤ a
    → a ≤ℤ b
    → b ≤ℤ pos 39
    → (shown_priority lib a ≤ shown_priority lib b)
      × (shown_priority lib b ≤ 99)
      × (shown_priority lib b * 139 ≤ above_lowest b * 99)
      × (above_lowest b * 99 < (shown_priority lib b + 1) * 139)
shown_priority-bounds lib a b low le high =
    let ea = shown-quotient lib a low (le_trans a b (pos 39) le high) in
    let low_b = le_trans (negsuc 99) a b low le in
    let eb = shown-quotient lib b low_b high in
    let more = above_mono a b low le high in
    let few = above_small b low_b high in
    rw (ea, eb) (omega (arith, more), omega (arith, few), omega arith, omega arith)
