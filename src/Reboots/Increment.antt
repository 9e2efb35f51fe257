-- ===== src/Reboots/Increment.antt =====
-- One counter of a boot: the number that is written is the number that is read.
use sysmngr.Prelude.{
  ℕ, ◌+◌, ◌^◌, ◌<◌, ◌≡◌, ap, ◌∙◌, false, Bool-cases, inl, inr, if◌then◌else◌, arith, Text, codes,
  text_eq, snprintf_s, is_empty, take_all,
}
use sysmngr.Prelude.Int.{pos, ◌+ℤ◌}
use sysmngr.Libc.{decimal, decimal_ℤ, strtol, to_int}
use sysmngr.Libc.Decimal.{strtol-decimal, to_int-pos, length-decimal, decimal-nonempty}
use sysmngr.Uci.{Uci, UciLaws}
use sysmngr.Reboots.{reboots_key, read_counter, increment_option_counter}

-- A number below 2^31 is printed whole into a buffer of 16 bytes.
printed_whole : (n : ℕ) → n < 2 ^ 31 → snprintf_s 16 (decimal n) ≡ decimal n
printed_whole n h = take_all 15 (decimal n) (length-decimal n 14 (omega arith))

-- And it is read back.
pub read_back :
    (n : ℕ) → n < 2 ^ 31 → to_int (strtol (snprintf_s 16 (snprintf_s 16 (decimal n)))) ≡ pos n
read_back n h =
    rw (printed_whole n h, printed_whole n h, strtol-decimal n (omega arith)) (to_int-pos n h)

pos_plus_one : (n : ℕ) → pos n +ℤ pos 1 ≡ pos (n + 1)
pos_plus_one n = ground arith

printed_nonempty : (n : ℕ) → n < 2 ^ 31 → is_empty (snprintf_s 16 (decimal n)) ≡ false
printed_nonempty n h = rw (printed_whole n h) (decimal-nonempty n)

module _ (u : Uci) (laws : UciLaws u) where
  increment-eq-set :
      (name : Text) (n : ℕ) (c : u.Config)
      → read_counter u name c ≡ pos n
      → increment_option_counter u name c
        ≡ u.set c (reboots_key name) (snprintf_s 16 (decimal (n + 1)))
  unfolding increment_option_counter decimal_ℤ
  increment-eq-set name n c h =
      ap (λ z. u.set c (reboots_key name) (snprintf_s 16 (decimal_ℤ z)))
        (ap (λ z. z +ℤ pos 1) h ∙ pos_plus_one n)

  -- A number written to a counter, as another counter reads.
  pub read_counter-set :
      (name other : Text) (n : ℕ) (c : u.Config)
      → n < 2 ^ 31
      → read_counter u other (u.set c (reboots_key name) (snprintf_s 16 (decimal n)))
        ≡ (if text_eq name other then pos n else read_counter u other c)
  unfolding read_counter
  read_counter-set name other n c lt =
      rw
        (
          laws.get-set c (reboots_key name) (reboots_key other) (snprintf_s 16 (decimal n))
              (codes "0") 16,
          printed_nonempty n lt,
        )
        (elim (Bool-cases (text_eq name other)) [ inl e ↦ rw e (read_back n lt) | inr e ↦ rw e ])

  pub read_counter-increment :
      (name other : Text) (n : ℕ) (c : u.Config)
      → read_counter u name c ≡ pos n
      → n + 1 < 2 ^ 31
      → read_counter u other (increment_option_counter u name c)
        ≡ (if text_eq name other then pos (n + 1) else read_counter u other c)
  read_counter-increment name other n c h lt =
      rw (increment-eq-set name n c h) (read_counter-set name other (n + 1) c lt)
