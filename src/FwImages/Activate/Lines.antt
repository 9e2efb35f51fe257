-- ===== src/FwImages/Activate/Lines.antt =====
-- src/fw_images.c: the lines that an activation adds to the crontab.
use sysmngr.Prelude.{
  ℕ, suc, ◌+◌, ◌-◌, ◌≤◌, ◌≡◌, sym, ap, ◌∙◌, Bool, true, false, List, [], ◌∷◌, ◌++◌, if◌then◌else◌,
  ltb, ◌==◌, length, length-append, take, take_all, take-append, arith, Text, ltb→lt, Bool-cases,
  inl, inr,
}
use mathlib.Core.List.{append-nil, append_assoc}
use sysmngr.FwImages.Activate.{Window, CronLib, cron_text, cron_line, cron_lines}

-- A line of the crontab is the text of its window and a newline if the text has at most 510 bytes. A
-- longer text is cut after 511 bytes, and no newline is written after it.
cron_line-cut :
    (lib : CronLib) (bank_id keep_config : Text) (is_last : Bool) (w : Window)
    → let text = cron_text lib bank_id keep_config is_last w in
      cron_line lib bank_id keep_config is_last w
      ≡ (if ltb (length text) 511 then text ++ (10 ∷ []) else take 511 text)
unfolding cron_line
cron_line-cut lib bank_id keep_config is_last w = cut (cron_text lib bank_id keep_config is_last w)
  where
    not_lt : {m n : ℕ} → ltb m n ≡ false → n ≤ m
    not_lt h = ground arith

    cut :
        (text : Text)
        → take 511 (text ++ (10 ∷ []))
          ≡ (if ltb (length text) 511 then text ++ (10 ∷ []) else take 511 text)
    cut text = elim (Bool-cases (ltb (length text) 511)) [
      | inl h ↦ rw h (take_all 511 _ (omega (arith, length-append text (10 ∷ []), ltb→lt _ _ h)))
      | inr h ↦ rw h (take-append 511 text _ (not_lt h))
    ]

-- The lines of windows that are not the last.
abbrev pub earlier_lines : CronLib → Text → Text → List Window → Text
earlier_lines lib bank_id keep_config [] = []
earlier_lines lib bank_id keep_config (w ∷ ws) =
    cron_line lib bank_id keep_config false w ++ earlier_lines lib bank_id keep_config ws

here_is_last : (i last : ℕ) → last ≡ i + 0 → (i == last) ≡ true
here_is_last i last h = ground arith

last_is_later : (i last n : ℕ) → last ≡ i + suc n → (i == last) ≡ false
last_is_later i last n h = ground arith

lines_from :
    (lib : CronLib) (bank_id keep : Text) (ws : List Window) (w : Window) (i last : ℕ)
    → last ≡ i + length ws
    → cron_lines lib bank_id keep last i (ws ++ (w ∷ []))
      ≡ earlier_lines lib bank_id keep ws ++ cron_line lib bank_id keep true w
unfolding cron_lines
lines_from lib bank_id keep [] w i last h =
    rw (here_is_last i last h) (append-nil (cron_line lib bank_id keep true w))
lines_from lib bank_id keep (v ∷ ws) w i last h = rw (last_is_later i last (length ws) h) (
    ap (λ t. cron_line lib bank_id keep false v ++ t)
      (lines_from lib bank_id keep ws w (i + 1) last (omega arith))
    ∙ sym (append_assoc (cron_line lib bank_id keep false v) (earlier_lines lib bank_id keep ws) _))

-- The crontab lines of the windows are in their order, and the last window alone has the flag 1.
pub cron_lines-last :
    (lib : CronLib) (bank_id keep_config : Text) (ws : List Window) (w : Window)
    → let all = ws ++ (w ∷ []) in
      cron_lines lib bank_id keep_config (length all - 1) 0 all
      ≡ earlier_lines lib bank_id keep_config ws ++ cron_line lib bank_id keep_config true w
cron_lines-last lib bank_id keep_config ws w =
    lines_from lib bank_id keep_config ws w 0 _ (omega (arith, length-append ws (w ∷ [])))
