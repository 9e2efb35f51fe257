-- ===== src/Reboots/Reason.antt =====
-- src/reboots.c: the reason of a boot as it is worded.
use sysmngr.Prelude.{
  ◌≡◌, ◌≢◌, refl, sym, subst, true, false, Bool-cases, inl, inr, [], ◌∷◌, codes, text_eq,
  text_eq_refl, eq_of_text_eq, Text,
}
use sysmngr.Reboots.{boot_reason_message}

-- The reason that is shown of a boot, by what triggered it and by the marker of its reason.
pub data IsReason : Text → Text → Text → Type 0 where
  factory_reset : {reason : Text} → IsReason (codes "defaultreset") reason (codes "FACTORY RESET")
  firmware_upgrade : {reason : Text} → IsReason (codes "upgrade") reason (codes "FIRMWARE UPGRADE")
  other_trigger :
      {trigger reason : Text}
      → trigger ≢ []
      → trigger ≢ codes "defaultreset"
      → trigger ≢ codes "upgrade"
      → IsReason trigger reason trigger
  power_on : IsReason [] (codes "POR_RESET") (codes "POWER ON RESET")
  marker : {reason : Text} → reason ≢ [] → reason ≢ codes "POR_RESET" → IsReason [] reason reason
  unknown : IsReason [] [] (codes "Unknown")

differs : (t k : Text) → text_eq t k ≡ false → t ≢ k
differs t k h e =
    let same : text_eq t k ≡ true = subst (λ r. text_eq t r ≡ true) e (text_eq_refl t) in cc

pub message-IsReason :
    (trigger reason : Text) → IsReason trigger reason (boot_reason_message trigger reason)
unfolding boot_reason_message
message-IsReason [] [] = unknown
message-IsReason [] (c ∷ reason) = elim (Bool-cases (text_eq (c ∷ reason) (codes "POR_RESET"))) [
  | inl e ↦ rw e (
      subst (λ r. IsReason [] r (codes "POWER ON RESET"))
        (sym (eq_of_text_eq (c ∷ reason) (codes "POR_RESET") e)) power_on)
  | inr e ↦ rw e (marker (differs (c ∷ reason) [] refl) (differs _ _ e))
]
message-IsReason (c ∷ trigger) reason =
    elim (Bool-cases (text_eq (c ∷ trigger) (codes "defaultreset"))) [
      | inl e ↦ rw e (
          subst (λ t. IsReason t reason (codes "FACTORY RESET"))
            (sym (eq_of_text_eq (c ∷ trigger) (codes "defaultreset") e)) factory_reset)
      | inr e ↦ elim (Bool-cases (text_eq (c ∷ trigger) (codes "upgrade"))) [
        | inl f ↦
            rw (e, f)
              (subst (λ t. IsReason t reason (codes "FIRMWARE UPGRADE"))
                (sym (eq_of_text_eq (c ∷ trigger) (codes "upgrade") f)) firmware_upgrade)
        | inr f ↦
            rw (e, f)
              (other_trigger (differs (c ∷ trigger) [] refl) (differs _ _ e) (differs _ _ f))
      ]
    ]
