-- ===== src/FwImages/Download/Acts.antt =====
-- src/fw_images.c: the upgrades, the reboots and the events among the acts of a download.
use sysmngr.Prelude.{ℕ, ◌+◌, ◌≡◌, refl, ap, Bool, List, [], ◌∷◌, ◌++◌, if◌then◌else◌, arith}
use sysmngr.Utils.{Message}
use sysmngr.FwImages.Download.{
  Act, download_file, validate_firmware_image, upgrade, exec_reboot, send_event, remove,
}

abbrev pub upgrades : List Act → ℕ
upgrades [] = 0
upgrades (upgrade p a i k ∷ acts) = 1 + upgrades acts
upgrades (_ ∷ acts) = upgrades acts

abbrev pub reboots : List Act → ℕ
reboots [] = 0
reboots (exec_reboot ∷ acts) = 1 + reboots acts
reboots (_ ∷ acts) = reboots acts

abbrev pub events_of : List Act → List Message
events_of [] = []
events_of (send_event m ∷ acts) = m ∷ events_of acts
events_of (_ ∷ acts) = events_of acts

abbrev pub one_if : Bool → ℕ
one_if c = if c then 1 else 0

pub upgrades-append : (xs ys : List Act) → upgrades (xs ++ ys) ≡ upgrades xs + upgrades ys
upgrades-append [] ys = omega arith
upgrades-append (upgrade p a i k ∷ xs) ys = omega (arith, upgrades-append xs ys)
upgrades-append (download_file p a i k ∷ xs) ys = upgrades-append xs ys
upgrades-append (validate_firmware_image p ∷ xs) ys = upgrades-append xs ys
upgrades-append (exec_reboot ∷ xs) ys = upgrades-append xs ys
upgrades-append (send_event m ∷ xs) ys = upgrades-append xs ys
upgrades-append (remove p ∷ xs) ys = upgrades-append xs ys

pub reboots-append : (xs ys : List Act) → reboots (xs ++ ys) ≡ reboots xs + reboots ys
reboots-append [] ys = omega arith
reboots-append (upgrade p a i k ∷ xs) ys = reboots-append xs ys
reboots-append (download_file p a i k ∷ xs) ys = reboots-append xs ys
reboots-append (validate_firmware_image p ∷ xs) ys = reboots-append xs ys
reboots-append (exec_reboot ∷ xs) ys = omega (arith, reboots-append xs ys)
reboots-append (send_event m ∷ xs) ys = reboots-append xs ys
reboots-append (remove p ∷ xs) ys = reboots-append xs ys

pub events_of-append : (xs ys : List Act) → events_of (xs ++ ys) ≡ events_of xs ++ events_of ys
events_of-append [] ys = refl
events_of-append (upgrade p a i k ∷ xs) ys = events_of-append xs ys
events_of-append (download_file p a i k ∷ xs) ys = events_of-append xs ys
events_of-append (validate_firmware_image p ∷ xs) ys = events_of-append xs ys
events_of-append (exec_reboot ∷ xs) ys = events_of-append xs ys
events_of-append (send_event m ∷ xs) ys = ap (λ ms. m ∷ ms) (events_of-append xs ys)
events_of-append (remove p ∷ xs) ys = events_of-append xs ys
