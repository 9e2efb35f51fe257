-- ===== src/FwImages/Download/Wait.antt =====
-- src/fw_images.c: the wait for the event sysupgrade.
use sysmngr.Prelude.{
  ◌≡◌, Bool, true, false, Bool-cases, inl, inr, ◌⊎◌, ◌&&◌, not, List, [], ◌∷◌, codes, text_eq,
}
use sysmngr.Prelude.Strings.{Text}
use sysmngr.Fwbank.{Blob}
use sysmngr.FwImages.Download.{dmubus_receive_sysupgrade, wait_for_event}

module _ (b : Blob) where
  -- A status with the value Available stands in the event.
  pub data HasAvailable : List b.Attr → Type 0 where
    found :
        {a : b.Attr} {msg : List b.Attr}
        → text_eq (b.name a) (codes "status") ≡ true
        → text_eq (b.get_string a) (codes "Available") ≡ true
        → HasAvailable (a ∷ msg)
    further : {a : b.Attr} {msg : List b.Attr} → HasAvailable msg → HasAvailable (a ∷ msg)

  pub data Reported : List (List b.Attr) → Type 0 where
    here :
        {msg : List b.Attr} {msgs : List (List b.Attr)} → HasAvailable msg → Reported (msg ∷ msgs)
    later : {msg : List b.Attr} {msgs : List (List b.Attr)} → Reported msgs → Reported (msg ∷ msgs)

  or_further :
      {a : b.Attr} {msg : List b.Attr} {P : Type 0}
      → P ⊎ HasAvailable msg
      → P ⊎ HasAvailable (a ∷ msg)
  or_further (inl p) = inl p
  or_further (inr h) = inr (further h)

  found_or :
      {a : b.Attr} {msg : List b.Attr} {P : Type 0}
      → text_eq (b.name a) (codes "status") ≡ true
      → (text_eq (b.get_string a) (codes "Available") ≡ true) ⊎ HasAvailable msg
      → P ⊎ HasAvailable (a ∷ msg)
  found_or s (inl v) = inr (found s v)
  found_or s (inr h) = inr (further h)

  receive-reports :
      (id : Text) (msg : List b.Attr) (status : Bool)
      → (dmubus_receive_sysupgrade b id msg status).0 ≡ true
      → (status ≡ true) ⊎ HasAvailable msg
  unfolding dmubus_receive_sysupgrade
  receive-reports id [] status h = inl h
  receive-reports id (a ∷ msg) status h =
      elim (Bool-cases
        (text_eq (b.name a) (codes "bank_id") && not (text_eq (b.get_string a) id))) [
          | inl m ↦ inl (rw m at h)
          | inr m ↦ elim (Bool-cases (text_eq (b.name a) (codes "status"))) [
            | inl s ↦ elim (Bool-cases (text_eq (b.get_string a) (codes "Downloading"))) [
              | inl d ↦ inl (rw (m, s, d) at h)
              | inr d ↦ found_or s (receive-reports id msg _ (rw (m, s, d) at h))
            ]
            | inr s ↦ or_further (receive-reports id msg status (rw (m, s) at h))
          ]
        ]

  waits :
      (id : Text) (msgs : List (List b.Attr)) (status : Bool)
      → wait_for_event b id msgs status ≡ true
      → (status ≡ true) ⊎ Reported msgs
  unfolding wait_for_event
  waits id [] status h = inl h
  waits id (msg ∷ msgs) status h = elim (Bool-cases (dmubus_receive_sysupgrade b id msg status).1) [
    | inl e ↦ first (receive-reports id msg status (rw e at h))
    | inr e ↦ next (waits id msgs _ (rw e at h))
  ]
    where
      first : (status ≡ true) ⊎ HasAvailable msg → (status ≡ true) ⊎ Reported (msg ∷ msgs)
      first (inl s) = inl s
      first (inr r) = inr (here r)

      next :
          ((dmubus_receive_sysupgrade b id msg status).0 ≡ true) ⊎ Reported msgs
          → (status ≡ true) ⊎ Reported (msg ∷ msgs)
      next (inl s) = first (receive-reports id msg status s)
      next (inr r) = inr (later r)

  -- The download takes the image for applied only if an event reported the status Available.
  pub wait_for_event-Reported :
      (id : Text) (msgs : List (List b.Attr))
      → wait_for_event b id msgs false ≡ true
      → Reported msgs
  wait_for_event-Reported id msgs h = from (waits id msgs false h)
    where
      from : (◌≡◌ {A = Bool} false true) ⊎ Reported msgs → Reported msgs
      from (inl e) = absurd (cc e)
      from (inr r) = r

  -- But the event may be that of another bank: if its status Available stands before its bank_id and no
  -- other event comes in, the image counts as applied.
  wait_for_event-foreign :
      (id : Text) (a c : b.Attr)
      → b.name a ≡ codes "status"
      → b.get_string a ≡ codes "Available"
      → b.name c ≡ codes "bank_id"
      → text_eq (b.get_string c) id ≡ false
      → wait_for_event b id ((a ∷ c ∷ []) ∷ []) false ≡ true
  unfolding wait_for_event dmubus_receive_sysupgrade
  wait_for_event-foreign id a c s v n f = rw (s, v, n, f)
