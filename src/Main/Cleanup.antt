-- ===== src/Main/Cleanup.antt =====
-- src/sysmngr.c: what the calls at the end of the daemon take back, and what they leave.
use sysmngr.Prelude.{
  ◌≡◌, refl, ap, ◌∙◌, Bool, true, false, Bool-cases, inl, inr, ◌⊎◌, ◌||◌, Option, none, some, List,
  [], ◌∷◌,
}
use sysmngr.Uci.{Uci}
use sysmngr.Memory.{sysmngr_memory_clean}
use sysmngr.Cpu.{CpuInfo, sysmngr_cpu_clean}
use sysmngr.Processes.{ProcessCtx, sysmngr_process_clean, free_process_list}
use sysmngr.Fwbank.{Blob, free_global_fwbank_dump, sysmngr_clean_fwbank_dump, freed}
use sysmngr.Main.{
  Features, Daemon, World, when, clean_memory, clean_processes, unregister_fwbank, clean_dump,
  clean_parts,
}

module _ (u : Uci) (b : Blob) where
  when-view :
      {X : Type 0} (f : Features) (w : World u b) (view : Daemon u b → X) (c : Bool)
      (g : Daemon u b → Daemon u b) (s : Daemon u b)
      → ((t : Daemon u b) → view (g t) ≡ view t)
      → view (when u b f w c g s) ≡ view s
  when-view f w view true g s h = h s
  when-view f w view false g s h = refl

  -- No bytes of a dump are left.
  abbrev pub NoDump : Daemon u b → Type 0
  NoDump s = (s.fwbank.output ≡ none) ⊎ (s.fwbank.output ≡ some [])

  freed-empty : (o : Option (List b.Attr)) → (freed b o ≡ none) ⊎ (freed b o ≡ some [])
  freed-empty none = inl refl
  freed-empty (some []) = inr refl
  freed-empty (some (a ∷ rest)) = inl refl

  abbrev pub ProcessesStopped : Daemon u b → Type 0
  ProcessesStopped s =
      (s.cpu.timer ≡ none)
      × (s.cpu.utilization_samples ≡ [])
      × (s.processes.instance_timer ≡ none)
      × (s.processes.list ≡ [])

  -- What the end takes back of each part that is built in.
  abbrev pub Cleaned : Features → Daemon u b → Type 0
  Cleaned f s =
      ((f.process_status ≡ false) ⊎ ProcessesStopped s)
      × ((f.memory_status ≡ false) ⊎ (s.memory.timer ≡ none))
      × ((f.fwbank_ubus_support ≡ false) ⊎ (s.fwbank_object ≡ false))
      × (((f.fwbank_ubus_support || f.memory_status) ≡ false) ⊎ NoDump s)
      × (s.data_model ≡ false)

  -- The states between the calls of the end.
  abbrev after_processes : Features → World u b → Daemon u b → Daemon u b
  after_processes f w s =
      when u b f w f.process_status (clean_processes u b f w) (record s { data_model = false })

  abbrev after_memory : Features → World u b → Daemon u b → Daemon u b
  after_memory f w s = when u b f w f.memory_status (clean_memory u b f w) (after_processes f w s)

  abbrev after_object : Features → World u b → Daemon u b → Daemon u b
  after_object f w s =
      when u b f w f.fwbank_ubus_support (unregister_fwbank u b f w) (after_memory f w s)

  dump-view :
      {X : Type 0} (f : Features) (w : World u b) (view : Daemon u b → X) (s : Daemon u b)
      → ((t : Daemon u b) → view (clean_dump u b f w t) ≡ view t)
      → view (clean_parts u b f w s) ≡ view (after_object f w s)
  unfolding clean_parts
  dump-view f w view s h =
      when-view f w view (f.fwbank_ubus_support || f.memory_status) (clean_dump u b f w)
        (after_object f w s) h

  object-view :
      {X : Type 0} (f : Features) (w : World u b) (view : Daemon u b → X) (s : Daemon u b)
      → ((t : Daemon u b) → view (unregister_fwbank u b f w t) ≡ view t)
      → view (after_object f w s) ≡ view (after_memory f w s)
  object-view f w view s h =
      when-view f w view f.fwbank_ubus_support (unregister_fwbank u b f w) (after_memory f w s) h

  memory-view :
      {X : Type 0} (f : Features) (w : World u b) (view : Daemon u b → X) (s : Daemon u b)
      → ((t : Daemon u b) → view (clean_memory u b f w t) ≡ view t)
      → view (after_memory f w s) ≡ view (after_processes f w s)
  memory-view f w view s h =
      when-view f w view f.memory_status (clean_memory u b f w) (after_processes f w s) h

  -- A call that is built in is made.
  when-made :
      (f : Features) (w : World u b) (c : Bool) (g : Daemon u b → Daemon u b) (s : Daemon u b)
      → c ≡ true
      → when u b f w c g s ≡ g s
  when-made f w c g s h = rw h refl

  processes_of : Daemon u b → CpuInfo u × ProcessCtx
  processes_of t = (t.cpu, t.processes)

  pub processes-stop :
      (f : Features) (w : World u b) (s : Daemon u b)
      → (f.process_status ≡ false) ⊎ ProcessesStopped (clean_parts u b f w s)
  unfolding sysmngr_cpu_clean sysmngr_process_clean free_process_list processes_of
  processes-stop f w s = elim (Bool-cases f.process_status) [
    | inr e ↦ inl e
    | inl e ↦
        let same =
          dump-view f w processes_of s (λ t. refl)
          ∙ object-view f w processes_of s (λ t. refl)
          ∙ memory-view f w processes_of s (λ t. refl)
          ∙ ap processes_of (
              when-made f w f.process_status (clean_processes u b f w)
                (record s { data_model = false }) e) in
        inr (
          ap (λ v. v.0.timer) same,
          ap (λ v. v.0.utilization_samples) same,
          ap (λ v. v.1.instance_timer) same,
          ap (λ v. v.1.list) same,
        )
  ]

  pub memory-stops :
      (f : Features) (w : World u b) (s : Daemon u b)
      → (f.memory_status ≡ false) ⊎ ((clean_parts u b f w s).memory.timer ≡ none)
  unfolding sysmngr_memory_clean
  memory-stops f w s = elim (Bool-cases f.memory_status) [
    | inr e ↦ inl e
    | inl e ↦ inr (
        dump-view f w (λ t. t.memory.timer) s (λ t. refl)
        ∙ object-view f w (λ t. t.memory.timer) s (λ t. refl)
        ∙ ap (λ t. t.memory.timer)
            (when-made f w f.memory_status (clean_memory u b f w) (after_processes f w s) e))
  ]

  pub object-leaves :
      (f : Features) (w : World u b) (s : Daemon u b)
      → (f.fwbank_ubus_support ≡ false) ⊎ ((clean_parts u b f w s).fwbank_object ≡ false)
  object-leaves f w s = elim (Bool-cases f.fwbank_ubus_support) [
    | inr e ↦ inl e
    | inl e ↦ inr (
        dump-view f w (λ t. t.fwbank_object) s (λ t. refl)
        ∙ ap (λ t. t.fwbank_object)
            (when-made f w f.fwbank_ubus_support (unregister_fwbank u b f w) (after_memory f w s)
              e))
  ]

  pub dump-freed :
      (f : Features) (w : World u b) (s : Daemon u b)
      → ((f.fwbank_ubus_support || f.memory_status) ≡ false) ⊎ NoDump (clean_parts u b f w s)
  unfolding clean_parts sysmngr_clean_fwbank_dump free_global_fwbank_dump
  dump-freed f w s = elim (Bool-cases (f.fwbank_ubus_support || f.memory_status)) [
    | inr e ↦ inl e
    | inl e ↦ inr (rw e (freed-empty _))
  ]

  pub model-leaves :
      (f : Features) (w : World u b) (s : Daemon u b) → (clean_parts u b f w s).data_model ≡ false
  model-leaves f w s =
      dump-view f w (λ t. t.data_model) s (λ t. refl)
      ∙ object-view f w (λ t. t.data_model) s (λ t. refl)
      ∙ memory-view f w (λ t. t.data_model) s (λ t. refl)
      ∙ when-view f w (λ t. t.data_model) f.process_status (clean_processes u b f w)
          (record s { data_model = false }) (λ t. refl)

  left-as-was :
      {X : Type 0} (f : Features) (w : World u b) (view : Daemon u b → X) (s : Daemon u b)
      → ((t : Daemon u b) → view (clean_dump u b f w t) ≡ view t)
      → ((t : Daemon u b) → view (unregister_fwbank u b f w t) ≡ view t)
      → ((t : Daemon u b) → view (clean_memory u b f w t) ≡ view t)
      → ((t : Daemon u b) → view (clean_processes u b f w t) ≡ view t)
      → view (record s { data_model = false }) ≡ view s
      → view (clean_parts u b f w s) ≡ view s
  left-as-was f w view s dump object memory processes model =
      dump-view f w view s dump
      ∙ object-view f w view s object
      ∙ memory-view f w view s memory
      ∙ when-view f w view f.process_status (clean_processes u b f w)
          (record s { data_model = false }) processes
      ∙ model

  -- What the end does not touch: the configuration, the timer of the reboots, and the timers, the tasks and the replies
  -- of the bank part.
  abbrev pub LeftAsWas : Daemon u b → Daemon u b → Type 0
  LeftAsWas last s =
      (s.config ≡ last.config)
      × (s.reboots_timer ≡ last.reboots_timer)
      × (s.fwbank.tm ≡ last.fwbank.tm)
      × (s.fwbank.event ≡ last.fwbank.event)
      × (s.fwbank.tasks ≡ last.fwbank.tasks)
      × (s.fwbank.effects ≡ last.fwbank.effects)

  pub parts-LeftAsWas :
      (f : Features) (w : World u b) (s : Daemon u b) → LeftAsWas s (clean_parts u b f w s)
  unfolding sysmngr_clean_fwbank_dump free_global_fwbank_dump sysmngr_memory_clean sysmngr_cpu_clean
      sysmngr_process_clean
  parts-LeftAsWas f w s = (
    left-as-was f w (λ t. t.config) s (λ t. refl) (λ t. refl) (λ t. refl) (λ t. refl) refl,
    left-as-was f w (λ t. t.reboots_timer) s (λ t. refl) (λ t. refl) (λ t. refl) (λ t. refl) refl,
    left-as-was f w (λ t. t.fwbank.tm) s (λ t. refl) (λ t. refl) (λ t. refl) (λ t. refl) refl,
    left-as-was f w (λ t. t.fwbank.event) s (λ t. refl) (λ t. refl) (λ t. refl) (λ t. refl) refl,
    left-as-was f w (λ t. t.fwbank.tasks) s (λ t. refl) (λ t. refl) (λ t. refl) (λ t. refl) refl,
    left-as-was f w (λ t. t.fwbank.effects) s (λ t. refl) (λ t. refl) (λ t. refl) (λ t. refl) refl,
  )
