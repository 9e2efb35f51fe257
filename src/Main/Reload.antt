-- ===== src/Main/Reload.antt =====
-- src/sysmngr.c: the reload of the configuration.
use sysmngr.Prelude.{
  ℕ, ◌*◌, ◌≡◌, refl, ap, ◌∙◌, Bool, true, false, Bool-cases, inl, inr, ◌&&◌, Option, none, some,
  ◌>>=◌, if◌then◌else◌, codes,
}
use sysmngr.Libc.{u32, strtoul}
use sysmngr.Uci.{Uci}
use sysmngr.Utils.{Names}
use sysmngr.Memory.{
  MemoryCtx, Poll, memory_key, bool_option, after_poll, calculate_memory_utilization,
  run_memory_monitor, fill_global_memory_ctx, sysmngr_memory_init, sysmngr_memory_clean,
}
use sysmngr.Cpu.{cpu_key, fill_global_cpu_info, sysmngr_cpu_init}
use sysmngr.Fwbank.{Blob}
use sysmngr.Main.{
  Features, Daemon, World, when, when_some, start_cpu, clean_cpu, start_memory, with_memory,
  clean_memory, config_reload_cb,
}

-- The timers that the configuration asks for.
abbrev pub cpu_timer : (u : Uci) → Bool → u.Config → Option ℕ
cpu_timer u allocated c =
    if allocated && bool_option (u.get c (cpu_key (codes "enable")) (codes "0") 16)
    then some
        (u32 (u32 (strtoul (u.get c (cpu_key (codes "poll_interval")) (codes "5") 16)) * 1000))
    else none

abbrev pub memory_timer : (u : Uci) → u.Config → Option ℕ
memory_timer u c =
    if bool_option (u.get c (memory_key (codes "enable")) (codes "0") 16)
    then some (
        u32
          (u32 (strtoul (u.get c (memory_key (codes "polling_interval")) (codes "60") 16)) * 1000))
    else none

module _ (u : Uci) (b : Blob) where
  -- The start of the memory monitor.
  memory-timer :
      (names : Names) (poll : Poll) (n : ℕ) (m : MemoryCtx u)
      → calculate_memory_utilization poll.meminfo ≡ some n
      → (m' : MemoryCtx u) × (sysmngr_memory_init u names poll m ≡ some m')
        × (m'.timer ≡ memory_timer u m.monitored.config)
  unfolding sysmngr_memory_init run_memory_monitor fill_global_memory_ctx
  memory-timer names poll n m h =
      started_or_not
        (bool_option (u.get m.monitored.config (memory_key (codes "enable")) (codes "0") 16))
    where
      started_or_not :
          (c : Bool)
          → (m' : MemoryCtx u) × ((if c
                then run_memory_monitor u names poll (fill_global_memory_ctx u m)
                else some (fill_global_memory_ctx u m))
              ≡ some m')
            × (m'.timer ≡ (
                if c
                then some (
                    u32 (
                      u32 (
                        strtoul (
                          u.get m.monitored.config
                            (memory_key (codes "polling_interval"))
                            (codes "60")
                            16))
                      * 1000))
                else none))
      started_or_not true = (
        _,
        ap (λ o. o >>= λ k. some (after_poll u names poll.now k (fill_global_memory_ctx u m))) h,
        refl,
      )
      started_or_not false = (_, refl, refl)

  cpu-timer :
      (f : Features) (w : World u b) (s : Daemon u b)
      → ((start_cpu u b f w s).cpu.timer ≡ cpu_timer u w.allocated s.config)
        × ((start_cpu u b f w s).config ≡ s.config)
  unfolding sysmngr_cpu_init fill_global_cpu_info
  cpu-timer f w s =
      elim (Bool-cases
        (w.allocated && bool_option (u.get s.config (cpu_key (codes "enable")) (codes "0") 16))) [
          | inl e ↦ rw e (refl, refl)
          | inr e ↦ rw e (refl, refl)
        ]

  -- The parts that a reload does not touch.
  abbrev pub OthersKept : Daemon u b → Daemon u b → Type 0
  OthersKept s t =
      (t.processes ≡ s.processes)
      × (t.fwbank ≡ s.fwbank)
      × (t.reboots_timer ≡ s.reboots_timer)
      × (t.reboots_locked ≡ s.reboots_locked)

  abbrev pub CpuFollows : Bool → Bool → Daemon u b → Daemon u b → Type 0
  CpuFollows built_in allocated s t =
      t.cpu.timer ≡ (if built_in then cpu_timer u allocated s.config else s.cpu.timer)

  reload_cpu :
      (f : Features) (w : World u b) (c : Bool) (s : Daemon u b)
      → let t = when u b f w c (λ x. start_cpu u b f w (clean_cpu u b f w x)) s in
        CpuFollows c w.allocated s t
        × (t.config ≡ s.config)
        × (t.memory ≡ s.memory)
        × OthersKept s t
  reload_cpu f w true s =
      let (timer, config) = cpu-timer f w (clean_cpu u b f w s) in
      (timer, config, refl, (refl, refl, refl, refl))
  reload_cpu f w false s = (refl, refl, refl, (refl, refl, refl, refl))

  abbrev pub MemoryFollows : Bool → Daemon u b → Daemon u b → Type 0
  MemoryFollows built_in s t =
      t.memory.timer ≡ (if built_in then memory_timer u s.config else s.memory.timer)

  reload_memory :
      (f : Features) (w : World u b) (c : Bool) (n : ℕ) (s : Daemon u b)
      → calculate_memory_utilization w.poll.meminfo ≡ some n
      → (t : Daemon u b) × (when_some u b f w c
            (λ x. start_memory u b f w (clean_memory u b f w x))
            s
          ≡ some t)
        × MemoryFollows c s t
        × (t.cpu ≡ s.cpu)
        × OthersKept s t
  reload_memory f w true n s h =
      let m = sysmngr_memory_clean u s.memory in
      let (m', e, timer) =
        memory-timer w.cpu_lib.names w.poll n
          (record m { monitored = record m.monitored { config = s.config } }) h in
      (
        with_memory u b f w m' (clean_memory u b f w s),
        ap (λ o. o >>= λ k. some (with_memory u b f w k (clean_memory u b f w s))) e,
        timer,
        refl,
        (refl, refl, refl, refl),
      )
  reload_memory f w false n s h = (s, refl, refl, refl, (refl, refl, refl, refl))

  -- If the use of memory can be computed, then a reload comes to its end, each monitor that is built in has its
  -- timer set exactly if the configuration enables it (and the samples of the CPU have memory), with the
  -- interval of the configuration, and the process list, the banks and the boot action stay as they are.
  pub reload-timers :
      (f : Features) (w : World u b) (n : ℕ) (s : Daemon u b)
      → calculate_memory_utilization w.poll.meminfo ≡ some n
      → (t : Daemon u b) × (config_reload_cb u b f w s ≡ some t)
        × CpuFollows f.process_status w.allocated s t
        × MemoryFollows f.memory_status s t
        × OthersKept s t
  unfolding config_reload_cb
  reload-timers f w n s h =
      let s1 = when u b f w f.process_status (λ x. start_cpu u b f w (clean_cpu u b f w x)) s in
      let (cpu, config, memory, (processes, fwbank, timer, locked)) =
        reload_cpu f w f.process_status s in
      let (t, e, follows, same_cpu, (processes', fwbank', timer', locked')) =
        reload_memory f w f.memory_status n s1 h in
      (
        t,
        e,
        ap (λ c. c.timer) same_cpu ∙ cpu,
        follows ∙ (λ i. if f.memory_status then memory_timer u (config i) else (memory i).timer),
        (processes' ∙ processes, fwbank' ∙ fwbank, timer' ∙ timer, locked' ∙ locked),
      )
