-- ===== src/Main/Start.antt =====
-- src/sysmngr.c: the parts start.
use sysmngr.Prelude.{ℕ, ◌≡◌, refl, ap, Bool, true, false, some, ◌>>=◌, if◌then◌else◌}
use sysmngr.Uci.{Uci}
use sysmngr.Utils.{Names}
use sysmngr.Memory.{
  MemoryCtx, Poll, after_poll, calculate_memory_utilization, run_memory_monitor,
  fill_global_memory_ctx, sysmngr_memory_init,
}
use sysmngr.Fwbank.{Blob}
use sysmngr.Main.{Features, Daemon, World, when_some, start_memory, with_memory, start_parts}

module _ (u : Uci) (b : Blob) where
  -- The memory monitor starts if its utilization can be computed.
  pub memory-starts :
      (names : Names) (poll : Poll) (n : ℕ) (m : MemoryCtx u)
      → calculate_memory_utilization poll.meminfo ≡ some n
      → (m' : MemoryCtx u) × (sysmngr_memory_init u names poll m ≡ some m')
  unfolding sysmngr_memory_init run_memory_monitor
  memory-starts names poll n m h = runs_or_not (fill_global_memory_ctx u m).enable
    where
      runs_or_not :
          (c : Bool)
          → (m' : MemoryCtx u) × ((if c
                then run_memory_monitor u names poll (fill_global_memory_ctx u m)
                else some (fill_global_memory_ctx u m))
              ≡ some m')
      runs_or_not true = (
        _,
        ap (λ o. o >>= λ k. some (after_poll u names poll.now k (fill_global_memory_ctx u m))) h,
      )
      runs_or_not false = (_, refl)

  pub start_memory-starts :
      (f : Features) (w : World u b) (n : ℕ) (s : Daemon u b)
      → calculate_memory_utilization w.poll.meminfo ≡ some n
      → (s' : Daemon u b) × (start_memory u b f w s ≡ some s')
  start_memory-starts f w n s h =
      let (m', e) =
        memory-starts w.cpu_lib.names w.poll n
          (record s.memory { monitored = record s.memory.monitored { config = s.config } }) h in
      (_, ap (λ o. o >>= λ m. some (with_memory u b f w m s)) e)

  pub parts-start :
      (f : Features) (w : World u b) (n : ℕ) (s : Daemon u b)
      → calculate_memory_utilization w.poll.meminfo ≡ some n
      → (s' : Daemon u b) × (start_parts u b f w s ≡ some s')
  unfolding start_parts
  parts-start f w n s h = start_or_not f.memory_status _
    where
      start_or_not :
          (c : Bool) (t : Daemon u b)
          → (s' : Daemon u b) × (when_some u b f w c (start_memory u b f w) t ≡ some s')
      start_or_not true t = start_memory-starts f w n t h
      start_or_not false t = (t, refl)
