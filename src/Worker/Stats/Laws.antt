-- ===== src/Worker/Stats/Laws.antt =====
-- The worker's statistics: what they say of the numbers that were read.
use minkube.Base.{
  ℕ, ◌+◌, ◌-◌, ◌<◌, ◌≤◌, some, ◌≡◌, refl, arith, ap, ◌⊎◌, inl, inr, nat_eq, ◌==◌, Bool-cases,
}
use minkube.Worker.Stats.{
  uint64_mod, add_uint64, MemInfo, CpuStat, FloatOps, Stats, memory_used_kb, idle_time, busy_time,
  cpu_usage,
}

-- The used memory is the difference where the available memory is at most the total one.
memory_used_kb_lem :
    {L : Type 0} (s : Stats L) (m : MemInfo)
    → s.mem_stats ≡ some m
    → m.mem_available ≤ m.mem_total
    → m.mem_total < uint64_mod
    → memory_used_kb s ≡ some (m.mem_total - m.mem_available)
unfolding memory_used_kb
memory_used_kb_lem s m e h k = rw e (ap some (omega arith))

-- The time that all counters of the processor make up.
abbrev pub total_time : CpuStat → ℕ
total_time c = c.user + c.nice + c.system + c.idle + c.io_wait + c.irq + c.soft_irq

abbrev pub waiting_time : CpuStat → ℕ
waiting_time c = c.idle + c.io_wait

sums_lem :
    (c : CpuStat)
    → total_time c < uint64_mod
    → (idle_time c ≡ waiting_time c) × (add_uint64 (idle_time c) (busy_time c) ≡ total_time c)
unfolding idle_time busy_time
sums_lem c h = (omega arith, omega arith)

-- Unless the counters overflow together, CpuUsage is 0 if all of them are 0, and otherwise the share of
-- the time that is not waiting, with a divisor above 0.
pub cpu_usage_lem :
    {L F : Type 0} ⦃float : FloatOps F⦄ (s : Stats L) (c : CpuStat)
    → s.cpu_stats ≡ some c
    → total_time c < uint64_mod
    → ((total_time c ≡ 0) × (cpu_usage s ≡ some (float.of_uint64 0)))
      ⊎ ((0 < total_time c)
          × (waiting_time c ≤ total_time c)
          × (cpu_usage s
              ≡ some (
                  float.div_float
                    (float.sub_float
                      (float.of_uint64 (total_time c))
                      (float.of_uint64 (waiting_time c)))
                    (float.of_uint64 (total_time c)))))
unfolding cpu_usage
cpu_usage_lem s c e h =
    let (i, t) = sums_lem c h in
    elim (Bool-cases (total_time c == 0)) [
      | inl z ↦ inl (ground arith, rw (e, t, z, cpu_usage) refl)
      | inr z ↦ inr (ground arith, omega arith, rw (e, t, i, z, cpu_usage) refl)
    ]
