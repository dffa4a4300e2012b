-- ===== src/Tests/StatsRuns.antt =====
-- The worker's statistics on concrete reads of /proc.
use minkube.Base.{ℕ, none, some, ◌≡◌, refl, arith, ◌<◌, ◌≤◌, ◌⊎◌, ◌+◌, ◌*◌, ◌/◌, ◌-◌}
use minkube.Http.{success}
use minkube.Worker.Stats.{
  CpuStat, MemInfo, ProcInfo, FloatOps, Stats, WorkerStats, cpu_usage, collect_stats_round,
}
use minkube.Worker.Stats.Laws.{total_time, cpu_usage_lem}
use minkube.WorkerHttp.Handlers.{get_stats_handler}
use minkube.WorkerHttp.Stats.{IsComplete, collected_stats}

-- Whole numbers in place of floats.
instance abbrev rough : FloatOps ℕ
rough = record {
  of_uint64 = λ n. n;
  sub_float = λ x y. x - y;
  mul_float = λ x y. x * y;
  div_float = λ x y. x / (y - 1 + 1);
}

abbrev counters : CpuStat
counters = record {
  user = 40;
  nice = 0;
  system = 10;
  idle = 200;
  io_wait = 5;
  irq = 1;
  soft_irq = 2;
}

abbrev memory : MemInfo
memory = record { mem_total = 8000; mem_available = 3000 }

-- The disk and the load cannot be read.
abbrev proc : ProcInfo ℕ
proc = record {
  read_mem_info = λ path. some memory;
  read_disk = λ path. none;
  read_stat = λ path. some counters;
  read_load_avg = λ path. none;
  no_load_avg = 0;
}

abbrev some_stats : Stats ℕ
some_stats = record {
  mem_stats = some memory;
  disk_stats = none;
  cpu_stats = some counters;
  load_stats = none;
  task_count = 3;
}

abbrev before_round : WorkerStats ℕ
before_round = record { stats = none; worker_task_count = 3 }

cpu_usage_lem_example :
    ((total_time counters ≡ 0) × (cpu_usage {F = ℕ} some_stats ≡ some 0))
    ⊎ ((0 < total_time counters)
        × (205 ≤ total_time counters)
        × (cpu_usage {F = ℕ} some_stats ≡ some (53 / 258)))
cpu_usage_lem_example = cpu_usage_lem {F = ℕ} some_stats counters refl (omega arith)

collected_stats_example :
    (s : Stats ℕ) × (get_stats_handler (collect_stats_round proc before_round).stats
      ≡ success 200 s)
    × IsComplete ℕ s
    × (s.task_count ≡ 0)
    × ((collect_stats_round proc before_round).worker_task_count ≡ 0)
collected_stats_example = collected_stats ℕ proc before_round
