-- ===== src/WorkerHttp/Stats.antt =====
-- internal/worker/http/handlers.go: GetStatsHandler on what CollectStats leaves.
use minkube.Base.{ℕ, some, ◌≡◌, refl}
use minkube.Http.{success}
use minkube.Worker.Stats.{
  ProcInfo, FloatOps, Stats, WorkerStats, mem_info_kb, mem_available_kb, memory_used_kb,
  memory_percent_used, disk_total_kb, disk_free_kb, disk_used_kb, cpu_usage, get_stats,
  collect_stats_round,
}
use minkube.WorkerHttp.Handlers.{get_stats_handler}

-- Statistics whose methods all return.
pub record IsComplete {L : Type 0} (F : Type 0) ⦃float : FloatOps F⦄ (s : Stats L) : Type 0 where
  pub total_memory : (n : ℕ) × (mem_info_kb s ≡ some n)
  pub available_memory : (n : ℕ) × (mem_available_kb s ≡ some n)
  pub used_memory : (n : ℕ) × (memory_used_kb s ≡ some n)
  pub used_percentage : (x : F) × (memory_percent_used s ≡ some x)
  pub total_disk : (n : ℕ) × (disk_total_kb s ≡ some n)
  pub free_disk : (n : ℕ) × (disk_free_kb s ≡ some n)
  pub used_disk : (n : ℕ) × (disk_used_kb s ≡ some n)
  pub processor : (x : F) × (cpu_usage s ≡ some x)

-- After a round of CollectStats, whichever of its reads failed, GetStatsHandler answers with status
-- 200 and statistics on which no method panics; the number of tasks in them, and the worker's own, is
-- 0 whatever it was before.
pub collected_stats :
    {L : Type 0} (F : Type 0) ⦃float : FloatOps F⦄ (proc : ProcInfo L) (w : WorkerStats L)
    → (s : Stats L) × (get_stats_handler (collect_stats_round proc w).stats ≡ success 200 s)
      × IsComplete F s
      × (s.task_count ≡ 0)
      × ((collect_stats_round proc w).worker_task_count ≡ 0)
unfolding collect_stats_round get_stats_handler mem_info_kb mem_available_kb memory_used_kb
    memory_percent_used disk_total_kb disk_free_kb disk_used_kb cpu_usage get_stats
collected_stats F proc w = (
  get_stats proc,
  refl,
  record {
    total_memory = (_, refl);
    available_memory = (_, refl);
    used_memory = (_, refl);
    used_percentage = (_, refl);
    total_disk = (_, refl);
    free_disk = (_, refl);
    used_disk = (_, refl);
    processor = (_, refl);
  },
  refl,
  refl,
)
