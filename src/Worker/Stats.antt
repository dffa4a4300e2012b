-- ===== src/Worker/Stats.antt =====
-- internal/worker/stats/stats.go, and CollectStats of internal/worker/service/worker.go. A uint64 is a
-- number below 2 ^ 64, and its sums and differences wrap.
pub mod Laws
use minkube.Base.{ℕ, ◌+◌, ◌-◌, ◌%◌, String, Bool, Option, none, some, ◌==◌, nat_eq, if◌then◌else◌}

abbrev pub uint64_mod : ℕ
uint64_mod = 18446744073709551616

abbrev pub add_uint64 : ℕ → ℕ → ℕ
add_uint64 a b = (a + b) % uint64_mod

abbrev pub sub_uint64 : ℕ → ℕ → ℕ
sub_uint64 a b = (a + uint64_mod - b) % uint64_mod

-- The types of github.com/c9s/goprocinfo, a package outside the repository, with the fields that the
-- program reads. Nothing of linux.LoadAvg is read: it is the type L below.
pub record MemInfo : Type 0 where
  pub mem_total : ℕ
  pub mem_available : ℕ

pub record Disk : Type 0 where
  pub all : ℕ
  pub used : ℕ
  pub free : ℕ

pub record CpuStat : Type 0 where
  pub user : ℕ
  pub nice : ℕ
  pub system : ℕ
  pub idle : ℕ
  pub io_wait : ℕ
  pub irq : ℕ
  pub soft_irq : ℕ

-- The package's reads of the file system at one time; `none` is an error. `no_load_avg` is
-- `linux.LoadAvg{}`.
pub record ProcInfo (L : Type 0) : Type 0 where
  pub read_mem_info : String → Option MemInfo
  pub read_disk : String → Option Disk
  pub read_stat : String → Option CpuStat
  pub read_load_avg : String → Option L
  pub no_load_avg : L

-- Go's float64, as far as the program computes with it.
pub record FloatOps (F : Type 0) : Type 0 where
  pub of_uint64 : ℕ → F
  pub sub_float : F → F → F
  pub mul_float : F → F → F
  pub div_float : F → F → F

-- `none` is a nil pointer.
pub record Stats (L : Type 0) : Type 0 where
  pub mem_stats : Option MemInfo
  pub disk_stats : Option Disk
  pub cpu_stats : Option CpuStat
  pub load_stats : Option L
  pub task_count : ℕ

-- A method that reads a field through a pointer; `none` is the panic of a nil one.
abbrev pub through : {A B : Type 0} → Option A → (A → B) → Option B
through none f = none
through (some a) f = some (f a)

module _ {L : Type 0} where
  unfoldable pub mem_info_kb : Stats L → Option ℕ
  mem_info_kb s = through s.mem_stats (λ m. m.mem_total)

  unfoldable pub mem_available_kb : Stats L → Option ℕ
  mem_available_kb s = through s.mem_stats (λ m. m.mem_available)

  unfoldable pub memory_used_kb : Stats L → Option ℕ
  memory_used_kb s = through s.mem_stats (λ m. sub_uint64 m.mem_total m.mem_available)

  unfoldable pub memory_percent_used : {F : Type 0} ⦃float : FloatOps F⦄ → Stats L → Option F
  unfolding memory_used_kb mem_info_kb
  memory_percent_used ⦃float = float⦄ s = elim (memory_used_kb s) [
    | none ↦ none
    | some used ↦ through (mem_info_kb s) (λ total.
        float.mul_float (float.div_float (float.of_uint64 used) (float.of_uint64 total))
          (float.of_uint64 100))
  ]

  unfoldable pub disk_total_kb : Stats L → Option ℕ
  disk_total_kb s = through s.disk_stats (λ d. d.all)

  unfoldable pub disk_free_kb : Stats L → Option ℕ
  disk_free_kb s = through s.disk_stats (λ d. d.free)

  unfoldable pub disk_used_kb : Stats L → Option ℕ
  disk_used_kb s = through s.disk_stats (λ d. d.used)

-- The sums of `CpuUsage`.
unfoldable pub idle_time : CpuStat → ℕ
idle_time c = add_uint64 c.idle c.io_wait

unfoldable pub busy_time : CpuStat → ℕ
busy_time c =
    add_uint64 (add_uint64 (add_uint64 (add_uint64 c.user c.nice) c.system) c.irq) c.soft_irq

unfoldable pub cpu_usage : {L F : Type 0} ⦃float : FloatOps F⦄ → Stats L → Option F
unfolding idle_time busy_time
cpu_usage ⦃float = float⦄ s = through s.cpu_stats (λ c.
    let total = add_uint64 (idle_time c) (busy_time c) in
    if total == 0
    then float.of_uint64 0
    else float.div_float (float.sub_float (float.of_uint64 total) (float.of_uint64 (idle_time c)))
        (float.of_uint64 total))

-- A read that failed is logged and gives the zero value.
abbrev pub or_zero : {A : Type 0} → A → Option A → A
or_zero zero_value none = zero_value
or_zero zero_value (some a) = a

module _ {L : Type 0} (proc : ProcInfo L) where
  unfoldable pub get_memory_info : MemInfo
  get_memory_info =
      or_zero (record { mem_total = 0; mem_available = 0 }) (proc.read_mem_info "/proc/meminfo")

  unfoldable pub get_disk_info : Disk
  get_disk_info = or_zero (record { all = 0; used = 0; free = 0 }) (proc.read_disk "/")

  unfoldable pub get_cpu_stats : CpuStat
  get_cpu_stats =
      or_zero
        (record { user = 0; nice = 0; system = 0; idle = 0; io_wait = 0; irq = 0; soft_irq = 0 })
        (proc.read_stat "/proc/stat")

  unfoldable pub get_load_avg : L
  get_load_avg = or_zero proc.no_load_avg (proc.read_load_avg "/proc/loadavg")

  -- `GetStats`, which does not read the old statistics.
  unfoldable pub get_stats : Stats L
  unfolding get_memory_info get_disk_info get_cpu_stats get_load_avg
  get_stats = record {
    mem_stats = some get_memory_info;
    disk_stats = some get_disk_info;
    cpu_stats = some get_cpu_stats;
    load_stats = some get_load_avg;
    task_count = 0;
  }

-- The two fields of the worker that `CollectStats` writes; `none` is nil.
pub record WorkerStats (L : Type 0) : Type 0 where
  pub stats : Option (Stats L)
  pub worker_task_count : ℕ

-- A round of the loop of `CollectStats`.
unfoldable pub collect_stats_round : {L : Type 0} → ProcInfo L → WorkerStats L → WorkerStats L
unfolding get_stats
collect_stats_round proc w = record {
  stats = some (get_stats proc);
  worker_task_count = (get_stats proc).task_count;
}
