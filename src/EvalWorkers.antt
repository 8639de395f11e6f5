-- ===== src/EvalWorkers.antt =====
-- memory.py: the number of evaluation workers and their memory. Sizes are in MiB.
pub mod Bounds
mod Tests
use nixbot.Prelude.{ℕ, ◌+◌, ◌-◌, ◌*◌, ◌/◌, min, max, ltb, Bool, if◌then◌else◌}

abbrev pub default_eval_max_memory_mib : ℕ
default_eval_max_memory_mib = 2048

abbrev pub min_eval_memory_mib : ℕ
min_eval_memory_mib = 1024

abbrev pub system_reserve_mib : ℕ
system_reserve_mib = 2048

abbrev pub max_eval_workers : ℕ
max_eval_workers = 16

pub record EvalWorkerConfig : Type 0 where
  pub count : ℕ
  pub max_memory_mib : ℕ
  pub cgroup_limit_mib : ℕ

pub record MemoryInfo : Type 0 where
  pub total_memory_mib : ℕ
  pub available_memory_mib : ℕ
  pub zfs_arc_used : ℕ

-- `int(zfs_arc_used * 0.75)` is exact, the factor being a binary fraction.
unfoldable pub effective_available_memory : MemoryInfo → ℕ
effective_available_memory info =
    if ltb 0 info.zfs_arc_used
    then info.available_memory_mib + info.zfs_arc_used * 3 / 4
    else info.available_memory_mib

-- The difference stops at 0 here and may be negative there: `max` forgets it.
unfoldable pub memory_for_workers : MemoryInfo → ℕ
memory_for_workers info = max 2048 (effective_available_memory info - system_reserve_mib)

unfoldable pub cpu_based_workers : ℕ → ℕ
cpu_based_workers cpu_count = max 1 (min cpu_count ((cpu_count + 1) / 2))

-- `calculate_eval_workers` from its fourth variable on
unfoldable pub size_workers : ℕ → ℕ → EvalWorkerConfig
size_workers memory cpu =
    let memory_based = max 1 (memory / default_eval_max_memory_mib) in
    let optimal = max 1 (min memory_based (min cpu max_eval_workers)) in
    let possible = min cpu (min (memory / min_eval_memory_mib) max_eval_workers) in
    let roomy : EvalWorkerConfig = record {
      count = optimal;
      max_memory_mib = default_eval_max_memory_mib;
      cgroup_limit_mib = memory;
    } in
    let tight : EvalWorkerConfig = record {
      count = possible;
      max_memory_mib = max min_eval_memory_mib (memory / possible);
      cgroup_limit_mib = memory;
    } in
    if ltb memory_based cpu then if ltb optimal possible then tight else roomy else roomy

unfoldable pub calculate_eval_workers : MemoryInfo → ℕ → EvalWorkerConfig
calculate_eval_workers info cpu_count =
    size_workers (memory_for_workers info) (cpu_based_workers cpu_count)
