-- ===== src/EvalWorkers/Tests.antt =====
-- The sizing of the evaluation workers at a small host.
use nixbot.Prelude.{◌≡◌, refl}
use nixbot.EvalWorkers.{
  MemoryInfo, calculate_eval_workers, memory_for_workers, effective_available_memory,
  cpu_based_workers, size_workers,
}
use nixbot.EvalWorkers.Bounds.{Fits, calculate_eval_workers-Fits}

abbrev small_host : MemoryInfo
small_host = record { total_memory_mib = 8192; available_memory_mib = 6000; zfs_arc_used = 1000 }

small_host_workers :
    calculate_eval_workers small_host 8
    ≡ record { count = 4; max_memory_mib = 1175; cgroup_limit_mib = 4702 }
unfolding calculate_eval_workers memory_for_workers effective_available_memory cpu_based_workers
    size_workers
small_host_workers = refl

calculate_eval_workers-Fits_example : Fits (calculate_eval_workers small_host 8)
calculate_eval_workers-Fits_example = calculate_eval_workers-Fits small_host 8
