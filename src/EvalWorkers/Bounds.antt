-- ===== src/EvalWorkers/Bounds.antt =====
-- memory.py: the workers fit into the memory that the host can spare.
use nixbot.Prelude.{
  ℕ, ◌*◌, ◌/◌, ◌≤◌, min, max, ltb, ltb→lt, ◌≡◌, inl, inr, ◌⊎◌, refl, Bool-cases, arith,
}
use native.Mathlib.Nat.{mul-div-le}
use nixbot.EvalWorkers.{
  EvalWorkerConfig, MemoryInfo, size_workers, calculate_eval_workers, memory_for_workers,
  cpu_based_workers, min_eval_memory_mib, max_eval_workers,
}

-- What a host gets: between one worker and the maximum, each with the minimum of memory or more,
-- and all of them together within the limit of the control group.
pub record Fits (c : EvalWorkerConfig) : Type 0 where
  pub some_worker : 1 ≤ c.count
  pub few_workers : c.count ≤ max_eval_workers
  pub enough_memory : min_eval_memory_mib ≤ c.max_memory_mib
  pub within_limit : c.count * c.max_memory_mib ≤ c.cgroup_limit_mib

max_cases : (a b : ℕ) → (max a b ≡ a) ⊎ (max a b ≡ b)
max_cases a b = ground arith

-- A bounded factor times the larger of the minimum and an equal share.
share_le : (memory count : ℕ) → count * 1024 ≤ memory → count * max 1024 (memory / count) ≤ memory
share_le memory count h = elim (max_cases 1024 (memory / count)) [
  | inl e ↦ rw e h
  | inr e ↦ rw e (mul-div-le memory count)
]

roomy-Fits :
    (memory cpu count : ℕ)
    → 2048 ≤ memory
    → count ≡ max 1 (min (max 1 (memory / 2048)) (min cpu 16))
    → Fits (record { count = count; max_memory_mib = 2048; cgroup_limit_mib = memory })
roomy-Fits memory cpu count h e = record {
  some_worker = omega arith;
  few_workers = omega arith;
  enough_memory = omega arith;
  within_limit = omega arith;
}

tight-Fits :
    (memory cpu count : ℕ)
    → count ≡ min cpu (min (memory / 1024) 16)
    → 1 ≤ count
    → Fits (record {
      count = count;
      max_memory_mib = max 1024 (memory / count);
      cgroup_limit_mib = memory;
    })
tight-Fits memory cpu count e h = record {
  some_worker = h;
  few_workers = omega arith;
  enough_memory = ground arith;
  within_limit = share_le memory count (omega arith);
}

size_workers-Fits : (memory cpu : ℕ) → 2048 ≤ memory → Fits (size_workers memory cpu)
unfolding size_workers
size_workers-Fits memory cpu h =
    let optimal = max 1 (min (max 1 (memory / 2048)) (min cpu 16)) in
    let possible = min cpu (min (memory / 1024) 16) in
    elim (Bool-cases (ltb (max 1 (memory / 2048)) cpu)) [
      | inl a ↦ elim (Bool-cases (ltb optimal possible)) [
        | inl b ↦
            rw (a, b)
              (tight-Fits memory cpu possible refl (omega (arith, ltb→lt optimal possible b)))
        | inr b ↦ rw (a, b) (roomy-Fits memory cpu optimal h refl)
      ]
      | inr a ↦ rw a (roomy-Fits memory cpu optimal h refl)
    ]

-- On any host calculate_eval_workers gives between 1 and 16 workers with at least 1024 MiB each,
-- and all of them together stay within the limit of the control group.
pub calculate_eval_workers-Fits :
    (info : MemoryInfo) (cpu_count : ℕ) → Fits (calculate_eval_workers info cpu_count)
unfolding calculate_eval_workers memory_for_workers
calculate_eval_workers-Fits info cpu_count =
    size_workers-Fits (memory_for_workers info) (cpu_based_workers cpu_count) (ground arith)
