-- ===== src/Benchmark/Runs.antt =====
-- Histories of runs of include/compute_benchmark.hpp.
use Prim.Native.String as String
use mathlib.Core.List.{append_assoc, append-nil}
use membra_l3_cpp.Base.{ℕ, ◌+◌, ◌<◌, ◌^◌, ◌≡◌, sym, ◌∙◌, String, List, [], ◌∷◌, ◌++◌, arith, length}
use membra_l3_cpp.Base.Decimal.{to_string}
use membra_l3_cpp.Base.Double.{Double}
use membra_l3_cpp.Base.Word.{add64-eq_of_lt}
use membra_l3_cpp.Benchmark.{
  BenchmarkResult, ComputeBenchmark, new_benchmark, measured, run_benchmark, get_history,
}

module _ {W : Type 0} ⦃d : Double W⦄ where
  -- Runs with the hardware's name, the time taken and the time of day.
  unfoldable pub run_all : ComputeBenchmark W → List (String × W × W) → ComputeBenchmark W
  run_all b [] = b
  run_all b ((hardware_type, elapsed, now) ∷ rest) =
      run_all (run_benchmark b hardware_type elapsed now).1 rest

  -- The results that runs give from an identifier's number on.
  unfoldable pub results_from : ℕ → List (String × W × W) → List (BenchmarkResult W)
  results_from n [] = []
  results_from n ((hardware_type, elapsed, now) ∷ rest) =
      measured (String.◌++◌ "bench_" (to_string n)) hardware_type elapsed now
      ∷ results_from (n + 1) rest

  run_all-get_history_from :
      (b : ComputeBenchmark W) (runs : List (String × W × W))
      → b.benchmark_count + length runs < 2 ^ 64
      → get_history (run_all b runs) ≡ b.history ++ results_from b.benchmark_count runs
  unfolding get_history run_all results_from run_benchmark
  run_all-get_history_from b [] room = sym (append-nil b.history)
  run_all-get_history_from b ((hardware_type, elapsed, now) ∷ rest) room =
      let b' = (run_benchmark b hardware_type elapsed now).1 in
      let counted = add64-eq_of_lt b.benchmark_count 1 (omega arith) in
      run_all-get_history_from b' rest (omega (arith, counted))
      ∙ rw counted (
          append_assoc b.history (measured _ hardware_type elapsed now ∷ [])
            (results_from (b.benchmark_count + 1) rest))

  -- From the start, after fewer than 2 ^ 64 runs, the history is the results of the runs in their order,
  -- with the identifiers counted from 0; of what a run finds, only the identifier, the name that was
  -- given and the times depend on the run.
  pub run_all-get_history :
      (runs : List (String × W × W))
      → length runs < 2 ^ 64
      → get_history (run_all new_benchmark runs) ≡ results_from 0 runs
  run_all-get_history runs room = run_all-get_history_from new_benchmark runs (omega arith)
