-- ===== src/Benchmark.antt =====
-- `ComputeBenchmark` of include/compute_benchmark.hpp, over any type `W` of doubles. The counter of
-- benchmarks is an atomic that wraps around. Readings of the clock are arguments: `now` of the time of
-- day, and `elapsed` for the difference of the two readings around the hashing.
pub mod Runs
use Prim.Native.String.{◌++◌}
use membra_l3_cpp.Base.{ℕ, zero, ◌*◌, String, Option, none, some, List, [], ◌∷◌}
use membra_l3_cpp.Base.Decimal.{to_string}
use membra_l3_cpp.Base.Double.{Double}
use membra_l3_cpp.Base.Word.{add64}
use mathlib.Core.List.{◌++◌ as append_lists}

pub record BenchmarkResult (W : Type 0) : Type 0 where
  pub benchmark_id : String
  pub hardware_type : String
  pub cpu_model : String
  pub cpu_cores : ℕ
  pub cpu_threads : ℕ
  pub cpu_frequency_ghz : W
  pub ram_gb : ℕ
  pub memory_bandwidth_gbps : W
  pub inference_ops_per_sec : W
  pub sha256_hashes_per_sec : W
  pub tx_throughput_per_sec : W
  pub power_watts_estimated : W
  pub efficiency_ops_per_watt : W
  pub benchmark_duration_sec : W
  pub timestamp : String

pub record ComputeBenchmark (W : Type 0) : Type 0 where
  pub history : List (BenchmarkResult W)
  pub benchmark_count : ℕ

abbrev pub new_benchmark : {W : Type 0} → ComputeBenchmark W
new_benchmark = record { history = []; benchmark_count = 0 }

abbrev pub m5_cores : ℕ
m5_cores = 12

abbrev pub m5_ram : ℕ
m5_ram = 32

abbrev pub detect_cpu_model : String
detect_cpu_model = "Apple M5 Pro"

module _ {W : Type 0} where
  -- `nullptr` is `none`.
  unfoldable pub last_of : List (BenchmarkResult W) → Option (BenchmarkResult W)
  last_of [] = none
  last_of (r ∷ []) = some r
  last_of (r ∷ s ∷ rest) = last_of (s ∷ rest)

  unfoldable pub get_latest_benchmark : ComputeBenchmark W → Option (BenchmarkResult W)
  get_latest_benchmark b = last_of b.history

  unfoldable pub get_history : ComputeBenchmark W → List (BenchmarkResult W)
  get_history b = b.history

module _ {W : Type 0} ⦃d : Double W⦄ where
  abbrev pub m5_cpu_freq : W
  m5_cpu_freq = d.lit 35 10

  abbrev pub m5_memory_bandwidth : W
  m5_memory_bandwidth = d.lit 400 1

  abbrev pub benchmark_sha256 : W
  benchmark_sha256 = d.lit 50_000_000 1

  unfoldable pub estimate_power : ℕ → ℕ → W
  estimate_power cores ram_gb =
      d.add (d.mul (d.of_u64 cores) (d.lit 2 1)) (d.mul (d.of_u64 ram_gb) (d.lit 5 10))

  -- The result before it is stored.
  unfoldable pub measured : String → String → W → W → BenchmarkResult W
  measured id hardware_type elapsed now =
      let ops = d.mul benchmark_sha256 (d.lit 1000 1) in
      let power = estimate_power m5_cores m5_ram in
      record {
        benchmark_id = id;
        hardware_type = hardware_type;
        cpu_model = detect_cpu_model;
        cpu_cores = m5_cores;
        cpu_threads = m5_cores * 2;
        cpu_frequency_ghz = m5_cpu_freq;
        ram_gb = m5_ram;
        memory_bandwidth_gbps = m5_memory_bandwidth;
        inference_ops_per_sec = ops;
        sha256_hashes_per_sec = benchmark_sha256;
        tx_throughput_per_sec = d.div benchmark_sha256 (d.lit 100 1);
        power_watts_estimated = power;
        efficiency_ops_per_watt = d.div ops power;
        benchmark_duration_sec = elapsed;
        timestamp = d.shown now;
      }

  unfoldable pub run_benchmark :
      ComputeBenchmark W → String → W → W → BenchmarkResult W × ComputeBenchmark W
  run_benchmark b hardware_type elapsed now =
      let result = measured ("bench_" ++ to_string b.benchmark_count) hardware_type elapsed now in
      (
        result,
        record {
          history = append_lists b.history (result ∷ []);
          benchmark_count = add64 b.benchmark_count 1;
        },
      )

  -- `elapsed` is what the duration, which is not set, holds.
  unfoldable pub get_m5_baseline : W → W → BenchmarkResult W
  get_m5_baseline elapsed now = record {
    benchmark_id = "baseline_m5";
    hardware_type = "M5_MacBook_Pro";
    cpu_model = "Apple M5 Pro";
    cpu_cores = m5_cores;
    cpu_threads = m5_cores * 2;
    cpu_frequency_ghz = m5_cpu_freq;
    ram_gb = m5_ram;
    memory_bandwidth_gbps = m5_memory_bandwidth;
    inference_ops_per_sec = d.lit 50_000_000_000 1;
    sha256_hashes_per_sec = d.lit 50_000_000 1;
    tx_throughput_per_sec = d.lit 500_000 1;
    power_watts_estimated = d.lit 30 1;
    efficiency_ops_per_watt = d.lit 166_666_666_667 100;
    benchmark_duration_sec = elapsed;
    timestamp = d.shown now;
  }

  unfoldable pub compare_to_m5 : BenchmarkResult W → W → W → W
  compare_to_m5 current elapsed now =
      d.div current.inference_ops_per_sec (get_m5_baseline elapsed now).inference_ops_per_sec

  unfoldable pub estimate_daily_sol_earnings : BenchmarkResult W → W → W
  estimate_daily_sol_earnings benchmark sol_per_billion_ops =
      let ops_per_day = d.mul benchmark.inference_ops_per_sec (d.lit 86_400 1) in
      d.mul (d.div ops_per_day (d.lit 1_000_000_000 1)) sol_per_billion_ops
