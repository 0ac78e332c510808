-- ===== src/ZkCompute/Allocator.antt =====
-- `ComputeResourceAllocator` of src/zk_compute.cpp, over any type `W` of doubles. `ms` and `count` are
-- the readings of the clock for the id and for the expiry; a `uint64_t` lies in memory with its lowest
-- byte first.
pub mod Returns
pub mod Booked
use Prim.Native.String.{◌++◌}
use mathlib.Core.List.{◌++◌ as append_lists}
use membra_l3_cpp.Base.{
  ℕ, ◌/◌, min, String, str_eq, Bool, true, false, not, ◌&&◌, ◌||◌, none, some, [], ◌∷◌, leb,
  if◌then◌else◌,
}
use membra_l3_cpp.Base.Bytes.{bytes_of, hash_to_hex, take, le_bytes}
use membra_l3_cpp.Base.Decimal.{to_string}
use membra_l3_cpp.Base.Dict.{Dict, lookup, insert, get_or}
use membra_l3_cpp.Base.Erase.{erase}
use membra_l3_cpp.Base.Double.{Double}
use membra_l3_cpp.Base.Word.{add64, sub64}
use membra_l3_cpp.Merkle.{Bytes}
use membra_l3_cpp.ZkCompute.{ComputeTask, ResourceCommitment, new_commitment}

pub record NodeStatus (W : Type 0) : Type 0 where
  pub node_id : String
  pub available_cpu_cores : ℕ
  pub available_memory_mb : ℕ
  pub gpu_available : Bool
  pub active_tasks : ℕ
  pub utilization_ratio : W

pub record ComputeResourceAllocator (W : Type 0) : Type 0 where
  pub commitments : Dict ResourceCommitment
  pub node_statuses : Dict (NodeStatus W)

-- The id: the first sixteen bytes of a hash, in hexadecimal.
abbrev pub commitment_id_of : (Bytes → Bytes) → String → ℕ → String
commitment_id_of sha256 node_id ms =
    hash_to_hex (take 16 (sha256 (bytes_of (node_id ++ to_string ms))))

module _ {W : Type 0} where
  -- The test of `check_availability` on the node it found.
  abbrev pub has_room : ComputeTask → NodeStatus W → Bool
  has_room task status =
      leb (task.required_compute_units / 1000) status.available_cpu_cores
      && leb (task.required_compute_units / 10) status.available_memory_mb
      && (not (str_eq task.circuit_identifier "") || status.gpu_available)

  unfoldable pub check_availability : ComputeResourceAllocator W → ComputeTask → String → Bool
  check_availability a task node_id = elim (lookup node_id a.node_statuses) [
    | none ↦ false
    | some status ↦ has_room task status
  ]

  -- A node that is not known has fields that nothing sets: they are the argument `indeterminate`.
  unfoldable pub get_node_status : ComputeResourceAllocator W → String → NodeStatus W → NodeStatus W
  get_node_status a node_id indeterminate = elim (lookup node_id a.node_statuses) [
    | none ↦ record indeterminate { node_id = node_id }
    | some status ↦ status
  ]

  -- The commitment that `allocate_resources` makes on a node with this status.
  abbrev pub commitment_on :
      (Bytes → Bytes) → ComputeTask → String → NodeStatus W → ℕ → ℕ → ResourceCommitment
  commitment_on sha256 task node_id status ms count =
      let id = commitment_id_of sha256 node_id ms in
      let cores = min (task.required_compute_units / 1000) status.available_cpu_cores in
      let memory = min (task.required_compute_units / 10) status.available_memory_mb in
      record {
        commitment_id = id;
        node_id = node_id;
        cpu_cores_committed = cores;
        memory_mb_committed = memory;
        gpu_committed = status.gpu_available;
        duration_seconds = task.timeout_seconds;
        commitment_hash =
            sha256
              (append_lists (append_lists (bytes_of id) (le_bytes 8 cores)) (le_bytes 8 memory));
        expires_at = add64 count task.timeout_seconds;
      }

module _ {W : Type 0} ⦃d : Double W⦄ where
  -- What `node_statuses_[node_id]` makes of a node that is not there.
  abbrev pub no_status : NodeStatus W
  no_status = record {
    node_id = "";
    available_cpu_cores = 0;
    available_memory_mb = 0;
    gpu_available = false;
    active_tasks = 0;
    utilization_ratio = d.lit 0 1;
  }

  abbrev pub new_allocator : ComputeResourceAllocator W
  new_allocator = record {
    commitments = [];
    node_statuses =
        (
          "node_001",
          record {
            node_id = "node_001";
            available_cpu_cores = 8;
            available_memory_mb = 16_384;
            gpu_available = true;
            active_tasks = 0;
            utilization_ratio = d.lit 0 1;
          },
        )
        ∷ [];
  }

  abbrev pub utilization : ℕ → W
  utilization tasks = d.div (d.of_u64 tasks) (d.lit 8 1)

  -- The node after the resources of a commitment are taken, and after they are given back.
  abbrev pub taken : NodeStatus W → ResourceCommitment → NodeStatus W
  taken status c = record status {
    available_cpu_cores = sub64 status.available_cpu_cores c.cpu_cores_committed;
    available_memory_mb = sub64 status.available_memory_mb c.memory_mb_committed;
    active_tasks = add64 status.active_tasks 1;
    utilization_ratio = utilization (add64 status.active_tasks 1);
  }

  abbrev pub returned : NodeStatus W → ResourceCommitment → NodeStatus W
  returned status c = record status {
    available_cpu_cores = add64 status.available_cpu_cores c.cpu_cores_committed;
    available_memory_mb = add64 status.available_memory_mb c.memory_mb_committed;
    active_tasks = sub64 status.active_tasks 1;
    utilization_ratio = utilization (sub64 status.active_tasks 1);
  }

  unfoldable pub allocate_resources :
      (Bytes → Bytes)
      → ComputeResourceAllocator W
      → ComputeTask
      → String
      → ℕ
      → ℕ
      → ResourceCommitment × ComputeResourceAllocator W
  allocate_resources sha256 a task node_id ms count =
      if check_availability a task node_id
      then (let status = get_or no_status (lookup node_id a.node_statuses) in
          let c = commitment_on sha256 task node_id status ms count in
          (
            c,
            record {
              commitments = insert c.commitment_id c a.commitments;
              node_statuses = insert node_id (taken status c) a.node_statuses;
            },
          ))
      else (record new_commitment { commitment_id = "unavailable" }, a)

  unfoldable pub release_resources :
      ComputeResourceAllocator W → String → ComputeResourceAllocator W
  release_resources a commitment_id = elim (lookup commitment_id a.commitments) [
    | none ↦ a
    | some c ↦ record {
      commitments = erase commitment_id a.commitments;
      node_statuses =
          insert c.node_id (returned (get_or no_status (lookup c.node_id a.node_statuses)) c)
            a.node_statuses;
    }
  ]
