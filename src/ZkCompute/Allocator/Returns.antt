-- ===== src/ZkCompute/Allocator/Returns.antt =====
-- `release_resources` after `allocate_resources`, in src/zk_compute.cpp.
use membra_l3_cpp.Base.{ℕ, ◌+◌, ◌^◌, ◌<◌, ◌≡◌, refl, ◌∙◌, sym, String, true, some, arith}
use membra_l3_cpp.Base.Dict.{lookup, insert, lookup-insert_self}
use membra_l3_cpp.Base.Erase.{erase, erase-insert, insert-insert, insert_present}
use membra_l3_cpp.Base.Double.{Double}
use membra_l3_cpp.Merkle.{Bytes}
use membra_l3_cpp.ZkCompute.{ComputeTask, ResourceCommitment}
use membra_l3_cpp.ZkCompute.Allocator.{
  NodeStatus, ComputeResourceAllocator, has_room, check_availability, commitment_id_of,
  commitment_on, taken, returned, utilization, allocate_resources, release_resources,
}

module _ (W : Type 0) ⦃d : Double W⦄ (sha256 : Bytes → Bytes) where
  abbrev pub allocated :
      ComputeResourceAllocator W
      → NodeStatus W
      → ComputeTask
      → String
      → ℕ
      → ℕ
      → ComputeResourceAllocator W
  allocated a status task node_id ms count =
      let c = commitment_on sha256 task node_id status ms count in
      record {
        commitments = insert c.commitment_id c a.commitments;
        node_statuses = insert node_id (taken status c) a.node_statuses;
      }

  pub allocate_resources-room :
      (a : ComputeResourceAllocator W) (status : NodeStatus W) (task : ComputeTask)
      (node_id : String) (ms count : ℕ)
      → lookup node_id a.node_statuses ≡ some status
      → has_room task status ≡ true
      → allocate_resources sha256 a task node_id ms count ≡ (
        commitment_on sha256 task node_id status ms count,
        allocated a status task node_id ms count,
      )
  unfolding allocate_resources check_availability
  allocate_resources-room a status task node_id ms count found room =
      rw (found, check_availability, room) refl

  pub release_resources-found :
      (a : ComputeResourceAllocator W) (id : String) (c : ResourceCommitment)
      (status : NodeStatus W)
      → lookup id a.commitments ≡ some c
      → lookup c.node_id a.node_statuses ≡ some status
      → release_resources a id ≡ record {
        commitments = erase id a.commitments;
        node_statuses = insert c.node_id (returned status c) a.node_statuses;
      }
  unfolding release_resources
  release_resources-found a id c status found node = rw (release_resources, found, node) refl

  -- What a node's status always is: 64-bit numbers, and the ratio of its tasks.
  pub record IsStatus (status : NodeStatus W) : Type 0 where
    pub cores_fit : status.available_cpu_cores < 2 ^ 64
    pub memory_fits : status.available_memory_mb < 2 ^ 64
    pub tasks_fit : status.active_tasks + 1 < 2 ^ 64
    pub ratio_of_tasks : status.utilization_ratio ≡ utilization status.active_tasks

  same_status :
      (status : NodeStatus W) (cores memory tasks : ℕ)
      → cores ≡ status.available_cpu_cores
      → memory ≡ status.available_memory_mb
      → tasks ≡ status.active_tasks
      → utilization status.active_tasks ≡ status.utilization_ratio
      → record status {
        available_cpu_cores = cores;
        available_memory_mb = memory;
        active_tasks = tasks;
        utilization_ratio = utilization tasks;
      }
        ≡ status
  same_status status cores memory tasks ec em et er = rw (ec, em, et, er) refl

  returned-taken :
      (status : NodeStatus W) (task : ComputeTask) (node_id : String) (ms count : ℕ)
      → IsStatus status
      → returned
          (taken status (commitment_on sha256 task node_id status ms count))
          (commitment_on sha256 task node_id status ms count)
        ≡ status
  returned-taken status task node_id ms count s =
      same_status status _ _ _ (omega (arith, s.cores_fit)) (omega (arith, s.memory_fits))
        (omega (arith, s.tasks_fit)) (sym s.ratio_of_tasks)

  -- Releasing what was just allocated leaves the nodes as they were before, and no commitment under the
  -- id. So where the id was free the state is the former one; where an earlier commitment had it (the
  -- id is made of the node and the millisecond), that one is lost and its resources stay taken.
  pub release_resources-allocate_resources :
      (a : ComputeResourceAllocator W) (status : NodeStatus W) (task : ComputeTask)
      (node_id : String) (ms count : ℕ)
      → lookup node_id a.node_statuses ≡ some status
      → IsStatus status
      → has_room task status ≡ true
      → release_resources
          (allocate_resources sha256 a task node_id ms count).1
          (commitment_id_of sha256 node_id ms)
        ≡ record a { commitments = erase (commitment_id_of sha256 node_id ms) a.commitments }
  release_resources-allocate_resources a status task node_id ms count found s room =
      let id = commitment_id_of sha256 node_id ms in
      let c = commitment_on sha256 task node_id status ms count in
      rw (allocate_resources-room a status task node_id ms count found room) (
        release_resources-found (allocated a status task node_id ms count) id c (taken status c)
          (lookup-insert_self id c a.commitments)
          (lookup-insert_self node_id (taken status c) a.node_statuses)
        ∙ rw
            (
              returned-taken status task node_id ms count s,
              erase-insert id c a.commitments,
              insert-insert node_id status (taken status c) a.node_statuses,
              insert_present node_id status a.node_statuses found,
            )
            refl)
