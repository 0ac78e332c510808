-- ===== src/ZkCompute/Allocator/Booked.antt =====
-- The resources of the node against the commitments in src/zk_compute.cpp.
use membra_l3_cpp.Base.{
  ℕ, ◌+◌, ◌%◌, ◌^◌, ◌≡◌, refl, sym, String, eq_iff, true, none, List, [], ◌∷◌, arith, inl, inr,
  Option-cases, Bool-cases,
}
use membra_l3_cpp.Base.Dict.{
  lookup, insert, total, total-insert_new, Entries, nil-Entries, insert-Entries,
}
use membra_l3_cpp.Base.Erase.{total-erase, Distinct, insert-Distinct, erase-Distinct, erase-Entries}
use mathlib.Core.Path.{subst}
use membra_l3_cpp.Base.Double.{Double}
use membra_l3_cpp.Merkle.{Bytes}
use membra_l3_cpp.ZkCompute.{ComputeTask}
use membra_l3_cpp.ZkCompute.Allocator.Returns.{
  allocated, allocate_resources-room, release_resources-found,
}
use membra_l3_cpp.ZkCompute.Allocator.{
  NodeStatus, ComputeResourceAllocator, has_room, check_availability, commitment_id_of,
  commitment_on, new_allocator, taken, returned, allocate_resources, release_resources,
}

-- The calls on the allocator, with the readings of the clock.
pub data Call : Type 0 where
  allocates : ComputeTask → String → ℕ → ℕ → Call
  releases : String → Call

module _ (W : Type 0) ⦃d : Double W⦄ (sha256 : Bytes → Bytes) where
  -- The one node that the allocator starts with, with what the commitments hold of it.
  pub record IsBooked (a : ComputeResourceAllocator W) : Type 0 where
    pub node : NodeStatus W
    pub nodes : a.node_statuses ≡ ("node_001", node) ∷ []
    pub cores : node.available_cpu_cores + total (λ c. c.cpu_cores_committed) a.commitments ≡ 8
    pub memory :
        node.available_memory_mb + total (λ c. c.memory_mb_committed) a.commitments ≡ 16_384
    pub tasks : node.active_tasks ≡ total (λ c. 1) a.commitments % 2 ^ 64
    pub distinct : Distinct a.commitments
    pub on_node : Entries (λ id c. c.node_id ≡ "node_001") a.commitments

  new_allocator-IsBooked : IsBooked new_allocator
  unfolding total
  new_allocator-IsBooked = record {
    node = _;
    nodes = refl;
    cores = refl;
    memory = refl;
    tasks = refl;
    distinct = tt;
    on_node = nil-Entries _;
  }

  known_node :
      (a : ComputeResourceAllocator W) (node : NodeStatus W) (task : ComputeTask) (node_id : String)
      → a.node_statuses ≡ ("node_001", node) ∷ []
      → check_availability a task node_id ≡ true
      → (node_id ≡ "node_001") × (has_room task node ≡ true)
  unfolding check_availability lookup
  known_node a node task node_id nodes room = ground (arith, eq_iff "node_001" node_id)

  allocated-IsBooked :
      (a : ComputeResourceAllocator W) (b : IsBooked a) (task : ComputeTask) (ms count : ℕ)
      → has_room task b.node ≡ true
      → lookup (commitment_id_of sha256 "node_001" ms) a.commitments ≡ none
      → IsBooked (allocated W sha256 a b.node task "node_001" ms count)
  unfolding insert
  allocated-IsBooked a b task ms count room fresh =
      let c = commitment_on sha256 task "node_001" b.node ms count in
      record {
        node = taken b.node c;
        nodes = rw b.nodes refl;
        cores = omega (
          arith,
          b.cores,
          total-insert_new (λ c. c.cpu_cores_committed) c.commitment_id c a.commitments fresh,
        );
        memory = omega (
          arith,
          b.memory,
          total-insert_new (λ c. c.memory_mb_committed) c.commitment_id c a.commitments fresh,
        );
        tasks =
            omega (arith, b.tasks, total-insert_new (λ c. 1) c.commitment_id c a.commitments fresh);
        distinct = insert-Distinct c.commitment_id c a.commitments b.distinct;
        on_node = insert-Entries _ c.commitment_id c a.commitments b.on_node refl;
      }

  allocate_resources-IsBooked :
      (a : ComputeResourceAllocator W) (task : ComputeTask) (node_id : String) (ms count : ℕ)
      → lookup (commitment_id_of sha256 node_id ms) a.commitments ≡ none
      → IsBooked a
      → IsBooked (allocate_resources sha256 a task node_id ms count).1
  unfolding allocate_resources
  allocate_resources-IsBooked a task node_id ms count fresh b =
      elim (Bool-cases (check_availability a task node_id)) [
        | inl room ↦
            let (same, fits) = known_node a b.node task node_id b.nodes room in
            subst (λ n. IsBooked (allocate_resources sha256 a task n ms count).1) (sym same)
              (rw
                (allocate_resources-room W sha256 a b.node task "node_001" ms count
                  (rw b.nodes (unfold lookup in refl)) fits)
                (allocated-IsBooked a b task ms count fits (rw same at fresh)))
        | inr full ↦ rw (allocate_resources, full) b
      ]

  release_resources-IsBooked :
      (a : ComputeResourceAllocator W) (id : String)
      → IsBooked a
      → IsBooked (release_resources a id)
  unfolding release_resources
  release_resources-IsBooked a id b = elim (Option-cases (lookup id a.commitments)) [
    | inl gone ↦ rw (release_resources, gone) b
    | inr (c, found) ↦
        let here = b.on_node id c found in
        rw
          (release_resources-found W sha256 a id c b.node found
            (rw (here, b.nodes) (unfold lookup in refl)))
          (record {
            node = returned b.node c;
            nodes = rw (here, b.nodes) (unfold insert in refl);
            cores =
                omega (
                  arith,
                  b.cores,
                  total-erase (λ c. c.cpu_cores_committed) id c a.commitments found,
                );
            memory = omega (
              arith,
              b.memory,
              total-erase (λ c. c.memory_mb_committed) id c a.commitments found,
            );
            tasks = omega (arith, b.tasks, total-erase (λ c. 1) id c a.commitments found);
            distinct = erase-Distinct id a.commitments b.distinct;
            on_node = erase-Entries _ id a.commitments b.distinct b.on_node;
          })
  ]

  unfoldable pub step : ComputeResourceAllocator W → Call → ComputeResourceAllocator W
  step a (allocates task node_id ms count) = (allocate_resources sha256 a task node_id ms count).1
  step a (releases id) = release_resources a id

  unfoldable pub run : ComputeResourceAllocator W → List Call → ComputeResourceAllocator W
  run a [] = a
  run a (c ∷ cs) = run (step a c) cs

  -- No allocation makes an id that a commitment still has.
  abbrev pub AreFresh : ComputeResourceAllocator W → List Call → Type 0
  AreFresh a [] = Unit
  AreFresh a (allocates task node_id ms count ∷ cs) =
      (lookup (commitment_id_of sha256 node_id ms) a.commitments ≡ none)
      × AreFresh (step a (allocates task node_id ms count)) cs
  AreFresh a (releases id ∷ cs) = AreFresh (step a (releases id)) cs

  run-IsBooked_from :
      (cs : List Call) (a : ComputeResourceAllocator W)
      → AreFresh a cs
      → IsBooked a
      → IsBooked (run a cs)
  unfolding run step
  run-IsBooked_from [] a fresh b = b
  run-IsBooked_from (allocates task node_id ms count ∷ cs) a fresh b =
      run-IsBooked_from cs (step a (allocates task node_id ms count)) fresh.1
        (allocate_resources-IsBooked a task node_id ms count fresh.0 b)
  run-IsBooked_from (releases id ∷ cs) a fresh b =
      run-IsBooked_from cs (step a (releases id)) fresh (release_resources-IsBooked a id b)

  -- From the start, after any allocations and releases in which no allocation takes over an id that is
  -- in use, the node's free cores and megabytes and those of the commitments add up to its 8 cores and
  -- 16384 megabytes, so that no more is ever given out than there is, and `active_tasks` counts the
  -- commitments, modulo 2 ^ 64.
  pub run-IsBooked : (cs : List Call) → AreFresh new_allocator cs → IsBooked (run new_allocator cs)
  run-IsBooked cs fresh = run-IsBooked_from cs new_allocator fresh new_allocator-IsBooked
