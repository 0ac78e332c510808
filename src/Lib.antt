-- ===== src/Lib.antt =====
-- Verification of the MEMBRA L3 protocol in C++: compute-backed gas, rewards, intents and provenance.
--
-- The program is a set of in-memory components. Workers stake compute (ComputeStaking) and get gas
-- credit; GasVault charges a user's gas to the user's stakes and else to its reserves; RewardVault
-- keeps a funded pool that workers claim from; ReceiverPaidGas records receipts of gas and what can be
-- given back for them; GasReimbursementManager takes requests for reimbursement through pending,
-- pending_approval, approved and rejected, with GasEstimator for prices and GasPoolManager for the
-- funds; IntentNetwork holds payment intents that receivers claim; ProofBook is a hash chain of proofs;
-- MerkleTreeBuilder and ProvenanceAttestationBuilder make and check inclusion proofs and attestations;
-- ComputeFuturesMarket trades futures on compute at the prices of ComputePriceOracle; LLMMempoolGovernor
-- recommends an action for the mempool, which OvermanifoldPolicy lets through. ZKComputeManager keeps
-- proofs of compute and puts the verified ones into a Merkle tree, ComputeResourceAllocator lends out the
-- cores and the memory of a node, RewardDistributor credits wallets, and ZKGasReimbursement asks a manager
-- of its own whether a proof is verified. WalletPreservationManager archives, freezes and restores wallets
-- through WalletPreservationMonitor, WalletRecoveryService takes a recovery from pending through verified
-- to completed, PreservationGovernance records decisions. IPFSVerifier uploads artifacts,
-- ArtifactAnalyzer tells their types and hashes, ProvenanceAttestationBuilder of src/ipfs_verifier.cpp
-- attests to them and ArtifactRegistry keeps the attestations; ProofOfInference issues receipts of
-- inference, verifies them and pays for them; VolatilityOracle signals changes of the price;
-- ComputeBenchmark reports what a machine can do. MempoolRouter and MempoolGovernorAPI turn what the
-- governor finds into text.
--
-- The files, and the code that each is about:
--   Base             names and lemmas that all share: tests and the conditional (Tests), lists (Lists),
--                    string-keyed maps (Dict), 64-bit words (Word), the interface to `double` (Double),
--                    a carrier for it (Fixed), `std::to_string` (Decimal), counted identifiers (Fresh),
--                    texts as bytes and `hash_to_hex` (Bytes), the order of a loop over a `std::map`
--                    (Ordered), `erase` (Erase), what a loop with a test picks out (Selects)
--   Merkle           include/merkle_provenance.hpp, src/merkle_provenance.cpp: MerkleNode, MerkleProof,
--                    MerkleTreeBuilder; Merkle/Attestation: TokenAppraisal, MarketCapCalculator,
--                    ProvenanceAttestationBuilder. Lemmas: Levels, Climb, Complete, Binding,
--                    Folds, Promoted
--   Reimbursement    include/gas_reimbursement.hpp, src/gas_reimbursement.cpp: the records; Estimator:
--                    GasEstimator; Manager: GasReimbursementManager; Pool: GasPoolManager;
--                    ZkBacked: ZKGasReimbursement, with the lemmas of Unpaid
--   RewardVault      include/reward_vault.hpp. Lemmas: Locking, Accounts
--   Staking          include/compute_staking.hpp. Lemmas: Consume, Charge, Totals
--   GasVault         include/gas_vault.hpp with the staking system. Lemmas: Accounts, Limits
--   Intents          include/intent_network.hpp. Lemmas: Lifecycle, Ids
--   ProofBook        include/proof_book.hpp. Lemmas: Chain, Entries
--   ReceiverPaidGas  include/receiver_paid_gas.hpp. Lemmas: Receipts, Compensation
--   Prices           include/compute_futures.hpp: ComputePriceOracle. Lemmas: Ring
--   Futures          include/compute_futures.hpp: ComputeFuturesMarket. Lemmas: Lifecycle,
--                    Ids, Histories
--   Governor         include/llm_mempool_governor.hpp, src/llm_mempool_governor.cpp: Analysis:
--                    LLMMempoolGovernor; Observation: its state, setters and observations; Policy:
--                    OvermanifoldPolicy, with the lemmas of Execution; Router: MempoolRouter; Api:
--                    MempoolGovernorAPI
--   ZkCompute        include/zk_compute.hpp, src/zk_compute.cpp: the records and ZKProver; Manager:
--                    ZKComputeManager (lemmas: Verification, Statuses, Roots); Allocator:
--                    ComputeResourceAllocator (Returns, Booked); Distributor: RewardDistributor (Ledger)
--   Preservation     include/zero_balance_preservation.hpp, src/zero_balance_preservation.cpp: the
--                    records and WalletPreservationMonitor (lemmas: Watching); Manager:
--                    WalletPreservationManager (Freezing, Records); Recovery: WalletRecoveryService
--                    (Lifecycle); Governance: PreservationGovernance (Decisions)
--   Artifacts        include/ipfs_verifier.hpp, src/ipfs_verifier.cpp: the records and IPFSVerifier;
--                    Analyzer: ArtifactAnalyzer (lemmas: Sampling); Attesting:
--                    ProvenanceAttestationBuilder; Registry: ArtifactRegistry (Uniqueness, Listing)
--   Inference        include/proof_of_inference.hpp. Lemmas: Receipts, Claiming
--   Volatility       include/volatility_oracle.hpp. Lemmas: Rotation, Measure,
--                    Queue
--   Benchmark        include/compute_benchmark.hpp. Lemmas: Runs
-- Most components have a module Tests, which runs its theorems at concrete inputs.
--
-- How the code is rendered. A component's fields are a record, and each method is a function from that
-- record to its answer and the new record, under the method's name. Numbers are natural numbers; each
-- operation on `uint64_t` keeps its wrap-around (`add64`, `sub64`, `mul64`), and so do the narrower and
-- the 128-bit types. A map is an association list, whose order is the order in which a loop meets the
-- entries; where a `std::map` makes the order matter the loop takes the entries in the order of their
-- keys (Base/Ordered). Each reading of the clock, each call of `rand` and the contents of a field that is left
-- uninitialised are arguments. SHA-256 is OpenSSL's and is a parameter everywhere; where its length or
-- its collisions matter the theorem says so. `double` is any type with the operations of Base/Double,
-- of which nothing is assumed. A mutex is shown where it decides the outcome, in RewardVault, as a flag
-- that a thread finds set; elsewhere each method holds it from start to end and is one step.
--
-- Bounds and fuel. Loops over lists are structural. The two loops of the tree builder that halve a level
-- run on fuel, one more than the number of leaves, which each round makes shorter; `to_string` runs on
-- one more than its number, which each digit makes smaller.
--
-- Not modelled: the wrappers of OpenSSL in include/crypto.hpp and src/crypto.cpp, which SHA-256 as a
-- parameter stands for; ArtifactRegistry's load_state and save_state and IPFSVerifier's http_post, which
-- do nothing; the factories that put the components of a stack together; src/main.cpp, which prints a
-- demonstration run; build, which is generated.
pub mod Base
pub mod Merkle
pub mod Reimbursement
pub mod RewardVault
pub mod Staking
pub mod ZkCompute
pub mod Preservation
pub mod Artifacts
pub mod Benchmark
pub mod Inference
pub mod Volatility
pub mod GasVault
pub mod Intents
pub mod ProofBook
pub mod ReceiverPaidGas
pub mod Governor
pub mod Prices
pub mod Futures
