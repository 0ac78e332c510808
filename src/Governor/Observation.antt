-- ===== src/Governor/Observation.antt =====
-- Observations of the mempool and the settings of `LLMMempoolGovernor`, src/llm_mempool_governor.cpp. `ms`
-- and `seconds` are one reading of the clock in two units. SHA-256 is OpenSSL's and stands as the
-- parameter `sha256`; `oracle_prices` is a `std::map`, taken in the order of its keys.
use Prim.Native.String.{◌++◌}
use Prim.Native.Char as Char
use Prim.Native.String.append
use mathlib.Core.List.{◌++◌ as append_lists, append_assoc}
use membra_l3_cpp.Base.{ℕ, ◌≡◌, refl, ap, ◌∙◌, String, false, List, [], ◌∷◌}
use membra_l3_cpp.Base.Bytes.{bytes_of, hash_to_hex, take}
use membra_l3_cpp.Base.Decimal.{to_string}
use membra_l3_cpp.Base.Dict.{Dict}
use membra_l3_cpp.Base.Double.{Double}
use membra_l3_cpp.Base.Ordered.{in_key_order}
use membra_l3_cpp.Merkle.{Bytes, zero_hash}
use membra_l3_cpp.Governor.{PendingTransaction, MempoolState, PolicyRule}

pub record LlmMempoolGovernor (W : Type 0) : Type 0 where
  pub policy_rules : List (PolicyRule W)
  pub risk_threshold : W
  pub confidence_threshold : W

pub record MempoolObservationProof : Type 0 where
  pub observation_id : String
  pub mempool_state_hash : Bytes
  pub transaction_hash : Bytes
  pub observation_timestamp : ℕ
  pub snapshot_timestamp : ℕ
  pub network : String
  pub observer_signature : String

module _ {W : Type 0} where
  unfoldable pub set_policy_rules :
      LlmMempoolGovernor W → List (PolicyRule W) → LlmMempoolGovernor W
  set_policy_rules g rules = record g { policy_rules = rules }

  unfoldable pub set_risk_threshold : LlmMempoolGovernor W → W → LlmMempoolGovernor W
  set_risk_threshold g threshold = record g { risk_threshold = threshold }

  unfoldable pub set_confidence_threshold : LlmMempoolGovernor W → W → LlmMempoolGovernor W
  set_confidence_threshold g threshold = record g { confidence_threshold = threshold }

-- The network of the first transaction.
abbrev pub first_network : List PendingTransaction → String
first_network [] = ""
first_network (tx ∷ rest) = tx.network

-- The loop over the pending transactions.
unfoldable pub hash_bytes : List PendingTransaction → Bytes
hash_bytes [] = []
hash_bytes (tx ∷ rest) = append_lists (bytes_of tx.transaction_hash) (hash_bytes rest)

unfoldable pub generate_observation_proof : (Bytes → Bytes) → MempoolObservationProof → Bytes
generate_observation_proof sha256 observation =
    sha256 (append_lists (bytes_of observation.observation_id) observation.mempool_state_hash)

bytes_of-append : (s t : String) → bytes_of (s ++ t) ≡ append_lists (bytes_of s) (bytes_of t)
unfolding bytes_of
bytes_of-append String.[] t = ap bytes_of (append.nil t)
bytes_of-append (String.◌∷◌ c s) t =
    ap bytes_of (append.cons c s t) ∙ ap (λ bs. Char.code c ∷ bs) (bytes_of-append s t)

module _ {W : Type 0} ⦃d : Double W⦄ where
  abbrev pub new_governor : LlmMempoolGovernor W
  new_governor = record {
    policy_rules =
        record {
          rule_id = "safety_first";
          condition = "risk_score < 70";
          action = "allow";
          priority = 100;
          requires_human_approval = false;
          max_risk_threshold = d.lit 7 10;
          min_confidence_threshold = d.lit 6 10;
        }
        ∷ [];
    risk_threshold = d.lit 7 10;
    confidence_threshold = d.lit 6 10;
  }

  -- The loop over the oracle prices.
  unfoldable pub price_bytes : Dict W → Bytes
  price_bytes [] = []
  price_bytes ((token, price) ∷ rest) = append_lists (bytes_of (d.shown price)) (price_bytes rest)

  module _ (sha256 : Bytes → Bytes) where
    unfoldable pub hash_mempool_state : MempoolState W → Bytes
    hash_mempool_state s = sha256 (
        append_lists (hash_bytes s.pending_transactions)
          (price_bytes (in_key_order s.oracle_prices)))

    unfoldable pub observe_mempool : MempoolState W → ℕ → ℕ → MempoolObservationProof
    observe_mempool s ms seconds =
        let id =
          hash_to_hex (take 16 (sha256 (bytes_of ("mempool_observation_" ++ to_string ms)))) in
        record {
          observation_id = id;
          mempool_state_hash = hash_mempool_state s;
          transaction_hash = zero_hash;
          observation_timestamp = seconds;
          snapshot_timestamp = s.snapshot_timestamp;
          network = first_network s.pending_transactions;
          observer_signature = "observer_signature_" ++ id;
        }

    -- An observation does not fix the mempool: two transactions and one transaction whose hash is theirs
    -- put together, everything else of it being free, give the same proof at the same time, if the first
    -- network is the same.
    pub observe_mempool-merge :
        (s : MempoolState W) (tx₁ tx₂ tx : PendingTransaction) (rest : List PendingTransaction)
        (ms seconds : ℕ)
        → tx.transaction_hash ≡ tx₁.transaction_hash ++ tx₂.transaction_hash
        → tx.network ≡ tx₁.network
        → observe_mempool (record s { pending_transactions = tx₁ ∷ tx₂ ∷ rest }) ms seconds
          ≡ observe_mempool (record s { pending_transactions = tx ∷ rest }) ms seconds
    unfolding observe_mempool hash_mempool_state hash_bytes
    observe_mempool-merge s tx₁ tx₂ tx rest ms seconds joined same =
        rw
          (
            joined,
            same,
            bytes_of-append tx₁.transaction_hash tx₂.transaction_hash,
            append_assoc (bytes_of tx₁.transaction_hash) (bytes_of tx₂.transaction_hash)
                (hash_bytes rest),
          )
          refl
