-- ===== src/Intents.antt =====
-- `IntentNetwork` of include/intent_network.hpp, over any type `W` of doubles. Each reading of the
-- clock is an argument, in the order of the readings. `intents_` is an association list; a pointer to
-- an intent is returned as the intent.
pub mod Ids
pub mod Lifecycle
mod Tests
use Prim.Native.String.{◌++◌}
use membra_l3_cpp.Base.{
  ℕ, ◌+◌, String, Bool, true, false, not, ◌&&◌, Option, none, some, [], ◌∷◌, if◌then◌else◌,
}
use membra_l3_cpp.Base.Decimal.{to_string}
use membra_l3_cpp.Base.Dict.{Dict, lookup, insert, get_or}
use membra_l3_cpp.Base.Double.{Double}
use membra_l3_cpp.Base.Word.{add64}

pub data IntentStatus : Type 0 where
  pending claimed expired cancelled : IntentStatus

pub record PaymentIntent (W : Type 0) : Type 0 where
  pub intent_id : String
  pub sender_address : String
  pub receiver_address : String
  pub token_symbol : String
  pub amount : ℕ
  pub created_at : W
  pub expires_at : W
  pub nonce : ℕ
  pub sender_signature : String
  pub status : IntentStatus
  pub claimed_at : W
  pub settlement_tx : String

pub record IntentNetwork (W : Type 0) : Type 0 where
  pub intents : Dict (PaymentIntent W)
  pub user_nonces : Dict ℕ
  pub intent_counter : ℕ

abbrev pub initial : {W : Type 0} → IntentNetwork W
initial = record { intents = []; user_nonces = []; intent_counter = 1 }

abbrev pub is_pending : IntentStatus → Bool
is_pending pending = true
is_pending _ = false

abbrev pub is_claimed : IntentStatus → Bool
is_claimed claimed = true
is_claimed _ = false

module _ {W : Type 0} where
  abbrev pub next_nonce : IntentNetwork W → String → ℕ
  next_nonce n sender = get_or 0 (lookup sender n.user_nonces)

  unfoldable pub confirm_settlement : IntentNetwork W → String → String → Bool × IntentNetwork W
  confirm_settlement n id tx = elim (lookup id n.intents) [
    | none ↦ (false, n)
    | some i ↦
        if is_claimed i.status
        then (true, record n { intents = insert id (record i { settlement_tx = tx }) n.intents })
        else (false, n)
  ]

  unfoldable pub get_intent : IntentNetwork W → String → Option (PaymentIntent W)
  get_intent n id = lookup id n.intents

  unfoldable pub count_pending : Dict (PaymentIntent W) → ℕ
  count_pending [] = 0
  count_pending ((id, i) ∷ rest) = (if is_pending i.status then 1 else 0) + count_pending rest

  unfoldable pub pending_count : IntentNetwork W → ℕ
  pending_count n = count_pending n.intents

  abbrev pub intent_id_of : IntentNetwork W → String
  intent_id_of n = "int_" ++ to_string n.intent_counter

module _ {W : Type 0} ⦃d : Double W⦄ where
  unfoldable pub is_expired : PaymentIntent W → W → Bool
  is_expired i now = d.le i.expires_at now

  unfoldable pub is_claimable : PaymentIntent W → W → Bool
  is_claimable i now = is_pending i.status && not (is_expired i now)

  -- `intent_hash`, with the SHA-256 of OpenSSL in hexadecimal as the parameter `sha256_hex`.
  unfoldable pub intent_hash : (String → String) → PaymentIntent W → String
  intent_hash sha256_hex i = sha256_hex (
      i.intent_id
      ++ (i.sender_address
          ++ (i.receiver_address
              ++ (i.token_symbol
                  ++ (to_string i.amount
                      ++ (d.shown i.created_at ++ (d.shown i.expires_at ++ to_string i.nonce)))))))

  -- The intent that `create_intent` enters.
  abbrev pub new_intent :
      IntentNetwork W → String → String → String → ℕ → String → W → PaymentIntent W
  new_intent n sender receiver token amount signature now = record {
    intent_id = intent_id_of n;
    sender_address = sender;
    receiver_address = receiver;
    token_symbol = token;
    amount = amount;
    created_at = now;
    expires_at = d.add now (d.lit 604_800 1);
    nonce = next_nonce n sender;
    sender_signature = signature;
    status = pending;
    claimed_at = d.lit 0 1;
    settlement_tx = "";
  }

  unfoldable pub create_intent :
      IntentNetwork W
      → String
      → String
      → String
      → ℕ
      → String
      → W
      → PaymentIntent W × IntentNetwork W
  create_intent n sender receiver token amount signature now =
      let i = new_intent n sender receiver token amount signature now in
      (
        i,
        record {
          intents = insert i.intent_id i n.intents;
          user_nonces = insert sender (add64 (next_nonce n sender) 1) n.user_nonces;
          intent_counter = add64 n.intent_counter 1;
        },
      )

  -- `t₁` is read by `is_claimable`, `t₂` for `claimed_at`. The claimer's name is not used.
  unfoldable pub claim_intent :
      IntentNetwork W → String → String → W → W → Option (PaymentIntent W) × IntentNetwork W
  claim_intent n id claimer t₁ t₂ = elim (lookup id n.intents) [
    | none ↦ (none, n)
    | some i ↦
        if is_claimable i t₁
        then (
          some (record i { status = claimed; claimed_at = t₂ }),
          record n {
            intents = insert id (record i { status = claimed; claimed_at = t₂ }) n.intents;
          },
        )
        else (none, n)
  ]

  abbrev pub expire : W → PaymentIntent W → PaymentIntent W
  expire now i =
      if is_pending i.status && d.le i.expires_at now then record i { status = expired } else i

  unfoldable pub expire_loop : W → Dict (PaymentIntent W) → Dict (PaymentIntent W)
  expire_loop now [] = []
  expire_loop now ((id, i) ∷ rest) = (id, expire now i) ∷ expire_loop now rest

  unfoldable pub expire_intents : IntentNetwork W → W → IntentNetwork W
  expire_intents n now = record n { intents = expire_loop now n.intents }
