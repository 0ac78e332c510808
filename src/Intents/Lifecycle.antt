-- ===== src/Intents/Lifecycle.antt =====
-- The status of an intent in include/intent_network.hpp.
use mathlib.Core.Path.{subst}
use membra_l3_cpp.Base.{
  ℕ, ◌≡◌, ◌≢◌, refl, inl, inr, String, true, ◌&&◌, some, none, arith, Option-cases, Bool-cases, [],
  ◌∷◌, eq_iff, str_eq, sym,
}
use membra_l3_cpp.Base.Dict.{
  Dict, lookup, insert, lookup-insert, lookup-insert_self, lookup-insert_ne,
}
use membra_l3_cpp.Base.Double.{Double}
use membra_l3_cpp.Intents.{
  IntentStatus, pending, claimed, expired, cancelled, PaymentIntent, IntentNetwork, is_pending,
  is_claimed, is_expired, is_claimable, claim_intent, confirm_settlement, create_intent, new_intent,
  expire_intents, expire_loop, expire, intent_id_of,
}

-- One call of an operation that changes the network.
pub data Call (W : Type 0) : Type 0 where
  create : String → String → String → ℕ → String → W → Call W
  claim_it : String → String → W → W → Call W
  confirm : String → String → Call W
  sweep : W → Call W

-- The edges of the status diagram.
pub data ◌⟶◌ : IntentStatus → IntentStatus → Type 0 where
  stay : (s : IntentStatus) → s ⟶ s
  claim : pending ⟶ claimed
  run_out : pending ⟶ expired

infix 40 ◌⟶◌
pending-is_pending : (s : IntentStatus) → is_pending s ≡ true → s ≡ pending
pending-is_pending pending h = refl
pending-is_pending claimed h = absurd (ground arith)
pending-is_pending expired h = absurd (ground arith)
pending-is_pending cancelled h = absurd (ground arith)

module _ {W : Type 0} ⦃d : Double W⦄ where
  lookup-expire_loop :
      (now : W) (id : String) (m : Dict (PaymentIntent W)) (i : PaymentIntent W)
      → lookup id m ≡ some i
      → lookup id (expire_loop now m) ≡ some (expire now i)
  unfolding lookup expire_loop
  lookup-expire_loop now id [] i h = absurd (ground arith)
  lookup-expire_loop now id ((k, j) ∷ m) i h = elim (Bool-cases (str_eq k id)) [
    | inl hit ↦ ground (arith)
    | inr miss ↦ ground (arith, lookup-expire_loop now id m i)
  ]

  pub lookup-expire_loop-none :
      (now : W) (id : String) (m : Dict (PaymentIntent W))
      → lookup id m ≡ none
      → lookup id (expire_loop now m) ≡ none
  unfolding lookup expire_loop
  lookup-expire_loop-none now id [] h = refl
  lookup-expire_loop-none now id ((k, j) ∷ m) h = ground (arith, lookup-expire_loop-none now id m)

  abbrev Claimed : IntentNetwork W → IntentNetwork W → String → PaymentIntent W → Type 0
  Claimed n n' id i = (i.status ≡ claimed) × (n' ≡ record n { intents = insert id i n.intents })

  claim_intent-Claimed :
      (n n' : IntentNetwork W) (id claimer : String) (t₁ t₂ : W) (i : PaymentIntent W)
      → claim_intent n id claimer t₁ t₂ ≡ (some i, n')
      → Claimed n n' id i
  unfolding claim_intent
  claim_intent-Claimed n n' id claimer t₁ t₂ i h = elim (Option-cases (lookup id n.intents)) [
    | inl gone ↦ absurd (ground arith)
    | inr (j, found) ↦ elim (Bool-cases (is_claimable j t₁)) [
      | inl ok ↦ ground arith
      | inr not_ok ↦ absurd (ground arith)
    ]
  ]

  -- A claimed intent is refused and stays.
  claim_intent-refused :
      (n : IntentNetwork W) (id other : String) (t₃ t₄ : W) (i : PaymentIntent W)
      → lookup id n.intents ≡ some i
      → i.status ≡ claimed
      → (claim_intent n id other t₃ t₄ ≡ (none, n))
        × (lookup id (expire_intents n t₃).intents ≡ some i)
  unfolding claim_intent is_claimable expire_intents
  claim_intent-refused n id other t₃ t₄ i found c =
      (rw (claim_intent, found, c) refl, ground (arith, lookup-expire_loop t₃ id n.intents i))

  -- An intent is claimed at most once, and then no longer expires: after a claim that succeeds each
  -- later claim is refused and changes nothing, whoever makes it, and `expire_intents` leaves the
  -- intent claimed.
  pub claim_intent-once :
      (n n' : IntentNetwork W) (id claimer other : String) (t₁ t₂ t₃ t₄ : W) (i : PaymentIntent W)
      → claim_intent n id claimer t₁ t₂ ≡ (some i, n')
      → (i.status ≡ claimed)
        × (lookup id n'.intents ≡ some i)
        × (claim_intent n' id other t₃ t₄ ≡ (none, n'))
        × (lookup id (expire_intents n' t₃).intents ≡ some i)
  claim_intent-once n n' id claimer other t₁ t₂ t₃ t₄ i h =
      let done = claim_intent-Claimed n n' id claimer t₁ t₂ i h in
      let found : lookup id n'.intents ≡ some i =
        ground (arith, lookup-insert_self id i n.intents) in
      let later = claim_intent-refused n' id other t₃ t₄ i found done.0 in
      (done.0, found, later.0, later.1)

  -- `expire_intents` leaves no overdue intent pending: an intent that is pending after it was in the
  -- network before it, the same, and runs out later.
  pub expire_intents-pending :
      (n : IntentNetwork W) (now : W) (id : String) (i : PaymentIntent W)
      → lookup id (expire_intents n now).intents ≡ some i
      → i.status ≡ pending
      → (lookup id n.intents ≡ some i) × (is_claimable i now ≡ true)
  unfolding expire_intents is_claimable is_expired
  expire_intents-pending n now id i h p = elim (Option-cases (lookup id n.intents)) [
    | inl gone ↦ absurd (ground (arith, lookup-expire_loop-none now id n.intents))
    | inr (j, found) ↦ let moved = lookup-expire_loop now id n.intents j found in ground arith
  ]

  abbrev pub step : IntentNetwork W → Call W → IntentNetwork W
  step n (create sender receiver token amount signature now) =
      (create_intent n sender receiver token amount signature now).1
  step n (claim_it id claimer t₁ t₂) = (claim_intent n id claimer t₁ t₂).1
  step n (confirm id tx) = (confirm_settlement n id tx).1
  step n (sweep now) = expire_intents n now

  -- The intent stays where it is or its status moves along the diagram; what its sender signed stays.
  abbrev pub Moves : PaymentIntent W → PaymentIntent W → Type 0
  Moves i j =
      (i.status ⟶ j.status)
      × (i.intent_id ≡ j.intent_id)
      × (i.sender_address ≡ j.sender_address)
      × (i.receiver_address ≡ j.receiver_address)
      × (i.token_symbol ≡ j.token_symbol)
      × (i.amount ≡ j.amount)
      × (i.expires_at ≡ j.expires_at)
      × (i.nonce ≡ j.nonce)

  same_entry :
      (m : Dict (PaymentIntent W)) (k id : String) (j i : PaymentIntent W)
      → str_eq k id ≡ true
      → lookup k m ≡ some j
      → lookup id m ≡ some i
      → j ≡ i
  same_entry m k id j i same found h = ground (arith, eq_iff k id)

  still : (i : PaymentIntent W) → Moves i i
  still i = (stay i.status, refl, refl, refl, refl, refl, refl, refl)

  claimable-Moves :
      (i : PaymentIntent W) (t₁ t₂ : W)
      → is_claimable i t₁ ≡ true
      → Moves i (record i { status = claimed; claimed_at = t₂ })
  unfolding is_claimable
  claimable-Moves i t₁ t₂ h = (
    subst (λ s. s ⟶ claimed) (sym (pending-is_pending i.status (ground arith))) claim,
    refl,
    refl,
    refl,
    refl,
    refl,
    refl,
    refl,
  )

  settled-Moves : (i : PaymentIntent W) (tx : String) → Moves i (record i { settlement_tx = tx })
  settled-Moves i tx = (stay i.status, refl, refl, refl, refl, refl, refl, refl)

  expire-Moves : (now : W) (i : PaymentIntent W) → Moves i (expire now i)
  expire-Moves now i = elim (Bool-cases (is_pending i.status && d.le i.expires_at now)) [
    | inl due ↦ rw due (
      subst (λ s. s ⟶ expired) (sym (pending-is_pending i.status (ground arith))) run_out,
      refl,
      refl,
      refl,
      refl,
      refl,
      refl,
      refl,
    )
    | inr not_due ↦ rw not_due (still i)
  ]

  -- Every call keeps every intent, but for one at the identifier that `create_intent` gives out next: the
  -- intent stays in the network, its status stays or moves from pending to claimed or to expired, and
  -- its identifier, parties, token, amount, expiry and nonce stay.
  pub step-Moves :
      (n : IntentNetwork W) (c : Call W) (id : String) (i : PaymentIntent W)
      → lookup id n.intents ≡ some i
      → id ≢ intent_id_of n
      → (j : PaymentIntent W) × (lookup id (step n c).intents ≡ some j) × Moves i j
  unfolding create_intent claim_intent confirm_settlement expire_intents is_claimable
  step-Moves n (create sender receiver token amount signature now) id i h ne =
      let new = new_intent n sender receiver token amount signature now in
      (i, ground (arith, lookup-insert_ne new.intent_id id new n.intents), still i)
  step-Moves n (claim_it k claimer t₁ t₂) id i h ne = elim (Option-cases (lookup k n.intents)) [
    | inl gone ↦ (i, rw (step, gone) h, still i)
    | inr (j, found) ↦ elim (Bool-cases (is_claimable j t₁)) [
      | inl ok ↦
          let new = record j { status = claimed; claimed_at = t₂ } in
          elim (Bool-cases (str_eq k id)) [
            | inl same ↦ (
              new,
              rw (step, found, ok) (ground (arith, lookup-insert k id new n.intents)),
              subst (λ x. Moves x new) (same_entry n.intents k id j i same found h)
                  (claimable-Moves j t₁ t₂ ok),
            )
            | inr other ↦ (
              i,
              rw (step, found, ok) (ground (arith, lookup-insert k id new n.intents)),
              still i,
            )
          ]
      | inr not_ok ↦ (i, rw (step, found, not_ok) h, still i)
    ]
  ]
  step-Moves n (confirm k tx) id i h ne = elim (Option-cases (lookup k n.intents)) [
    | inl gone ↦ (i, rw (step, gone) h, still i)
    | inr (j, found) ↦ elim (Bool-cases (is_claimed j.status)) [
      | inl ok ↦
          let new = record j { settlement_tx = tx } in
          elim (Bool-cases (str_eq k id)) [
            | inl same ↦ (
              new,
              rw (step, found, ok) (ground (arith, lookup-insert k id new n.intents)),
              subst (λ x. Moves x new) (same_entry n.intents k id j i same found h)
                  (settled-Moves j tx),
            )
            | inr other ↦ (
              i,
              rw (step, found, ok) (ground (arith, lookup-insert k id new n.intents)),
              still i,
            )
          ]
      | inr not_ok ↦ (i, rw (step, found, not_ok) h, still i)
    ]
  ]
  step-Moves n (sweep now) id i h ne =
      (expire now i, lookup-expire_loop now id n.intents i h, expire-Moves now i)
