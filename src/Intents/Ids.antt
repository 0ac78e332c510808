-- ===== src/Intents/Ids.antt =====
-- Identifiers and nonces of include/intent_network.hpp.
use mathlib.Core.Path.{subst}
use membra_l3_cpp.Base.{
  ℕ, ◌+◌, ◌^◌, ◌≤◌, ◌<◌, ◌≡◌, refl, sym, inl, inr, String, str_eq, eq_iff, some, none, arith,
  Option-cases, Bool-cases, if◌then◌else◌, List, [], ◌∷◌, length,
}
use membra_l3_cpp.Base.Dict.{Dict, lookup, insert, lookup-insert, lookup-insert_self}
use membra_l3_cpp.Base.Double.{Double}
use membra_l3_cpp.Base.Word.{add64, add64-eq_of_lt}
use membra_l3_cpp.Base.Fresh.{Issued, nil-Issued, insert-Issued, update-Issued, Issued-fresh}
use membra_l3_cpp.Intents.{
  claimed, PaymentIntent, IntentNetwork, initial, is_claimed, is_claimable, claim_intent,
  confirm_settlement, create_intent, new_intent, expire_intents, expire_loop, intent_id_of,
  next_nonce,
}
use membra_l3_cpp.Intents.Lifecycle.{
  Call, create, claim_it, confirm, sweep, step, lookup-expire_loop-none,
}

module _ {W : Type 0} ⦃d : Double W⦄ where
  abbrev pub run : IntentNetwork W → List (Call W) → IntentNetwork W
  run n [] = n
  run n (c ∷ cs) = run (step n c) cs

  -- The counter is below `bound`, and the identifiers in use were given out by it.
  abbrev IsIssued : ℕ → IntentNetwork W → Type 0
  IsIssued bound n = (n.intent_counter ≤ bound) × Issued "int_" n.intent_counter n.intents

  expire_loop-Issued :
      (now : W) (k : ℕ) (m : Dict (PaymentIntent W))
      → Issued "int_" k m
      → Issued "int_" k (expire_loop now m)
  expire_loop-Issued now k m issued id v h = elim (Option-cases (lookup id m)) [
    | inl gone ↦ absurd (ground (arith, lookup-expire_loop-none now id m))
    | inr (w, found) ↦ issued id w found
  ]

  later : (bound : ℕ) (n : IntentNetwork W) → IsIssued bound n → IsIssued (bound + 1) n
  later bound n (le, issued) = (omega arith, issued)

  step-IsIssued :
      (bound : ℕ) (n : IntentNetwork W) (c : Call W)
      → bound + 1 < 2 ^ 64
      → IsIssued bound n
      → IsIssued (bound + 1) (step n c)
  unfolding create_intent claim_intent confirm_settlement expire_intents
  step-IsIssued bound n (create sender receiver token amount signature now) room (le, issued) =
      let new = new_intent n sender receiver token amount signature now in
      subst (λ k. (k ≤ bound + 1) × Issued "int_" k (insert (intent_id_of n) new n.intents))
        (sym (add64-eq_of_lt n.intent_counter 1 (omega arith)))
        (omega arith, insert-Issued "int_" n.intent_counter new n.intents issued)
  step-IsIssued bound n (claim_it id claimer t₁ t₂) room held =
      elim (Option-cases (lookup id n.intents)) [
        | inl gone ↦ rw (step, gone) (later bound n held)
        | inr (i, found) ↦ elim (Bool-cases (is_claimable i t₁)) [
          | inl ok ↦
              let new = record i { status = claimed; claimed_at = t₂ } in
              rw (step, found, ok)
                (
                  omega (arith, held.0),
                  update-Issued "int_" n.intent_counter id new i n.intents held.1 found,
                )
          | inr refused ↦ rw (step, found, refused) (later bound n held)
        ]
      ]
  step-IsIssued bound n (confirm id tx) room held = elim (Option-cases (lookup id n.intents)) [
    | inl gone ↦ rw (step, gone) (later bound n held)
    | inr (i, found) ↦ elim (Bool-cases (is_claimed i.status)) [
      | inl ok ↦
          let new = record i { settlement_tx = tx } in
          rw (step, found, ok)
            (
              omega (arith, held.0),
              update-Issued "int_" n.intent_counter id new i n.intents held.1 found,
            )
      | inr refused ↦ rw (step, found, refused) (later bound n held)
    ]
  ]
  step-IsIssued bound n (sweep now) room (le, issued) =
      (omega arith, expire_loop-Issued now n.intent_counter n.intents issued)

  run-IsIssued :
      (bound : ℕ) (n : IntentNetwork W) (cs : List (Call W))
      → bound + length cs < 2 ^ 64
      → IsIssued bound n
      → IsIssued (bound + length cs) (run n cs)
  run-IsIssued bound n [] room issued = (omega (arith, issued.0), issued.1)
  run-IsIssued bound n (c ∷ cs) room issued =
      let rest =
        run-IsIssued (bound + 1) (step n c) cs (omega arith)
          (step-IsIssued bound n c (omega arith) issued) in
      (omega (arith, rest.0), rest.1)

  -- Identifiers are fresh: after fewer than 2 ^ 64 - 1 calls of a new network, `create_intent` gives an
  -- identifier that no intent has, and enters the intent it gives back under it.
  pub create_intent-fresh :
      (cs : List (Call W)) (sender receiver token : String) (amount : ℕ) (signature : String)
      (now : W)
      → 1 + length cs < 2 ^ 64
      → let n = run initial cs in
        let made = create_intent n sender receiver token amount signature now in
        (lookup made.0.intent_id n.intents ≡ none)
        × (lookup made.0.intent_id made.1.intents ≡ some made.0)
  unfolding create_intent
  create_intent-fresh cs sender receiver token amount signature now room =
      let n = run initial cs in
      let held = run-IsIssued 1 initial cs room (omega arith, nil-Issued "int_" 1) in
      let made = new_intent n sender receiver token amount signature now in
      (
        Issued-fresh "int_" n.intent_counter n.intents held.1,
        lookup-insert_self (intent_id_of n) made n.intents,
      )

  -- A sender's intents carry the numbers 0, 1, 2, … as nonces, modulo 2 ^ 64: the nonce of an intent is
  -- the one that `next_nonce` gave, and one more is given next; no other sender's
  -- nonce moves.
  pub create_intent-next_nonce :
      (n : IntentNetwork W) (other sender receiver token : String) (amount : ℕ) (signature : String)
      (now : W)
      → ((create_intent n sender receiver token amount signature now).0.nonce ≡ next_nonce n sender)
        × (next_nonce (create_intent n sender receiver token amount signature now).1 other
            ≡ (if str_eq sender other then add64 (next_nonce n sender) 1 else next_nonce n other))
  unfolding create_intent
  create_intent-next_nonce n other sender receiver token amount signature now = (
    refl,
    ground (
      arith,
      lookup-insert sender other (add64 (next_nonce n sender) 1) n.user_nonces,
      eq_iff sender other,
    ),
  )
