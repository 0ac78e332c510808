-- ===== src/Intents/Tests.antt =====
-- The intent network, include/intent_network.hpp, at concrete inputs.
use membra_l3_cpp.Base.{ℕ, ◌≡◌, refl, some, none, List, [], ◌∷◌, arith, eq_iff}
use membra_l3_cpp.Base.Decimal.{to_string}
use membra_l3_cpp.Base.Dict.{lookup, insert}
use membra_l3_cpp.Base.Fixed.{fixed}
use membra_l3_cpp.Intents.{PaymentIntent, IntentNetwork, initial, create_intent}
use membra_l3_cpp.Intents.Lifecycle.{Call, create, claim_it, step, Moves, step-Moves}
use membra_l3_cpp.Intents.Ids.{run, create_intent-fresh}

abbrev calls : List (Call ℕ)
calls = create "alice" "bob" "SOL" 5 "sig" 10 ∷ claim_it "int_1" "bob" 20 20 ∷ []

create_intent-fresh_example :
    let n = run initial calls in
    let made = create_intent n "alice" "carol" "SOL" 7 "sig" 30 in
    (lookup made.0.intent_id n.intents ≡ none)
    × (lookup made.0.intent_id made.1.intents ≡ some made.0)
create_intent-fresh_example =
    create_intent-fresh calls "alice" "carol" "SOL" 7 "sig" 30 (omega arith)

-- The network with one intent.
abbrev network : IntentNetwork ℕ
network = (create_intent initial "alice" "bob" "SOL" 5 "sig" 10).1

abbrev intent : PaymentIntent ℕ
intent = (create_intent initial "alice" "bob" "SOL" 5 "sig" 10).0

step-Moves_example :
    (j : PaymentIntent ℕ) × (lookup "int_1" (step network (claim_it "int_1" "bob" 20 20)).intents
      ≡ some j)
    × Moves intent j
unfolding create_intent insert lookup to_string
step-Moves_example =
    step-Moves network (claim_it "int_1" "bob" 20 20) "int_1" intent refl
      (λ e. absurd (ground (arith, (eq_iff "int_1" "int_2").1 e)))
