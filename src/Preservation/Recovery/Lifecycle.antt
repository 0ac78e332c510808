-- ===== src/Preservation/Recovery/Lifecycle.antt =====
-- Recovery requests of src/zero_balance_preservation.cpp from the request to its completion.
use membra_l3_cpp.Base.{
  ℕ, ◌*◌, ◌≡◌, refl, inl, inr, String, str_eq, eq_iff, true, false, Option, some, [], ◌∷◌, List,
  arith, length, Option-cases, Bool-cases,
}
use membra_l3_cpp.Base.Bytes.{bytes_of, hash_to_hex}
use membra_l3_cpp.Base.{◌++◌}
use membra_l3_cpp.Base.Decimal.{to_string}
use membra_l3_cpp.Base.Dict.{lookup, insert, lookup-insert, lookup-insert_self}
use membra_l3_cpp.Merkle.{Bytes}
use membra_l3_cpp.Preservation.Recovery.{
  RecoveryStatus, Requests, initiate_recovery, verify_recovery_request, validate_recovery_key,
  complete_recovery, generate_recovery_key, get_recovery_status,
}

length-hash_to_hex : (bs : List ℕ) → length (bytes_of (hash_to_hex bs)) ≡ 2 * length bs
unfolding hash_to_hex bytes_of
length-hash_to_hex [] = refl
length-hash_to_hex (b ∷ bs) = omega (arith, length-hash_to_hex bs)

-- The calls, with the readings of the clock.
pub data Call : Type 0 where
  initiates : String → String → ℕ → ℕ → ℕ → Call
  verifies : String → ℕ → Call
  completes : String → String → ℕ → Call

unfoldable pub step : Requests → Call → Requests
step rs (initiates record_id signature t₁ t₂ x) =
    (initiate_recovery rs record_id signature t₁ t₂ x).1
step rs (verifies id now) = (verify_recovery_request rs id now).1
step rs (completes id key now) = (complete_recovery rs id key now).1

-- What one call can do to the status of one request.
pub data Proceeds : Option RecoveryStatus → Option RecoveryStatus → Type 0 where
  stays : (o : Option RecoveryStatus) → Proceeds o o
  starts :
      (o : Option RecoveryStatus) (r : RecoveryStatus) → r.status ≡ "pending" → Proceeds o (some r)
  checks : (r r' : RecoveryStatus) → r'.status ≡ "verified" → Proceeds (some r) (some r')
  ends :
      (r r' : RecoveryStatus)
      → r.status ≡ "verified"
      → r'.status ≡ "completed"
      → Proceeds (some r) (some r')

write-Proceeds :
    (rs : Requests) (key id : String) (r : RecoveryStatus)
    → Proceeds (lookup key rs) (some r)
    → Proceeds (lookup id rs) (lookup id (insert key r rs))
write-Proceeds rs key id r h = elim (Bool-cases (str_eq key id)) [
  | inl hit ↦ let same = (eq_iff key id).0 hit in rw (← same, lookup-insert_self key r rs) h
  | inr miss ↦ rw (lookup-insert key id r rs, miss) (stays (lookup id rs))
]

-- Each call leaves a request as it is, starts it as pending, verifies one that exists in whatever
-- status it is, or completes one that is verified: nothing is completed that was not verified before.
pub step-Proceeds :
    (rs : Requests) (c : Call) (id : String) → Proceeds (lookup id rs) (lookup id (step rs c))
unfolding step initiate_recovery verify_recovery_request complete_recovery
step-Proceeds rs (initiates record_id signature t₁ t₂ x) id =
    write-Proceeds rs _ id _ (starts _ _ refl)
step-Proceeds rs (verifies key now) id = elim (Option-cases (lookup key rs)) [
  | inl gone ↦ rw (step, verify_recovery_request, gone) (stays _)
  | inr (r, found) ↦
      rw (step, verify_recovery_request, found)
        (write-Proceeds rs key id _ (rw found (checks r _ refl)))
]
step-Proceeds rs (completes key secret now) id = elim (Option-cases (lookup key rs)) [
  | inl gone ↦ rw (step, complete_recovery, gone) (stays _)
  | inr (r, found) ↦ elim (Bool-cases (str_eq r.status "verified")) [
    | inr other ↦ rw (step, complete_recovery, found, other) (stays _)
    | inl verified ↦ elim (Bool-cases (validate_recovery_key secret)) [
      | inr bad ↦ rw (step, complete_recovery, found, verified, bad) (stays _)
      | inl good ↦
          rw (step, complete_recovery, found, verified, good)
            (write-Proceeds rs key id _
              (rw found (ends r _ ((eq_iff r.status "verified").0 verified) refl)))
    ]
  ]
]

-- The key that `generate_recovery_key` makes is one that `validate_recovery_key` accepts.
generate_recovery_key-validate :
    (sha256 : Bytes → Bytes) (wallet : String) (ms : ℕ)
    → ((x : Bytes) → length (sha256 x) ≡ 32)
    → validate_recovery_key (generate_recovery_key sha256 wallet ms) ≡ true
unfolding validate_recovery_key generate_recovery_key
generate_recovery_key-validate sha256 wallet ms len = ground (
  arith,
  length-hash_to_hex (sha256 (bytes_of wallet ++ bytes_of (to_string ms))),
  len (bytes_of wallet ++ bytes_of (to_string ms)),
)

initiate-found :
    (rs : Requests) (record_id signature : String) (t₁ t₂ x : ℕ)
    → let (id, rs') = initiate_recovery rs record_id signature t₁ t₂ x in
      (r : RecoveryStatus) × (lookup id rs' ≡ some r) × (r.record_id ≡ record_id)
unfolding initiate_recovery
initiate-found rs record_id signature t₁ t₂ x = (_, lookup-insert_self _ _ rs, refl)

verify_recovery_request-found :
    (rs : Requests) (id : String) (now : ℕ) (r : RecoveryStatus)
    → lookup id rs ≡ some r
    → verify_recovery_request rs id now
      ≡ (true, insert id (record r { status = "verified"; completed_at = now }) rs)
unfolding verify_recovery_request
verify_recovery_request-found rs id now r found = rw (verify_recovery_request, found) refl

complete_recovery-found :
    (rs : Requests) (id key : String) (now : ℕ) (r : RecoveryStatus)
    → lookup id rs ≡ some r
    → r.status ≡ "verified"
    → validate_recovery_key key ≡ true
    → complete_recovery rs id key now
      ≡ (true, insert id (record r { status = "completed"; completed_at = now }) rs)
unfolding complete_recovery
complete_recovery-found rs id key now r found verified good =
    rw (complete_recovery, found, verified, good) refl

-- A recovery that is asked for can always be brought to its end: a request that is initiated, then
-- verified, and then completed with the key that `generate_recovery_key` makes for any wallet is
-- answered true at each step, and its status is then completed, if a hash has 32 bytes.
pub initiate_recovery-completes :
    (sha256 : Bytes → Bytes) (rs : Requests) (record_id signature wallet : String)
    (t₁ t₂ x ms t₃ t₄ a b : ℕ)
    → ((y : Bytes) → length (sha256 y) ≡ 32)
    → let (id, rs₁) = initiate_recovery rs record_id signature t₁ t₂ x in
      let (verified, rs₂) = verify_recovery_request rs₁ id t₃ in
      let (completed, rs₃) = complete_recovery rs₂ id (generate_recovery_key sha256 wallet ms) t₄ in
      (verified ≡ true)
      × (completed ≡ true)
      × ((get_recovery_status rs₃ id a b).status ≡ "completed")
      × ((get_recovery_status rs₃ id a b).record_id ≡ record_id)
unfolding get_recovery_status
initiate_recovery-completes sha256 rs record_id signature wallet t₁ t₂ x ms t₃ t₄ a b len =
    let id = (initiate_recovery rs record_id signature t₁ t₂ x).0 in
    let rs₁ = (initiate_recovery rs record_id signature t₁ t₂ x).1 in
    let (r, found, same) = initiate-found rs record_id signature t₁ t₂ x in
    let r₂ = record r { status = "verified"; completed_at = t₃ } in
    let r₃ = record r₂ { status = "completed"; completed_at = t₄ } in
    rw
      (
        verify_recovery_request-found rs₁ id t₃ r found,
        complete_recovery-found (insert id r₂ rs₁) id (generate_recovery_key sha256 wallet ms) t₄ r₂
            (lookup-insert_self id r₂ rs₁) refl
            (generate_recovery_key-validate sha256 wallet ms len),
        get_recovery_status,
        lookup-insert_self id r₃ (insert id r₂ rs₁),
      )
      (refl, refl, refl, same)

-- Verifying a completed recovery opens it again: `verify_recovery_request` and `complete_recovery`
-- succeed once more, with any key of 64 characters.
pub complete_recovery-again :
    (rs : Requests) (id key : String) (t₁ t₂ : ℕ) (r : RecoveryStatus)
    → lookup id rs ≡ some r
    → r.status ≡ "completed"
    → validate_recovery_key key ≡ true
    → ((complete_recovery rs id key t₁).0 ≡ false)
      × ((verify_recovery_request rs id t₁).0 ≡ true)
      × ((complete_recovery (verify_recovery_request rs id t₁).1 id key t₂).0 ≡ true)
unfolding complete_recovery
complete_recovery-again rs id key t₁ t₂ r found completed good =
    let r₂ = record r { status = "verified"; completed_at = t₁ } in
    (
      rw (complete_recovery, found, completed) refl,
      rw (verify_recovery_request-found rs id t₁ r found) refl,
      rw
          (
            verify_recovery_request-found rs id t₁ r found,
            complete_recovery-found (insert id r₂ rs) id key t₂ r₂ (lookup-insert_self id r₂ rs)
                refl good,
          )
          refl,
    )
