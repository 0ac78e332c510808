-- ===== src/Artifacts/Registry/Uniqueness.antt =====
-- Duplicates in `ArtifactRegistry` of src/ipfs_verifier.cpp.
use Prim.Native.String as String
use membra_l3_cpp.Base.{
  ◌≡◌, refl, ◌⊎◌, inl, inr, String, true, false, none, some, List, [], ◌∷◌, Option-cases,
  Bool-cases, str_eq,
}
use membra_l3_cpp.Base.Bytes.{hash_to_hex}
use membra_l3_cpp.Base.Dict.{
  lookup, insert, lookup-insert, lookup-insert_self, Entries, insert-Entries, nil-Entries,
}
use membra_l3_cpp.Merkle.{Bytes}
use membra_l3_cpp.Artifacts.{ArtifactAttestation, Outcome, returned, thrown}
use membra_l3_cpp.Artifacts.Analyzer.{generate_perceptual_hash}
use membra_l3_cpp.Artifacts.Registry.{
  ArtifactRegistry, new_registry, submit_to_oracle, register_artifact, get_attestation,
  verify_artifact_uniqueness,
}

-- The registry and the caller's attestation after a registration.
abbrev entered : ArtifactRegistry → ArtifactAttestation → ArtifactRegistry
entered reg a = record {
  attestations = insert a.attestation_id a reg.attestations;
  perceptual_hashes = insert (hash_to_hex a.perceptual_hash) a.attestation_id reg.perceptual_hashes;
}

abbrev signed : ArtifactAttestation → ArtifactAttestation
signed a = submit_to_oracle (record a { verification_status = "verified" })

register_artifact-new :
    (reg : ArtifactRegistry) (a : ArtifactAttestation)
    → lookup (hash_to_hex a.perceptual_hash) reg.perceptual_hashes ≡ none
    → register_artifact reg a ≡ returned (a.attestation_id, signed a, entered reg a)
unfolding register_artifact
register_artifact-new reg a free = rw (register_artifact, free) refl

register_artifact-duplicate :
    (reg : ArtifactRegistry) (a : ArtifactAttestation) (id : String)
    → lookup (hash_to_hex a.perceptual_hash) reg.perceptual_hashes ≡ some id
    → register_artifact reg a ≡ thrown "Duplicate artifact detected"
unfolding register_artifact
register_artifact-duplicate reg a id taken = rw (register_artifact, taken) refl

-- A history of registrations, of which those that throw change nothing.
abbrev after :
    ArtifactRegistry → Outcome (String × ArtifactAttestation × ArtifactRegistry) → ArtifactRegistry
after reg (returned (id, a, reg')) = reg'
after reg (thrown message) = reg

unfoldable pub run : ArtifactRegistry → List ArtifactAttestation → ArtifactRegistry
run reg [] = reg
run reg (a ∷ rest) = run (after reg (register_artifact reg a)) rest

-- A perceptual hash that is taken stays taken.
abbrev Taken : ArtifactRegistry → String → Type 0
Taken reg hash = (id : String) × (lookup hash reg.perceptual_hashes ≡ some id)

insert-Taken :
    (reg : ArtifactRegistry) (b : ArtifactAttestation) (hash : String)
    → Taken reg hash
    → Taken (entered reg b) hash
insert-Taken reg b hash (id, taken) =
    let key = hash_to_hex b.perceptual_hash in
    let placed = lookup-insert key hash b.attestation_id reg.perceptual_hashes in
    elim (Bool-cases (str_eq key hash)) [
      | inl hit ↦ (b.attestation_id, rw (placed, hit) refl)
      | inr miss ↦ (id, rw (placed, miss) taken)
    ]

after-Taken :
    (reg : ArtifactRegistry) (b : ArtifactAttestation) (hash : String)
    → Taken reg hash
    → Taken (after reg (register_artifact reg b)) hash
after-Taken reg b hash taken =
    elim (Option-cases (lookup (hash_to_hex b.perceptual_hash) reg.perceptual_hashes)) [
      | inl free ↦ rw (register_artifact-new reg b free) (insert-Taken reg b hash taken)
      | inr (other, found) ↦ rw (register_artifact-duplicate reg b other found) taken
    ]

run-Taken :
    (reg : ArtifactRegistry) (later : List ArtifactAttestation) (hash : String)
    → Taken reg hash
    → Taken (run reg later) hash
unfolding run
run-Taken reg [] hash taken = taken
run-Taken reg (b ∷ rest) hash taken =
    run-Taken (after reg (register_artifact reg b)) rest hash (after-Taken reg b hash taken)

-- What `verify_artifact_uniqueness` says of a content foretells the registration of an attestation with
-- its perceptual hash: if it holds the registration succeeds, and it fails from then on, whatever is
-- registered later; if not the registration throws.
pub register_artifact-verify_artifact_uniqueness :
    (sha256 : Bytes → Bytes) (reg : ArtifactRegistry) (content : Bytes) (a : ArtifactAttestation)
    (later : List ArtifactAttestation)
    → a.perceptual_hash ≡ generate_perceptual_hash sha256 content
    → ((verify_artifact_uniqueness sha256 reg content ≡ true)
        × ((a' : ArtifactAttestation) × (reg' : ArtifactRegistry) × (register_artifact reg a
              ≡ returned (a.attestation_id, a', reg'))
            × (verify_artifact_uniqueness sha256 (run reg' later) content ≡ false)))
      ⊎ ((verify_artifact_uniqueness sha256 reg content ≡ false)
          × (register_artifact reg a ≡ thrown "Duplicate artifact detected"))
unfolding verify_artifact_uniqueness
register_artifact-verify_artifact_uniqueness sha256 reg content a later same =
    let hash = hash_to_hex a.perceptual_hash in
    elim (Option-cases (lookup (hash_to_hex a.perceptual_hash) reg.perceptual_hashes)) [
      | inl free ↦ inl (
        rw (← same, free) refl,
        (
          signed a,
          entered reg a,
          register_artifact-new reg a free,
          (let (id, taken) = run-Taken (entered reg a) later hash (
            a.attestation_id,
            lookup-insert_self hash a.attestation_id reg.perceptual_hashes,
          ) in
              rw (← same, taken) refl),
        ),
      )
      | inr (id, taken) ↦ inr (rw (← same, taken) refl, register_artifact-duplicate reg a id taken)
    ]

-- The registry keeps what was passed in: after a registration the caller's attestation has the status
-- "verified" and the signature of the oracle, and is otherwise as it was, but `get_attestation` gives the
-- one that was passed in, with the status and the signature from before.
pub register_artifact-get_attestation :
    (reg : ArtifactRegistry) (a : ArtifactAttestation)
    → lookup (hash_to_hex a.perceptual_hash) reg.perceptual_hashes ≡ none
    → (a' : ArtifactAttestation) × (reg' : ArtifactRegistry) × (register_artifact reg a
        ≡ returned (a.attestation_id, a', reg'))
      × (a' ≡ record a {
        verification_status = "verified";
        oracle_signature = String.◌++◌ "mock_oracle_signature_" a.attestation_id;
      })
      × (get_attestation reg' a.attestation_id ≡ some a)
unfolding get_attestation submit_to_oracle
register_artifact-get_attestation reg a free = (
  signed a,
  entered reg a,
  register_artifact-new reg a free,
  refl,
  lookup-insert_self a.attestation_id a reg.attestations,
)

-- Each perceptual hash leads to the id of an attestation that is there.
abbrev pub IsIndexed : ArtifactRegistry → Type 0
IsIndexed reg =
    Entries (λ hash id. (a : ArtifactAttestation) × (lookup id reg.attestations ≡ some a))
      reg.perceptual_hashes

insert-present :
    (reg : ArtifactRegistry) (a b : ArtifactAttestation) (id : String)
    → lookup id reg.attestations ≡ some b
    → (c : ArtifactAttestation) × (lookup id (insert a.attestation_id a reg.attestations) ≡ some c)
insert-present reg a b id found = elim (Bool-cases (str_eq a.attestation_id id)) [
  | inl hit ↦ (a, rw (lookup-insert a.attestation_id id a reg.attestations, hit) refl)
  | inr miss ↦ (b, rw (lookup-insert a.attestation_id id a reg.attestations, miss) found)
]

entered-IsIndexed :
    (reg : ArtifactRegistry) (a : ArtifactAttestation) → IsIndexed reg → IsIndexed (entered reg a)
entered-IsIndexed reg a h =
    insert-Entries _ (hash_to_hex a.perceptual_hash) a.attestation_id reg.perceptual_hashes
      (λ hash id found. let (b, stored) = h hash id found in insert-present reg a b id stored)
      (a, lookup-insert_self a.attestation_id a reg.attestations)

after-IsIndexed :
    (reg : ArtifactRegistry) (a : ArtifactAttestation)
    → IsIndexed reg
    → IsIndexed (after reg (register_artifact reg a))
after-IsIndexed reg a h =
    elim (Option-cases (lookup (hash_to_hex a.perceptual_hash) reg.perceptual_hashes)) [
      | inl free ↦ rw (register_artifact-new reg a free) (entered-IsIndexed reg a h)
      | inr (id, taken) ↦ rw (register_artifact-duplicate reg a id taken) h
    ]

run-IsIndexed_from :
    (attestations : List ArtifactAttestation) (reg : ArtifactRegistry)
    → IsIndexed reg
    → IsIndexed (run reg attestations)
unfolding run
run-IsIndexed_from [] reg h = h
run-IsIndexed_from (a ∷ rest) reg h =
    run-IsIndexed_from rest (after reg (register_artifact reg a)) (after-IsIndexed reg a h)

-- After any registrations every perceptual hash in the index leads to an attestation that
-- `get_attestation` finds.
pub run-IsIndexed :
    (attestations : List ArtifactAttestation) (hash id : String)
    → lookup hash (run new_registry attestations).perceptual_hashes ≡ some id
    → (a : ArtifactAttestation) × (get_attestation (run new_registry attestations) id ≡ some a)
unfolding get_attestation
run-IsIndexed attestations hash id found =
    run-IsIndexed_from attestations new_registry (nil-Entries _) hash id found
