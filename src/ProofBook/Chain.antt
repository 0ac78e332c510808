-- ===== src/ProofBook/Chain.antt =====
-- The hash chain of include/proof_book.hpp and what `verify_chain` notices of a change.
use Prim.Native.String.{◌++◌}
use membra_l3_cpp.Base.{
  ◌≡◌, ◌≢◌, refl, sym, ◌∙◌, String, str_eq, eq_iff, true, ◌&&◌, List, [], ◌∷◌, arith, inl, inr, ◌⊎◌,
  Bool-cases,
}
use mathlib.Core.List.{◌++◌ as append_lists}
use membra_l3_cpp.Base.Decimal.{to_string}
use membra_l3_cpp.Base.Double.{Double}
use membra_l3_cpp.ProofBook.{
  ProofType, code, ProofEntry, ProofBook, genesis_hash, empty_book, compute_hash, append,
  verify_loop, verify_chain,
}

-- Two texts with one hash.
abbrev pub Collision : (String → String) → Type 0
Collision sha256_hex = (a : String) × (b : String) × (a ≢ b) × (sha256_hex a ≡ sha256_hex b)

-- The text that is hashed.
abbrev pub hashed_text : {W : Type 0} ⦃d : Double W⦄ → ProofEntry W → String
hashed_text ⦃d⦄ e = to_string (code e.kind) ++ (e.payload ++ (d.shown e.timestamp ++ e.prev_hash))

module _ {W : Type 0} ⦃d : Double W⦄ (sha256_hex : String → String) where
  -- The hash that the entry after `es` must name.
  abbrev tip : String → List (ProofEntry W) → String
  tip expected [] = expected
  tip expected (e ∷ rest) = tip (compute_hash sha256_hex e) rest

  tip-append :
      (expected : String) (es : List (ProofEntry W)) (e : ProofEntry W)
      → tip expected (append_lists es (e ∷ [])) ≡ compute_hash sha256_hex e
  tip-append expected [] e = refl
  tip-append expected (f ∷ es) e = tip-append (compute_hash sha256_hex f) es e

  verify_loop-append :
      (expected : String) (es fs : List (ProofEntry W))
      → verify_loop sha256_hex expected (append_lists es fs)
        ≡ (verify_loop sha256_hex expected es && verify_loop sha256_hex (tip expected es) fs)
  unfolding verify_loop
  verify_loop-append expected [] fs = refl
  verify_loop-append expected (e ∷ es) fs =
      ground (arith, verify_loop-append (compute_hash sha256_hex e) es fs)

  -- The chain verifies and `last_hash` is the hash that the next entry must name.
  abbrev pub IsLinked : ProofBook W → Type 0
  IsLinked b = (verify_chain sha256_hex b ≡ true) × (b.last_hash ≡ tip genesis_hash b.entries)

  linked_single :
      (expected : String) (e : ProofEntry W)
      → e.prev_hash ≡ expected
      → e.entry_hash ≡ compute_hash sha256_hex e
      → verify_loop sha256_hex expected (e ∷ []) ≡ true
  unfolding verify_loop
  linked_single expected e p h =
      ground (arith, eq_iff e.prev_hash expected, eq_iff e.entry_hash (compute_hash sha256_hex e))

  append-IsLinked :
      (b : ProofBook W) (kind : ProofType) (payload : String) (now : W)
      → IsLinked b
      → IsLinked (append sha256_hex b kind payload now).1
  unfolding append verify_chain compute_hash
  append-IsLinked b kind payload now (ok, last) =
      let entry = (append sha256_hex b kind payload now).0 in
      let sealed : entry.entry_hash ≡ compute_hash sha256_hex entry = refl in
      let single = linked_single (tip genesis_hash b.entries) entry last sealed in
      (
        verify_loop-append genesis_hash b.entries (entry ∷ []) ∙ rw (ok, single) refl,
        sealed ∙ sym (tip-append genesis_hash b.entries entry),
      )

  abbrev pub append_all : ProofBook W → List (ProofType × String × W) → ProofBook W
  append_all b [] = b
  append_all b ((kind, payload, now) ∷ rest) =
      append_all (append sha256_hex b kind payload now).1 rest

  append_all-IsLinked :
      (b : ProofBook W) (calls : List (ProofType × String × W))
      → IsLinked b
      → IsLinked (append_all b calls)
  append_all-IsLinked b [] linked = linked
  append_all-IsLinked b ((kind, payload, now) ∷ rest) linked =
      append_all-IsLinked (append sha256_hex b kind payload now).1 rest
        (append-IsLinked b kind payload now linked)

  -- Whatever is appended to a new book, in whatever order and at whatever times, the chain verifies.
  pub append_all-verify_chain :
      (calls : List (ProofType × String × W))
      → verify_chain sha256_hex (append_all empty_book calls) ≡ true
  unfolding verify_chain verify_loop
  append_all-verify_chain calls = (append_all-IsLinked empty_book calls (refl, refl)).0

  -- A change of an entry that is not the last is noticed, unless it is unseen by SHA-256: if the chain
  -- verifies with the one entry and with the other in its place, and an entry follows, then the text
  -- hashed for the two is the same or the hash has a collision.
  pub verify_loop-tampered :
      (expected : String) (es fs : List (ProofEntry W)) (e e' next : ProofEntry W)
      → verify_loop sha256_hex expected (append_lists es (e ∷ next ∷ fs)) ≡ true
      → verify_loop sha256_hex expected (append_lists es (e' ∷ next ∷ fs)) ≡ true
      → (hashed_text e ≡ hashed_text e') ⊎ Collision sha256_hex
  unfolding verify_loop compute_hash
  verify_loop-tampered expected es fs e e' next v v' =
      let from = tip expected es in
      let hash : compute_hash sha256_hex e ≡ compute_hash sha256_hex e' = ground (
        arith,
        verify_loop-append expected es (e ∷ next ∷ fs),
        verify_loop-append expected es (e' ∷ next ∷ fs),
        eq_iff next.prev_hash (compute_hash sha256_hex e),
        eq_iff next.prev_hash (compute_hash sha256_hex e'),
      ) in
      elim (Bool-cases (str_eq (hashed_text e) (hashed_text e'))) [
        | inl same ↦ inl ((eq_iff (hashed_text e) (hashed_text e')).0 same)
        | inr differ ↦ inr (
          hashed_text e,
          hashed_text e',
          ground (arith, eq_iff (hashed_text e) (hashed_text e')),
          hash,
        )
      ]

  -- What is not noticed. The last entries can be removed: if a chain verifies, so does what is left of it
  -- without the entries at its end. And digits can move from the end of the data into the time stamp:
  -- an entry with the same kind, the same hashes and the same text in the two fields together takes
  -- the place of another.
  pub verify_loop-unnoticed :
      (expected : String) (es fs : List (ProofEntry W)) (e e' : ProofEntry W)
      → verify_loop sha256_hex expected (append_lists es (e ∷ fs)) ≡ true
      → (code e.kind ≡ code e'.kind)
      → (e.payload ++ (d.shown e.timestamp ++ e.prev_hash))
        ≡ (e'.payload ++ (d.shown e'.timestamp ++ e'.prev_hash))
      → e.prev_hash ≡ e'.prev_hash
      → e.entry_hash ≡ e'.entry_hash
      → (verify_loop sha256_hex expected es ≡ true)
        × (verify_loop sha256_hex expected (append_lists es (e' ∷ fs)) ≡ true)
  unfolding verify_loop compute_hash
  verify_loop-unnoticed expected es fs e e' v k t p h =
      ground
        (arith, verify_loop-append expected es (e ∷ fs), verify_loop-append expected es (e' ∷ fs))
