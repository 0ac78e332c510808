-- ===== src/Artifacts/Registry/Listing.antt =====
-- `list_artifacts` of src/ipfs_verifier.cpp against a filter and a prefix.
use mathlib.Core.List.{append_assoc}
use membra_l3_cpp.Base.{
  ℕ, ◌⊎◌, str_eq, eq_iff, true, ◌||◌, map, zero, suc, ◌+◌, ◌-◌, ◌<◌, ◌≡◌, refl, sym, ap, ◌∙◌, inl,
  inr, String, List, [], ◌∷◌, ◌++◌, arith, leb, length, length-append, append-nil, if◌then◌else◌,
  Bool-cases,
}
use membra_l3_cpp.Base.Bytes.{take}
use membra_l3_cpp.Base.Dict.{Dict}
use membra_l3_cpp.Base.Ordered.{in_key_order}
use membra_l3_cpp.Base.Selects.{Selects, at_end, taken, passed, Selects-unique}
use membra_l3_cpp.Artifacts.{ArtifactAttestation}
use membra_l3_cpp.Artifacts.Registry.{ArtifactRegistry, is_listed, list_loop, list_artifacts}

-- What a filter asks for: a text that is empty asks for nothing.
abbrev pub Asks : String → String → Type 0
Asks wanted text = (wanted ≡ "") ⊎ (text ≡ wanted)

abbrev pub IsWanted : String → String → ArtifactAttestation → Type 0
IsWanted artifact_type creator a =
    Asks artifact_type a.artifact_type × Asks creator a.creator_wallet

str_eq-Asks :
    (wanted text : String) → (str_eq wanted "" || str_eq text wanted) ≡ true → Asks wanted text
str_eq-Asks wanted text h = elim (Bool-cases (str_eq wanted "")) [
  | inl empty ↦ inl ((eq_iff _ _).0 empty)
  | inr other ↦ inr ((eq_iff text wanted).0 (ground (arith, other)))
]

Asks-str_eq :
    (wanted text : String) → Asks wanted text → (str_eq wanted "" || str_eq text wanted) ≡ true
Asks-str_eq wanted text (inl empty) = ground (arith, (eq_iff wanted "").1 empty)
Asks-str_eq wanted text (inr same) = ground (arith, (eq_iff text wanted).1 same)

is_listed-IsWanted :
    (artifact_type creator : String) (a : ArtifactAttestation)
    → is_listed artifact_type creator a ≡ true
    → IsWanted artifact_type creator a
is_listed-IsWanted artifact_type creator a h = (
  str_eq-Asks artifact_type a.artifact_type (ground arith),
  str_eq-Asks creator a.creator_wallet (ground arith),
)

IsWanted-is_listed :
    (artifact_type creator : String) (a : ArtifactAttestation)
    → IsWanted artifact_type creator a
    → is_listed artifact_type creator a ≡ true
IsWanted-is_listed artifact_type creator a (kind, owner) = ground (
  arith,
  Asks-str_eq artifact_type a.artifact_type kind,
  Asks-str_eq creator a.creator_wallet owner,
)

module _ (artifact_type creator : String) where
  -- All that pass the filters.
  unfoldable pub listed : Dict ArtifactAttestation → List ArtifactAttestation
  listed [] = []
  listed ((id, a) ∷ rest) =
      if is_listed artifact_type creator a then a ∷ listed rest else listed rest

  take-suc :
      (n : ℕ) (a : ArtifactAttestation) (rest : List ArtifactAttestation) (k : ℕ)
      → k ≡ suc n
      → take k (a ∷ rest) ≡ a ∷ take n rest
  take-suc n a rest k e = rw e refl

  take-nil : (k : ℕ) → take {A = ArtifactAttestation} k [] ≡ []
  take-nil zero = refl
  take-nil (suc k) = refl

  -- The last one that fits, and one that more can follow.
  length-results :
      (results : List ArtifactAttestation) (a : ArtifactAttestation)
      → length (results ++ (a ∷ [])) ≡ length results + 1
  length-results results a = length-append results (a ∷ [])

  list_loop_lem :
      (n : ℕ) (results : List ArtifactAttestation) (m : Dict ArtifactAttestation) (limit : ℕ)
      → length results < n
      → n ≡ 1 + (limit - 1)
      → list_loop artifact_type creator limit results m
        ≡ results ++ take (n - length results) (listed m)
  unfolding list_loop listed
  list_loop_lem n results [] limit room e =
      rw (take-nil (n - length results)) (sym (append-nil results))
  list_loop_lem n results ((id, a) ∷ rest) limit room e =
      elim (Bool-cases (is_listed artifact_type creator a)) [
        | inr skip ↦ rw skip (list_loop_lem n results rest limit room e)
        | inl keep ↦ elim (Bool-cases (leb limit (length (results ++ (a ∷ []))))) [
          | inl full ↦
              rw
                (
                  keep,
                  full,
                  take-suc 0 a (listed rest) (n - length results)
                      (ground (arith, length-results results a)),
                )
                refl
          | inr more ↦
              rw
                (
                  keep,
                  more,
                  take-suc (n - length (results ++ (a ∷ []))) a (listed rest) (n - length results)
                      (omega (arith, length-results results a)),
                )
                (list_loop_lem n (results ++ (a ∷ [])) rest limit
                    (ground (arith, length-results results a)) e
                  ∙ append_assoc results (a ∷ [])
                      (take (n - length (results ++ (a ∷ []))) (listed rest)))
        ]
      ]

listed-Selects :
    (artifact_type creator : String) (m : Dict ArtifactAttestation)
    → Selects (IsWanted artifact_type creator) (map (λ e. e.1) m) (listed artifact_type creator m)
unfolding listed
listed-Selects artifact_type creator [] = at_end
listed-Selects artifact_type creator ((id, a) ∷ rest) =
    elim (Bool-cases (is_listed artifact_type creator a)) [
      | inl keep ↦ rw keep (
          taken a (is_listed-IsWanted artifact_type creator a keep)
            (listed-Selects artifact_type creator rest))
      | inr skip ↦ rw skip (
          passed a
            (λ wanted. absurd (ground (arith, IsWanted-is_listed artifact_type creator a wanted)))
            (listed-Selects artifact_type creator rest))
    ]

list_artifacts-listed :
    (reg : ArtifactRegistry) (artifact_type creator : String) (limit : ℕ)
    → list_artifacts reg artifact_type creator limit
      ≡ take (1 + (limit - 1)) (listed artifact_type creator (in_key_order reg.attestations))
unfolding list_artifacts
list_artifacts-listed reg artifact_type creator limit =
    list_loop_lem artifact_type creator (1 + (limit - 1)) [] (in_key_order reg.attestations) limit
      (omega arith) refl
    ∙ ap (λ k. take k (listed artifact_type creator (in_key_order reg.attestations))) (omega arith)

-- Let `wanted` be the attestations, in the order of their ids, whose type is the one asked for and whose
-- creator is the one asked for, where an empty text asks for nothing. `list_artifacts` gives the first
-- of them, up to the limit; a limit of 0 counts as 1.
pub list_artifacts_lem :
    (reg : ArtifactRegistry) (artifact_type creator : String) (limit : ℕ)
    (wanted : List ArtifactAttestation)
    → Selects
        (IsWanted artifact_type creator)
        (map (λ e. e.1) (in_key_order reg.attestations))
        wanted
    → list_artifacts reg artifact_type creator limit ≡ take (1 + (limit - 1)) wanted
list_artifacts_lem reg artifact_type creator limit wanted selected =
    list_artifacts-listed reg artifact_type creator limit
    ∙ ap (take (1 + (limit - 1))) (
        Selects-unique (listed-Selects artifact_type creator (in_key_order reg.attestations))
          selected)
