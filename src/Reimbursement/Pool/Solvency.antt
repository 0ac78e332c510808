-- ===== src/Reimbursement/Pool/Solvency.antt =====
-- Reserved and available funds of the pools of src/gas_reimbursement.cpp.
use membra_l3_cpp.Base.{
  ℕ, ◌+◌, ◌-◌, ◌^◌, ◌≤◌, ◌<◌, ◌≡◌, ◌↔◌, refl, inl, inr, String, str_eq, eq_iff, true, some, arith,
  Option-cases, Bool-cases, if◌then◌else◌, leb, ◌∙◌, sym, ◌&&◌,
}
use membra_l3_cpp.Base.Dict.{lookup, insert, get_or, lookup-insert, lookup-insert_self}
use membra_l3_cpp.Base.Double.{Double}
use membra_l3_cpp.Base.Word.{add64, sub64}
use membra_l3_cpp.Reimbursement.{GasPoolConfig, default_config}
use membra_l3_cpp.Reimbursement.Pool.{
  Pools, reserved_of, touch, credited, update_pool_balance, check_availability, reserve_checked,
  reserve_funds, release_funds, initialize_pool,
}

pub data Call : Type 0 where
  reserves releases funds : String → ℕ → Call

module _ {W : Type 0} where
  -- Every known pool's reserved amount is within its available balance; all amounts fit 64 bits.
  pub record IsSolvent (p : Pools W) : Type 0 where
    pub covered :
        (id : String) (config : GasPoolConfig)
        → lookup id p.configs ≡ some config
        → (reserved_of p id ≤ config.available_balance) × (config.available_balance < 2 ^ 64)
    pub bounded : (id : String) → reserved_of p id < 2 ^ 64

  reserved_of-touch :
      (p : Pools W) (id j : String)
      → get_or 0 (lookup j (insert id (reserved_of p id) p.reserved)) ≡ reserved_of p j
  reserved_of-touch p id j =
      ground (arith, lookup-insert id j (reserved_of p id) p.reserved, eq_iff id j)

  lookup-touch :
      (p : Pools W) (id j : String) (config : GasPoolConfig)
      → lookup id p.configs ≡ some config
      → lookup j (insert id (get_or default_config (lookup id p.configs)) p.configs)
        ≡ lookup j p.configs
  lookup-touch p id j config e = ground (
    arith,
    lookup-insert id j (get_or default_config (lookup id p.configs)) p.configs,
    eq_iff id j,
  )

  -- `check_availability` of a known pool in a solvent state.
  available_iff :
      (p : Pools W) (id : String) (amount : ℕ) (config : GasPoolConfig)
      → IsSolvent p
      → lookup id p.configs ≡ some config
      → ((check_availability p id amount).0 ≡ true)
        ↔ (reserved_of p id + amount ≤ config.available_balance)
  unfolding check_availability
  available_iff p id amount config v e =
      let held = v.covered id config e in rw (e, check_availability) (ground arith)

  module _ ⦃d : Double W⦄ where
    reserve_funds-eq :
        (p : Pools W) (id : String) (amount : ℕ)
        → (reserve_funds p id amount).0 ≡ (check_availability p id amount).0
    unfolding reserve_funds
    reserve_funds-eq p id amount = ground arith

    -- In a solvent state `reserve_funds` succeeds exactly if the pool is known and its reserved amount
    -- and the new one are together within its available balance.
    pub reserve_funds_iff :
        (p : Pools W) (id : String) (amount : ℕ)
        → IsSolvent p
        → ((reserve_funds p id amount).0 ≡ true) ↔ (
            (config : GasPoolConfig) × (lookup id p.configs ≡ some config)
            × (reserved_of p id + amount ≤ config.available_balance))
    reserve_funds_iff p id amount v = elim (Option-cases (lookup id p.configs)) [
      | inl e ↦ (
        λ h. absurd (unfold check_availability in ground (arith, reserve_funds-eq p id amount)),
        λ (config, known, _). absurd (ground arith),
      )
      | inr (config, e) ↦
          let iff = available_iff p id amount config v e in
          (
            λ h. (config, e, iff.0 (ground (arith, reserve_funds-eq p id amount))),
            λ (config', known, room). reserve_funds-eq p id amount ∙ iff.1 (ground arith),
          )
    ]

    reserve_checked_view :
        (p : Pools W) (id j : String) (amount : ℕ) (config : GasPoolConfig)
        → lookup id p.configs ≡ some config
        → let p' = reserve_checked (touch p id) id amount in
          (lookup j p'.configs ≡ lookup j p.configs)
          × (reserved_of p' j
              ≡ (if str_eq id j then add64 (reserved_of p id) amount else reserved_of p j))
    unfolding reserve_checked
    reserve_checked_view p id j amount config e =
        let held = add64 (reserved_of (touch p id) id) amount in
        (
          lookup-touch p id j config e,
          ground (
            arith,
            reserved_of-touch p id id,
            reserved_of-touch p id j,
            lookup-insert id j held (touch p id).reserved,
          ),
        )

    reserve_funds-fits :
        (p : Pools W) (id : String) (amount : ℕ)
        → IsSolvent p
        → (config : GasPoolConfig) → lookup id p.configs ≡ some config
        → (reserve_funds p id amount).0 ≡ true
        → reserved_of p id + amount ≤ config.available_balance
    reserve_funds-fits p id amount v config known done =
        (available_iff p id amount config v known).0 (sym (reserve_funds-eq p id amount) ∙ done)

    -- A reservation changes the reserved amount of its own pool only, and no configuration.
    reserve_funds_view :
        (p : Pools W) (id j : String) (amount : ℕ)
        → let (done, p') = reserve_funds p id amount in
          (lookup j p'.configs ≡ lookup j p.configs)
          × (reserved_of p' j
              ≡ (if done && str_eq id j then add64 (reserved_of p id) amount else reserved_of p j))
    unfolding reserve_funds check_availability
    reserve_funds_view p id j amount = elim (Option-cases (lookup id p.configs)) [
      | inl e ↦ rw (e, check_availability) (refl, refl)
      | inr (config, e) ↦
          elim (Bool-cases (leb amount (sub64 config.available_balance (reserved_of p id)))) [
            | inl room ↦
                rw (e, check_availability, room) (reserve_checked_view p id j amount config e)
            | inr full ↦ rw (e, check_availability, full) (refl, reserved_of-touch p id j)
          ]
    ]

    -- A release never goes below 0 and touches its own pool only.
    release_funds_view :
        (p : Pools W) (id j : String) (amount : ℕ)
        → reserved_of p id < 2 ^ 64
        → let p' = release_funds p id amount in
          (p'.configs ≡ p.configs)
          × (reserved_of p' j
              ≡ (if str_eq id j then reserved_of p id - amount else reserved_of p j))
    unfolding release_funds
    release_funds_view p id j amount small =
        let held = if leb amount (reserved_of p id) then sub64 (reserved_of p id) amount else 0 in
        (refl, ground (arith, lookup-insert id j held p.reserved))

    reserve_funds-IsSolvent :
        (p : Pools W) (id : String) (amount : ℕ)
        → IsSolvent p
        → IsSolvent (reserve_funds p id amount).1
    reserve_funds-IsSolvent p id amount v = record {
      covered = λ j config e.
          let (same, held) = reserve_funds_view p id j amount in
          let known : lookup j p.configs ≡ some config = sym same ∙ e in
          ground
            (arith, v.covered j config known, reserve_funds-fits p id amount v config, eq_iff id j);
      bounded = λ j. ground (arith, reserve_funds_view p id j amount, v.bounded j);
    }

    release_funds-IsSolvent :
        (p : Pools W) (id : String) (amount : ℕ)
        → IsSolvent p
        → IsSolvent (release_funds p id amount)
    release_funds-IsSolvent p id amount v = record {
      covered = λ j config e.
          let (same, held) = release_funds_view p id j amount (v.bounded id) in
          let known : lookup j p.configs ≡ some config = rw same at e in
          ground (arith, v.covered j config known, eq_iff id j);
      bounded = λ j.
          ground
            (arith, release_funds_view p id j amount (v.bounded id), v.bounded j, v.bounded id);
    }

    update_pool_balance-IsSolvent :
        (p : Pools W) (id : String) (amount : ℕ)
        → ((config : GasPoolConfig)
            → lookup id p.configs ≡ some config
            → config.available_balance + amount < 2 ^ 64)
        → IsSolvent p
        → IsSolvent (update_pool_balance p id amount).1
    unfolding update_pool_balance
    update_pool_balance-IsSolvent p id amount fits v = elim (Option-cases (lookup id p.configs)) [
      | inl e ↦ rw (e, update_pool_balance) v
      | inr (config, e) ↦
          rw (e, update_pool_balance)
            (record {
              covered = λ j config' e'. ground (
                arith,
                lookup-insert id j (credited config amount) p.configs,
                fits config e,
                v.covered id config e,
                v.covered j config',
                eq_iff id j,
              );
              bounded = v.bounded;
            })
    ]

    pub step : Pools W → Call → Pools W
    step p (reserves id amount) = (reserve_funds p id amount).1
    step p (releases id amount) = release_funds p id amount
    step p (funds id amount) = (update_pool_balance p id amount).1

    -- A deposit does not wrap.
    abbrev pub Fits : Pools W → Call → Type 0
    Fits p (reserves id amount) = Unit
    Fits p (releases id amount) = Unit
    Fits p (funds id amount) =
        (config : GasPoolConfig)
        → lookup id p.configs ≡ some config
        → config.available_balance + amount < 2 ^ 64

    -- Reservations and releases of any amount, and deposits that do not wrap, keep the pools solvent.
    pub step-IsSolvent : (p : Pools W) (c : Call) → Fits p c → IsSolvent p → IsSolvent (step p c)
    unfolding step
    step-IsSolvent p (reserves id amount) fits v = reserve_funds-IsSolvent p id amount v
    step-IsSolvent p (releases id amount) fits v = release_funds-IsSolvent p id amount v
    step-IsSolvent p (funds id amount) fits v = update_pool_balance-IsSolvent p id amount fits v

    -- What was reserved and is released again leaves every pool's reserved amount as before.
    pub reserve_funds-release_funds :
        (p : Pools W) (id j : String) (amount : ℕ)
        → IsSolvent p
        → (reserve_funds p id amount).0 ≡ true
        → reserved_of (release_funds (reserve_funds p id amount).1 id amount) j ≡ reserved_of p j
    reserve_funds-release_funds p id j amount v done =
        let p' = (reserve_funds p id amount).1 in
        let (config, known, room) = (reserve_funds_iff p id amount v).0 done in
        let own = (reserve_funds_view p id id amount).1 in
        let other = (reserve_funds_view p id j amount).1 in
        let small : reserved_of p' id < 2 ^ 64 =
          (reserve_funds-IsSolvent p id amount v).bounded id in
        ground (
          arith,
          release_funds_view p' id j amount small,
          v.covered id config known,
          eq_iff id id,
          eq_iff id j,
        )

  -- Once a pool is initialised again with less than it has reserved, the difference that
  -- `check_availability` takes wraps around: the pool passes for amounts far above its balance.
  pub check_availability-wraps :
      (p : Pools W) (config : GasPoolConfig) (required : ℕ)
      → config.available_balance < reserved_of p config.pool_id
      → required + reserved_of p config.pool_id ≤ config.available_balance + 2 ^ 64
      → (check_availability (initialize_pool p config).1 config.pool_id required).0 ≡ true
  unfolding check_availability initialize_pool
  check_availability-wraps p config required over room =
      ground (arith, lookup-insert_self config.pool_id config p.configs)
