-- ===== src/Nvidia/Offsets.antt =====
-- src/nvidia.rs: `OffsetDevice`, the snapshot, and the offset transaction with its rollback. The
-- driver behind the trait is a parameter: a world and two operations on it. The vector of mutations
-- is kept latest first, so that `iter().rev()` is the list itself.
pub mod Registers
pub mod Safe
pub mod Atomic
mod Examples
use asense.Base.{Bool, true, false, Option, none, some, List, [], ◌∷◌, ◌++◌, map, if◌then◌else◌}
use asense.Base.Int.{ℤ, eqb_ℤ}
use asense.Result.{Result, ok, err}
use asense.Result
use asense.Exec.{Exec, pure, raise, lift, handle, branch, ◌>>=◌, ◌>>◌}
use asense.Nvidia.{
  PerformanceState, ClockDomain, core, memory, ClockOffsets, oem_turbo, reset, for_domain,
  OffsetReading, accepts, StateOffsets, reading, OffsetSnapshot, find_state, OffsetTransition,
  RollbackFailure, write_failed, readback_differs, readback_failed, NvidiaError,
  missing_snapshot_state, offset_out_of_range, readback_mismatch, transaction_rolled_back,
  transaction_rollback_failed,
}

pub record OffsetDevice : Type 1 where
  pub World : Type 0
  pub states : List PerformanceState
  pub read_offset : PerformanceState → ClockDomain → Exec World NvidiaError OffsetReading
  pub write_offset : PerformanceState → ClockDomain → ℤ → Exec World NvidiaError (Unit {0})

abbrev pub Targets : Type 0
Targets = List (PerformanceState × ClockOffsets)

abbrev pub Mutation : Type 0
Mutation = PerformanceState × ClockDomain × ℤ

abbrev pub required : PerformanceState → OffsetSnapshot → Result NvidiaError StateOffsets
required s snapshot = elim (find_state s snapshot) [
  | none ↦ err (missing_snapshot_state s)
  | some o ↦ ok o
]

-- The whole transaction is validated before the first mutation.
check_domain :
    StateOffsets → PerformanceState → ClockOffsets → ClockDomain → Result NvidiaError (Unit {0})
check_domain before s target d =
    let range = reading before d in
    let requested = for_domain target d in
    if accepts range requested
    then ok tt
    else err (offset_out_of_range s d requested range.minimum_mhz range.maximum_mhz)

pub check_targets : OffsetSnapshot → Targets → Result NvidiaError (Unit {0})
unfolding check_domain
check_targets previous [] = ok tt
check_targets previous ((s, target) ∷ rest) = Result.◌>>=◌ (required s previous) λ before.
    Result.◌>>◌ (check_domain before s target core)
      (Result.◌>>◌ (check_domain before s target memory) (check_targets previous rest))

-- The final snapshot has to show every target.
verify_domain :
    StateOffsets → PerformanceState → ClockOffsets → ClockDomain → Result NvidiaError (Unit {0})
verify_domain actual s target d =
    let expected = for_domain target d in
    let found = (reading actual d).current_mhz in
    if eqb_ℤ found expected then ok tt else err (readback_mismatch s d expected found)

pub verify_targets : OffsetSnapshot → Targets → Result NvidiaError (Unit {0})
unfolding verify_domain
verify_targets current [] = ok tt
verify_targets current ((s, target) ∷ rest) = Result.◌>>=◌ (required s current) λ actual.
    Result.◌>>◌ (verify_domain actual s target core)
      (Result.◌>>◌ (verify_domain actual s target memory) (verify_targets current rest))

module _ (dev : OffsetDevice) where
  open dev use {World, states, read_offset, write_offset}

  pub snapshot_states : List PerformanceState → Exec World NvidiaError OffsetSnapshot
  snapshot_states [] = pure []
  snapshot_states (s ∷ rest) = do
    c ← read_offset s core
    m ← read_offset s memory
    more ← snapshot_states rest
    pure (record { state = s; core_reading = c; memory_reading = m } ∷ more)

  unfoldable pub snapshot_device : Exec World NvidiaError OffsetSnapshot
  unfolding snapshot_states
  snapshot_device = snapshot_states states

  -- what one step of the rollback reports
  rollback_one : Mutation → World → List RollbackFailure × World
  rollback_one (s, d, prior) w =
      let (written, w1) = write_offset s d prior w in
      elim written [
        | err e ↦ (write_failed s d ∷ [], w1)
        | ok u ↦
            let (readback, w2) = read_offset s d w1 in
            elim readback [
              | err e ↦ (readback_failed s d ∷ [], w2)
              | ok r ↦
                  if eqb_ℤ r.current_mhz prior
                  then ([], w2)
                  else (readback_differs s d prior r.current_mhz ∷ [], w2)
            ]
      ]

  pub rollback_loop : List Mutation → World → List RollbackFailure × World
  rollback_loop [] w = ([], w)
  rollback_loop (m ∷ rest) w =
      let (failed, w1) = rollback_one m w in
      let (more, w2) = rollback_loop rest w1 in (failed ++ more, w2)

  rollback_report : NvidiaError → List RollbackFailure → NvidiaError
  rollback_report cause [] = transaction_rolled_back cause
  rollback_report cause (f ∷ fs) = transaction_rollback_failed cause (f ∷ fs)

  -- `return Err(rollback_after_failure(device, &mutations, cause))`
  unfoldable pub rollback_after_failure :
      {A : Type 0} → List Mutation → NvidiaError → Exec World NvidiaError A
  unfolding rollback_loop rollback_one rollback_report
  rollback_after_failure mutations cause w =
      let (failures, w') = rollback_loop mutations w in (err (rollback_report cause failures), w')

  pub mutate_domain :
      StateOffsets
      → PerformanceState
      → ClockOffsets
      → ClockDomain
      → List Mutation
      → Exec World NvidiaError (List Mutation)
  mutate_domain before s target d mutations =
      let prior = (reading before d).current_mhz in
      let requested = for_domain target d in
      let recorded = (s, d, prior) ∷ mutations in
      if eqb_ℤ prior requested
      then pure mutations
      else handle (write_offset s d requested)
          (λ _.
            handle (read_offset s d)
              (λ r.
                if eqb_ℤ r.current_mhz requested
                then pure recorded
                else rollback_after_failure recorded
                    (readback_mismatch s d requested r.current_mhz))
              (rollback_after_failure recorded))
          (rollback_after_failure mutations)

  pub mutate_targets :
      OffsetSnapshot → Targets → List Mutation → Exec World NvidiaError (List Mutation)
  unfolding mutate_domain
  mutate_targets previous [] mutations = pure mutations
  mutate_targets previous ((s, target) ∷ rest) mutations = do
    before ← lift (required s previous)
    after_core ← mutate_domain before s target core mutations
    after_memory ← mutate_domain before s target memory after_core
    mutate_targets previous rest after_memory

  pub finish : OffsetSnapshot → Targets → List Mutation → Exec World NvidiaError OffsetTransition
  finish previous targets mutations =
      handle snapshot_device
        (λ current.
          branch (verify_targets current targets)
            (λ _. pure (record { previous = previous; current = current }))
            (rollback_after_failure mutations))
        (rollback_after_failure mutations)

  unfoldable pub apply_offset_targets : Targets → Exec World NvidiaError OffsetTransition
  unfolding check_targets mutate_targets finish
  apply_offset_targets targets = do
    previous ← snapshot_device
    lift (check_targets previous targets)
    mutations ← mutate_targets previous targets []
    finish previous targets mutations

  unfoldable pub apply_uniform_offsets : ClockOffsets → Exec World NvidiaError OffsetTransition
  apply_uniform_offsets offsets = apply_offset_targets (map (λ s. (s, offsets)) states)
