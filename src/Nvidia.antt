-- ===== src/Nvidia.antt =====
-- src/nvidia.rs: the vocabulary of the NVIDIA clock offsets. A clock offset is an i32 number of MHz
-- and is only stored and compared, so it is an integer. Of an error only what a later decision
-- reads is kept: paths and driver texts are dropped.
pub mod Offsets
use asense.Base.{
  sym, ap, ==_iff, ℕ, ◌≡◌, refl, Bool, true, false, ◌&&◌, Option, none, some, List, [], ◌∷◌, arith,
  if◌then◌else◌, ◌==◌,
}
use asense.Base.Int.{ℤ, pos, negsuc, leb_ℤ}
use asense.Result.{Result, ok, err}

pub data PerformanceState : Type 0 where
  p0 p1 p2 p3 p4 p5 p6 p7 p8 p9 p10 p11 p12 p13 p14 p15 : PerformanceState

-- the discriminant, `state as i32`
abbrev pub state_index : PerformanceState → ℕ
state_index p0 = 0
state_index p1 = 1
state_index p2 = 2
state_index p3 = 3
state_index p4 = 4
state_index p5 = 5
state_index p6 = 6
state_index p7 = 7
state_index p8 = 8
state_index p9 = 9
state_index p10 = 10
state_index p11 = 11
state_index p12 = 12
state_index p13 = 13
state_index p14 = 14
state_index p15 = 15

-- the derived `PartialEq`
abbrev pub state_eq : PerformanceState → PerformanceState → Bool
state_eq s t = state_index s == state_index t

pub data ClockDomain : Type 0 where
  core memory : ClockDomain

abbrev pub domain_eq : ClockDomain → ClockDomain → Bool
domain_eq core core = true
domain_eq memory memory = true
domain_eq _ _ = false

pub record ClockOffsets : Type 0 where
  pub core_mhz : ℤ
  pub memory_mhz : ℤ

abbrev pub oem_turbo : ClockOffsets
oem_turbo = record { core_mhz = pos 100; memory_mhz = pos 200 }

abbrev pub reset : ClockOffsets
reset = record { core_mhz = pos 0; memory_mhz = pos 0 }

unfoldable pub for_domain : ClockOffsets → ClockDomain → ℤ
for_domain o core = o.core_mhz
for_domain o memory = o.memory_mhz

pub record OffsetReading : Type 0 where
  pub current_mhz : ℤ
  pub minimum_mhz : ℤ
  pub maximum_mhz : ℤ

unfoldable pub accepts : OffsetReading → ℤ → Bool
accepts r value = leb_ℤ r.minimum_mhz value && leb_ℤ value r.maximum_mhz

pub record StateOffsets : Type 0 where
  pub state : PerformanceState
  pub core_reading : OffsetReading
  pub memory_reading : OffsetReading

unfoldable pub reading : StateOffsets → ClockDomain → OffsetReading
reading o core = o.core_reading
reading o memory = o.memory_reading

-- An `OffsetSnapshot` is the list of its states.
abbrev pub OffsetSnapshot : Type 0
OffsetSnapshot = List StateOffsets

-- `OffsetSnapshot::state`
unfoldable pub find_state : PerformanceState → OffsetSnapshot → Option StateOffsets
find_state s [] = none
find_state s (o ∷ rest) = if state_eq o.state s then some o else find_state s rest

pub record OffsetTransition : Type 0 where
  pub previous : OffsetSnapshot
  pub current : OffsetSnapshot

-- One line of `rollback_failures`; the driver's own text is dropped.
pub data RollbackFailure : Type 0 where
  write_failed : PerformanceState → ClockDomain → RollbackFailure
  readback_differs : PerformanceState → ClockDomain → (expected actual : ℤ) → RollbackFailure
  readback_failed : PerformanceState → ClockDomain → RollbackFailure

pub data NvidiaError : Type 0 where
  io invalid_sysfs_hex wrong_gpu library_load missing_symbol : NvidiaError
  unavailable_capability invalid_telemetry runtime_power_state : NvidiaError
  nvml : (code : ℕ) → NvidiaError
  unsupported_offset_topology : NvidiaError
  invalid_performance_state : ℤ → NvidiaError
  offset_unsupported_state asymmetric_offset_support : PerformanceState → NvidiaError
  missing_snapshot_state : PerformanceState → NvidiaError
  offset_out_of_range :
      PerformanceState → ClockDomain → (requested minimum maximum : ℤ) → NvidiaError
  readback_mismatch : PerformanceState → ClockDomain → (expected actual : ℤ) → NvidiaError
  transaction_rolled_back : (cause : NvidiaError) → NvidiaError
  transaction_rollback_failed :
      (cause : NvidiaError) → (rollback_failures : List RollbackFailure) → NvidiaError

from_index : ℕ → Option PerformanceState
from_index n =
    if n == 0
    then some p0
    else if n == 1
    then some p1
    else if n == 2
    then some p2
    else if n == 3
    then some p3
    else if n == 4
    then some p4
    else if n == 5
    then some p5
    else if n == 6
    then some p6
    else if n == 7
    then some p7
    else if n == 8
    then some p8
    else if n == 9
    then some p9
    else if n == 10
    then some p10
    else if n == 11
    then some p11
    else if n == 12
    then some p12
    else if n == 13
    then some p13
    else if n == 14
    then some p14
    else if n == 15
    then some p15
    else none

-- `TryFrom<c_int> for PerformanceState`
unfoldable pub try_from : ℤ → Result NvidiaError PerformanceState
unfolding from_index
try_from (pos n) = elim (from_index n) [
  | none ↦ err (invalid_performance_state (pos n))
  | some s ↦ ok s
]
try_from (negsuc n) = err (invalid_performance_state (negsuc n))

from_index-state_index : (s : PerformanceState) → from_index (state_index s) ≡ some s
unfolding from_index
from_index-state_index p0 = refl
from_index-state_index _ = refl

-- Two states with one discriminant are the same state.
pub state_eq_sound : (s t : PerformanceState) → state_eq s t ≡ true → s ≡ t
state_eq_sound s t h = cc (
  sym (from_index-state_index s),
  ap from_index ((==_iff (state_index s) (state_index t)).0 h),
  from_index-state_index t,
)

pub state_eq_refl : (s : PerformanceState) → state_eq s s ≡ true
state_eq_refl s = (==_iff (state_index s) (state_index s)).1 refl

pub domain_eq_sound : (d e : ClockDomain) → domain_eq d e ≡ true → d ≡ e
domain_eq_sound core core h = refl
domain_eq_sound core memory h = cc
domain_eq_sound memory core h = cc
domain_eq_sound memory memory h = refl
