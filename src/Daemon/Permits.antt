-- ===== src/Daemon/Permits.antt =====
-- src/daemon.rs: `ClientPermit`, the bound on concurrent clients over an atomic counter.
use asense.Base.{
  leb, ◌==◌, if◌then◌else◌, Bool-cases, ℕ, suc, ◌+◌, ◌-◌, ◌≤◌, ◌≡◌, inl, inr, Bool, not, ◌&&◌,
  arith,
}

-- `MAX_CONTROL_CLIENTS`
abbrev pub max_control_clients : ℕ
max_control_clients = 8

-- one round of the loop of `acquire`: it ends, or it goes on with the value that it observed
pub data Round : Type 0 where
  refused acquired : Round
  observed_count : ℕ → Round

-- The round for the `count` loaded before, which the counter may have left since. A weak exchange may
-- also fail for no reason.
unfoldable pub acquire_round : (count active : ℕ) → (spurious : Bool) → Round × ℕ
acquire_round count active spurious =
    if leb max_control_clients count
    then (refused, active)
    else if active == count && not spurious
    then (acquired, count + 1)
    else (observed_count active, active)

-- `fetch_sub(1)` on a word of 64 bits
abbrev pub fetch_sub_one : ℕ → ℕ
fetch_sub_one active = if active == 0 then 18446744073709551615 else active - 1

-- the counter, and how many permits are held
pub record Permits : Type 0 where
  pub active : ℕ
  pub holding : ℕ

abbrev pub after_round : Round × ℕ → Permits → Permits
after_round (acquired, active) s = record { active = active; holding = s.holding + 1 }
after_round (_, active) s = record { active = active; holding = s.holding }

-- A round of any client, with any count that it loaded at any time, or a drop of a permit that is held.
pub data PermitStep : Permits → Permits → Type 0 where
  tried :
      (count : ℕ) (spurious : Bool) (s : Permits)
      → PermitStep s (after_round (acquire_round count s.active spurious) s)
  dropped :
      (active holding : ℕ)
      → PermitStep
          (record { active = active; holding = suc holding })
          (record { active = fetch_sub_one active; holding = holding })

pub data PermitRun : Permits → Permits → Type 0 where
  no_step : (s : Permits) → PermitRun s s
  then_step : {a b c : Permits} → PermitRun a b → PermitStep b c → PermitRun a c

-- the counter counts the permits, and there are at most eight of them
abbrev pub IsCounted : Permits → Type 0
IsCounted s = (s.active ≡ s.holding) × (s.holding ≤ max_control_clients)

tried-IsCounted :
    (count : ℕ) (spurious : Bool) (s : Permits)
    → IsCounted s
    → IsCounted (after_round (acquire_round count s.active spurious) s)
unfolding acquire_round
tried-IsCounted count spurious s h = elim (Bool-cases (leb max_control_clients count)) [
  | inl e ↦ rw e h
  | inr e ↦ elim (Bool-cases (s.active == count && not spurious)) [
    | inl f ↦ rw (e, f) (ground (arith, h, e, f))
    | inr f ↦ rw (e, f) h
  ]
]

dropped-IsCounted :
    (active holding : ℕ)
    → IsCounted (record { active = active; holding = suc holding })
    → IsCounted (record { active = fetch_sub_one active; holding = holding })
dropped-IsCounted active holding h = ground (arith, h)

-- Over any interleaving of acquisition rounds, with counts however stale, and drops: the counter is
-- the number of permits held, and that is at most eight.
pub PermitRun-IsCounted : (s s' : Permits) → PermitRun s s' → IsCounted s → IsCounted s'
PermitRun-IsCounted s _ (no_step _) h = h
PermitRun-IsCounted s s' (then_step before last) h =
    stepped _ _ last (PermitRun-IsCounted _ _ before h)
  where
    stepped : (b c : Permits) → PermitStep b c → IsCounted b → IsCounted c
    stepped b _ (tried count spurious _) h = tried-IsCounted count spurious b h
    stepped _ _ (dropped active holding) h = dropped-IsCounted active holding h
