-- ===== src/Daemon/Serve.antt =====
-- src/daemon.rs: `DaemonRuntime` and `serve_client`: what each turn of a client does under the
-- runtime lock. The local state of every client stands beside the shared state. The reconciliation of
-- NVIDIA offsets that runs at the start of a turn is left out: it sets no fan.
use asense.Base.{◌==◌, if◌then◌else◌, ℕ, Bool, false, not, ◌&&◌, Option, none, some, ◌≡◌, List}
use asense.Base.Text.{Bytes, codes, fields}
use asense.Result.{Result, ok, err}
use asense.Exec.{Exec, ◌>>◌}
use asense.Hardware.{set_automatic}
use asense.Daemon.{
  FanControl, FanSessionState, requires_auto_on_disconnect, FanCommand, changes_fans,
  safety_override, response_delivered, recognise, automatic_session,
}
use asense.Daemon.Session.{Local, execute_command, enforce_thermal_watchdog}

abbrev pub owned_by : ℕ → Option ℕ → Bool
owned_by client none = false
owned_by client (some owner) = owner == client

-- owned, but not by the client
abbrev pub owned_by_other : ℕ → Option ℕ → Bool
owned_by_other client none = false
owned_by_other client (some owner) = not (owner == client)

unfoldable pub claim_fan_command : ℕ → FanCommand → Option ℕ → Result Bytes (Option ℕ)
claim_fan_command client command owner =
    if not (changes_fans command)
    then ok owner
    else if owned_by_other client owner && not (safety_override command)
    then err
        (codes "another client owns manual fan control; Auto or Maximum can safely override it")
    else ok (some client)

unfoldable pub release_unleased_fans : ℕ → FanSessionState → Option ℕ → Option ℕ
release_unleased_fans client s owner =
    if owned_by client owner && not (requires_auto_on_disconnect s) then none else owner

abbrev pub update : ℕ → FanSessionState → (ℕ → FanSessionState) → ℕ → FanSessionState
update client s sessions c = if c == client then s else sessions c

-- the runtime, and the `fan_session` of every client
pub record Shared (W : Type 0) : Type 0 where
  pub fan_owner : Option ℕ
  pub sessions : ℕ → FanSessionState
  pub world : W

module _ (control : FanControl) where
  open control use {World, acquire, refreshed, apply_fan_setting}

  abbrev pub set_owner : Option ℕ → Shared World → Shared World
  set_owner owner d = record d { fan_owner = owner }

  abbrev pub put : ℕ → Local control → Shared World → Shared World
  put client (s, w) d = record {
    fan_owner = d.fan_owner;
    sessions = update client s d.sessions;
    world = w;
  }

  abbrev pub in_session :
      {A : Type 0} → ℕ → Exec (Local control) Bytes A → Exec (Shared World) Bytes A
  in_session client m d = let (r, l) = m (d.sessions client, d.world) in (r, put client l d)

  -- the top of the loop: the watchdog of the owner; a lease that was revoked is given up
  unfoldable pub poll : ℕ → Exec (Shared World) Bytes Unit
  poll client d =
      if owned_by client d.fan_owner
      then in_session client (enforce_thermal_watchdog control) d
      else if requires_auto_on_disconnect (d.sessions client)
      then (ok tt, put client (automatic_session, d.world) d)
      else (ok tt, d)

  -- `claim.and_then(execute)`
  unfoldable pub run_claimed :
      ℕ → List Bytes → Result Bytes (Option ℕ) → Exec (Shared World) Bytes Bytes
  run_claimed client fields (err e) d = (err e, d)
  run_claimed client fields (ok owner) d =
      in_session client (execute_command control fields) (set_owner owner d)

  unfoldable pub serve_command : ℕ → List Bytes → Exec (Shared World) Bytes Bytes
  serve_command client fields d =
      run_claimed client fields (claim_fan_command client (recognise fields) d.fan_owner) d

  -- after the response has been written
  unfoldable pub deliver : ℕ → Bool → Shared World → Shared World
  deliver client succeeded d =
      let s = if succeeded then response_delivered (d.sessions client) else d.sessions client in
      if owned_by client d.fan_owner
      then record {
        fan_owner = release_unleased_fans client s d.fan_owner;
        sessions = update client s d.sessions;
        world = d.world;
      }
      else d

  unfoldable pub reset_fans : Exec World Bytes Unit
  reset_fans = do acquire; refreshed; apply_fan_setting set_automatic

  -- the cleanup after the loop
  unfoldable pub disconnect : ℕ → Exec (Shared World) Bytes Unit
  unfolding reset_fans
  disconnect client d =
      if owned_by client d.fan_owner
      then if requires_auto_on_disconnect (d.sessions client)
        then (let (r, w) = reset_fans d.world in
            (r, record { fan_owner = none; sessions = d.sessions; world = w }))
        else (ok tt, set_owner none d)
      else (ok tt, d)

  -- One turn of one client. A disconnection whose cleanup fails is left out: the owner is cleared all
  -- the same, and the fans may still be under manual control.
  pub data Turn : Shared World → Shared World → Type 0 where
    polled : (client : ℕ) (d : Shared World) → Turn d (poll client d).1
    commanded :
        (client : ℕ) (fields : List Bytes) (d : Shared World)
        → Turn d (serve_command client fields d).1
    delivered :
        (client : ℕ) (succeeded : Bool) (d : Shared World) → Turn d (deliver client succeeded d)
    disconnected :
        (client : ℕ) (d : Shared World)
        → (disconnect client d).0 ≡ ok tt
        → Turn d (disconnect client d).1

  -- any interleaving of turns
  pub data Turns : Shared World → Shared World → Type 0 where
    at_rest : (d : Shared World) → Turns d d
    then_turn : {a b c : Shared World} → Turns a b → Turn b c → Turns a c
