-- ===== src/Daemon/Interleaving.antt =====
-- The lease of the fans over any interleaving of the turns of any number of clients.
use asense.Base.{
  ◌==◌, ==_iff, ℕ, ◌≡◌, refl, Bool, true, false, Option, none, some, arith, Bool-cases, inl, inr,
  if◌then◌else◌, not, List, ◌∙◌, ◌⊎◌,
}
use asense.Base.Text.{Bytes, fields}
use asense.Result.{ok, Result-cases}
use asense.Hardware.{set_automatic}
use asense.Daemon.{
  FanControl, FanSessionState, response_delivered, requires_auto_on_disconnect, automatic_session,
  recognise, changes_fans, safety_override, FanCommand, fan_manual, begins_mutation, fan_auto,
  fan_maximum, other_command, profile_command,
}
use asense.Daemon.Serve.{
  release_unleased_fans, Shared, poll, deliver, update, claim_fan_command, serve_command,
  reset_fans, disconnect, run_claimed, Turn, Turns, polled, commanded, delivered, disconnected,
  at_rest, then_turn,
}
use asense.Daemon.Leases.{
  Lawful, Held, enforce_thermal_watchdog-Holds, execute_command-Holds, execute_command-other,
}

module _ (control : FanControl) (lawful : Lawful control) where
  open control use {World}
  open lawful use {under_manual}

  -- without an owner the fans are not under manual control; with one, its session brings them back
  abbrev Covered : Option ℕ → (ℕ → FanSessionState) → World → Type 0
  Covered none sessions w = under_manual w ≡ false
  Covered (some client) sessions w = Held control lawful (sessions client) w

  abbrev pub IsLeased : Shared World → Type 0
  IsLeased d = Covered d.fan_owner d.sessions d.world

  abbrev state : Option ℕ → (ℕ → FanSessionState) → World → Shared World
  state owner sessions w = record { fan_owner = owner; sessions = sessions; world = w }

  -- the owner's own session, and another one
  own-Covered :
      (client owner : ℕ) (s : FanSessionState) (sessions : ℕ → FanSessionState) (w : World)
      → owner == client ≡ true
      → Held control lawful s w
      → Covered (some owner) (update client s sessions) w
  own-Covered client owner s sessions w e h = rw e h

  foreign-Covered :
      (client owner : ℕ) (s : FanSessionState) (sessions : ℕ → FanSessionState) (w : World)
      → owner == client ≡ false
      → Held control lawful (sessions owner) w
      → Covered (some owner) (update client s sessions) w
  foreign-Covered client owner s sessions w e h = rw e h

  owner-Held :
      (client owner : ℕ) (sessions : ℕ → FanSessionState) (w : World)
      → owner == client ≡ true
      → Held control lawful (sessions owner) w
      → Held control lawful (sessions client) w
  owner-Held client owner sessions w e h =
      let same : client ≡ owner = ground (arith, e) in rw same h

  poll-IsLeased :
      (client : ℕ) (owner : Option ℕ) (sessions : ℕ → FanSessionState) (w : World)
      → Covered owner sessions w
      → IsLeased (poll control client (state owner sessions w)).1
  unfolding poll
  poll-IsLeased client none sessions w h =
      elim (Bool-cases (requires_auto_on_disconnect (sessions client))) [
        | inl e ↦ rw e h
        | inr e ↦ rw e h
      ]
  poll-IsLeased client (some owner) sessions w h = elim (Bool-cases (owner == client)) [
    | inl e ↦ rw e (
        own-Covered client owner _ sessions _ e (
          enforce_thermal_watchdog-Holds control lawful (sessions client) w
            (owner-Held client owner sessions w e h)))
    | inr e ↦ elim (Bool-cases (requires_auto_on_disconnect (sessions client))) [
      | inl f ↦ rw (e, f) (foreign-Covered client owner automatic_session sessions w e h)
      | inr f ↦ rw (e, f) h
    ]
  ]

  response_delivered-Held :
      (succeeded : Bool) (s : FanSessionState) (w : World)
      → Held control lawful s w
      → Held control lawful (if succeeded then response_delivered s else s) w
  response_delivered-Held true s w h = ground (arith, h)
  response_delivered-Held false s w h = h

  unbound :
      (s : FanSessionState) (w : World)
      → Held control lawful s w
      → requires_auto_on_disconnect s ≡ false
      → under_manual w ≡ false
  unbound s w h e = ground (arith, h, e)

  released-Covered :
      (client owner : ℕ) (s : FanSessionState) (sessions : ℕ → FanSessionState) (w : World)
      → owner == client ≡ true
      → Held control lawful s w
      → Covered
          (if not (requires_auto_on_disconnect s) then none else some owner)
          (update client s sessions)
          w
  released-Covered client owner s sessions w e h =
      elim (Bool-cases (requires_auto_on_disconnect s)) [
        | inl f ↦ rw f (own-Covered client owner s sessions w e h)
        | inr f ↦ rw f (unbound s w h f)
      ]

  deliver-IsLeased :
      (client : ℕ) (succeeded : Bool) (owner : Option ℕ) (sessions : ℕ → FanSessionState)
      (w : World)
      → Covered owner sessions w
      → IsLeased (deliver control client succeeded (state owner sessions w))
  unfolding deliver release_unleased_fans
  deliver-IsLeased client succeeded none sessions w h = h
  deliver-IsLeased client succeeded (some owner) sessions w h =
      elim (Bool-cases (owner == client)) [
        | inr e ↦ rw e h
        | inl e ↦ rw e (
            released-Covered client owner _ sessions w e (
              response_delivered-Held succeeded (sessions client) w
                (owner-Held client owner sessions w e h)))
      ]

  reset_fans-applied :
      (w : World) → (reset_fans control w).0 ≡ ok tt → under_manual (reset_fans control w).1 ≡ false
  unfolding reset_fans
  reset_fans-applied w h = elim (Result-cases (control.acquire w).0) [
    | inr (x, e) ↦ ground (arith, h, e)
    | inl (u, e) ↦ elim (Result-cases (control.refreshed (control.acquire w).1).0) [
      | inr (x, f) ↦ ground (arith, h, e, f)
      | inl (v, f) ↦
          rw (e, f)
            (lawful.applied set_automatic (control.refreshed (control.acquire w).1).1
              (ground (arith, h, e, f)))
    ]
  ]

  disconnect-IsLeased :
      (client : ℕ) (owner : Option ℕ) (sessions : ℕ → FanSessionState) (w : World)
      → Covered owner sessions w
      → (disconnect control client (state owner sessions w)).0 ≡ ok tt
      → IsLeased (disconnect control client (state owner sessions w)).1
  unfolding disconnect
  disconnect-IsLeased client none sessions w h done = h
  disconnect-IsLeased client (some owner) sessions w h done = elim (Bool-cases (owner == client)) [
    | inr e ↦ rw e h
    | inl e ↦ elim (Bool-cases (requires_auto_on_disconnect (sessions client))) [
      | inl f ↦ rw (e, f) (reset_fans-applied w (ground (arith, done, e, f)))
      | inr f ↦ rw (e, f) (unbound (sessions client) w (owner-Held client owner sessions w e h) f)
    ]
  ]

  -- what a claim that was granted says of the session before the command
  abbrev Granted : ℕ → FanCommand → Option ℕ → Option ℕ → (ℕ → FanSessionState) → World → Type 0
  Granted client command owner owner' sessions w =
      ((command ≡ other_command) × (owner' ≡ owner))
      ⊎ ((owner' ≡ some client)
          × (begins_mutation command ≡ false → Held control lawful (sessions client) w))

  claim_fan_command-Granted :
      (client : ℕ) (command : FanCommand) (owner owner' : Option ℕ) (sessions : ℕ → FanSessionState)
      (w : World)
      → Covered owner sessions w
      → claim_fan_command client command owner ≡ ok owner'
      → Granted client command owner owner' sessions w
  unfolding claim_fan_command changes_fans safety_override begins_mutation
  claim_fan_command-Granted client other_command owner owner' sessions w h e =
      inl (refl, ground (arith, e))
  claim_fan_command-Granted client fan_auto owner owner' sessions w h e =
      inr (ground (arith, e), λ b. ground (arith, b))
  claim_fan_command-Granted client fan_maximum owner owner' sessions w h e =
      inr (ground (arith, e), λ b. ground (arith, b))
  claim_fan_command-Granted client (fan_manual cpu gpu) owner owner' sessions w h e =
      inr (ground (arith, e), λ b. ground (arith, b))
  claim_fan_command-Granted client (profile_command name) none owner' sessions w h e =
      inr (ground (arith, e), λ b. ground (arith, h))
  claim_fan_command-Granted client (profile_command name) (some owner) owner' sessions w h e =
      elim (Bool-cases (owner == client)) [
        | inl same ↦ inr (ground (arith, e, same), λ b. owner-Held client owner sessions w same h)
        | inr differs ↦ ground (arith, e, differs)
      ]

  run_claimed-IsLeased :
      (client : ℕ) (fields : List Bytes) (owner owner' : Option ℕ) (sessions : ℕ → FanSessionState)
      (w : World)
      → Covered owner sessions w
      → Granted client (recognise fields) owner owner' sessions w
      → IsLeased (run_claimed control client fields (ok owner') (state owner sessions w)).1
  unfolding run_claimed
  run_claimed-IsLeased client fields owner owner' sessions w h (inr (e, held)) = rw e (
      own-Covered client client _ sessions _ ((==_iff client client).1 refl)
        (execute_command-Holds control lawful fields (sessions client) w held))
  run_claimed-IsLeased client fields none owner' sessions w h (inl (c, e)) =
      rw e ((execute_command-other control lawful fields (sessions client) w c).1 ∙ h)
  run_claimed-IsLeased client fields (some owner) owner' sessions w h (inl (c, e)) =
      let (s, m) = execute_command-other control lawful fields (sessions client) w c in
      elim (Bool-cases (owner == client)) [
        | inl same ↦ rw (e, same) (rw s (rw m (owner-Held client owner sessions w same h)))
        | inr differs ↦ rw (e, differs) (rw m h)
      ]

  serve_command-IsLeased :
      (client : ℕ) (fields : List Bytes) (owner : Option ℕ) (sessions : ℕ → FanSessionState)
      (w : World)
      → Covered owner sessions w
      → IsLeased (serve_command control client fields (state owner sessions w)).1
  unfolding serve_command run_claimed
  serve_command-IsLeased client fields owner sessions w h =
      elim (Result-cases (claim_fan_command client (recognise fields) owner)) [
        | inr (x, e) ↦ rw e h
        | inl (owner', e) ↦ rw e (
            run_claimed-IsLeased client fields owner owner' sessions w h
              (claim_fan_command-Granted client (recognise fields) owner owner' sessions w h e))
      ]

  -- For hardware whose settings are in force once they are applied: over any interleaving of polls,
  -- commands, deliveries and disconnections of any number of clients, fans under manual control have
  -- an owner whose session is pending, manual or in its emergency state, so that its end brings them
  -- back to Automatic; a disconnection whose cleanup fails is not one of these turns.
  pub Turns-IsLeased : (d d' : Shared World) → Turns control d d' → IsLeased d → IsLeased d'
  Turns-IsLeased d _ (at_rest _) h = h
  Turns-IsLeased d d' (then_turn before last) h = turned _ _ last (Turns-IsLeased _ _ before h)
    where
      turned : (b c : Shared World) → Turn control b c → IsLeased b → IsLeased c
      turned b _ (polled client _) h = poll-IsLeased client b.fan_owner b.sessions b.world h
      turned b _ (commanded client fields _) h =
          serve_command-IsLeased client fields b.fan_owner b.sessions b.world h
      turned b _ (delivered client succeeded _) h =
          deliver-IsLeased client succeeded b.fan_owner b.sessions b.world h
      turned b _ (disconnected client _ done) h =
          disconnect-IsLeased client b.fan_owner b.sessions b.world h done
