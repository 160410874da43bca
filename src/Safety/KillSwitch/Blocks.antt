-- ===== src/Safety/KillSwitch/Blocks.antt =====
-- An action in the scope of an active kill switch is refused by every check.
use ghostapi.Common.{
  ℕ, ◌≡◌, refl, Bool, true, ◌&&◌, List, [], ◌∷◌, any, any-find, Text, ok, err, arith, Bool-cases,
  inl, inr, and_left, and_right,
}
use ghostapi.Safety.Types.{Env, Scope, Action, Switch, State}
use ghostapi.Safety.Scope.{scope_matches, same_scope, same_scope_sound}
use ghostapi.Safety.Circuit.{stops, kill_switch_error, assert_not_stopped, assert_action_allowed}
use ghostapi.Safety.Lease.{admit_state, admit_new, prune_expired_leases}

-- An active switch of this very scope.
abbrev pub is_active : Scope → Switch → Bool
is_active scope c = same_scope c.scope scope && c.enabled

unfoldable pub IsStopped : Scope → State → Type 0
IsStopped scope s = any s.switches (is_active scope) ≡ true

module _ (scope : Scope) (a : Action) (matches : scope_matches scope a ≡ true) where
  stops_of_active : (c : Switch) → is_active scope c ≡ true → stops a c ≡ true
  unfolding stops
  stops_of_active c h =
      rw (and_right (same_scope c.scope scope) c.enabled h)
        (rw (same_scope_sound c.scope scope (and_left _ _ h)) matches)

  any-stops : (cs : List Switch) → any cs (is_active scope) ≡ true → any cs (stops a) ≡ true
  any-stops [] h = cc
  any-stops (c ∷ cs) h = elim (Bool-cases (is_active scope c)) [
    | inl e ↦ rw (stops_of_active c e) refl
    | inr e ↦ ground (arith, any-stops cs)
  ]

  module _ (env : Env) where
    -- The check of an action fails with the error of a kill switch, and writes nothing.
    pub assert_action_allowed-stopped :
        (now : ℕ) (s : State)
        → IsStopped scope s
        → (c : Switch) × (assert_action_allowed env a now s ≡ (err (kill_switch_error c), s))
    unfolding assert_action_allowed assert_not_stopped IsStopped
    assert_action_allowed-stopped now s h =
        let (c, e) = any-find (stops a) s.switches (any-stops s.switches h) in
        (c, rw (e, assert_not_stopped) refl)

    -- Admission can only replay an earlier one.
    pub admit_state-stopped :
        (key : Text) (now : ℕ) (s : State) {replay : Bool} {t : State}
        → IsStopped scope s
        → admit_state env a key now s ≡ (ok replay, t)
        → replay ≡ true
    unfolding admit_state admit_new IsStopped
    admit_state-stopped key now s h e =
        ground
          (arith, assert_action_allowed-stopped now (prune_expired_leases now env.lease_ttl_ms s))
