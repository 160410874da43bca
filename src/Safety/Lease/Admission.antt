-- ===== src/Safety/Lease/Admission.antt =====
-- What `admit` has checked and written when it makes a reservation.
use ghostapi.Common.{
  ℕ, ◌≡◌, Text, none, false, [], ◌∷◌, ◌++◌, find, ok, arith, Bool-cases, Option-cases, inl, inr,
}
use ghostapi.Safety.Types.{Env, Action, State}
use ghostapi.Safety.Circuit.{assert_action_allowed}
use ghostapi.Safety.Budget.{assert_budgets}
use ghostapi.Safety.Frames.{append_audit-frame, assert_action_allowed-frame}
use ghostapi.Safety.Lease.{has_key, collides, reserve, prune_expired_leases, admit_new, admit_state}

-- A reservation: the state was pruned, holds no entry with the key and no other action with the
-- idempotency key, the action is allowed and fits the budgets, and one entry was added.
pub record Reserves (env : Env) (a : Action) (key : Text) (now : ℕ) (s t : State) : Type 0 where
  pub is_new : find (has_key key) (prune_expired_leases now env.lease_ttl_ms s).ledger ≡ none
  pub fits : collides a (prune_expired_leases now env.lease_ttl_ms s).ledger ≡ false
  pub is_allowed :
      (assert_action_allowed env a now (prune_expired_leases now env.lease_ttl_ms s)).0 ≡ ok tt
  pub within :
      assert_budgets (prune_expired_leases now env.lease_ttl_ms s).ledger a now s.budgets ≡ ok tt
  pub ledger : t.ledger ≡ (prune_expired_leases now env.lease_ttl_ms s).ledger ++ reserve a now ∷ []
  pub budgets : t.budgets ≡ s.budgets
  pub switches : t.switches ≡ s.switches
  pub queue : t.queue ≡ s.queue

module _ (env : Env) (a : Action) (key : Text) (now : ℕ) where
  pub admit_new-inv :
      (s : State) {t : State}
      → admit_new env a key now s ≡ (ok false, t)
      → ((assert_action_allowed env a now s).0 ≡ ok tt)
        × (assert_budgets s.ledger a now s.budgets ≡ ok tt)
        × (t.ledger ≡ s.ledger ++ reserve a now ∷ [])
        × (t.budgets ≡ s.budgets)
        × (t.switches ≡ s.switches)
        × (t.queue ≡ s.queue)
  unfolding admit_new
  admit_new-inv s h = grind (arith, assert_action_allowed-frame env a now s, append_audit-frame)

  pub admit_state-Reserves :
      (s : State) {t : State}
      → admit_state env a key now s ≡ (ok false, t)
      → Reserves env a key now s t
  unfolding admit_state
  admit_state-Reserves s {t} h =
      let p = prune_expired_leases now env.lease_ttl_ms s in
      elim (Bool-cases (collides a p.ledger)) [
        | inl e ↦ absurd (ground (arith, e))
        | inr e ↦ elim (Option-cases (find (has_key key) p.ledger)) [
          | inr (x, k) ↦ absurd (ground (arith, e, k))
          | inl k ↦
              let (allowed, within, ledger, budgets, switches, queue) =
                admit_new-inv p {t = t} (ground (arith, e, k)) in
              record {
                is_new = k;
                fits = e;
                is_allowed = allowed;
                within = within;
                ledger = ledger;
                budgets = budgets;
                switches = switches;
                queue = queue;
              }
        ]
      ]
