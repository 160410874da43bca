-- ===== src/Safety/Budget/Bounds.antt =====
-- An admission never oversubscribes a budget: a statement about the store that `admit` leaves.
use ghostapi.Common.{
  ℕ, ◌≡◌, refl, sym, ap, ◌∙◌, subst, some, true, false, List, [], ◌∷◌, All, ok, map_ok, arith,
  bind-elim, ok_inj,
}
use ghostapi.Safety.Types.{Env, Action, Budget, Entry, State}
use ghostapi.Safety.Scope.{scope_matches, ledger_key}
use ghostapi.Safety.Validate.Controls.{validate_budget}
use ghostapi.Safety.Validate.Records.{validate_ledger}
use ghostapi.Safety.Validate.Laws.{validate_ledger-inv, validate_budget-Gives, map_ok-eq-ok}
use ghostapi.Safety.Budget.{CostKey}
use ghostapi.Safety.Budget.Spent.{spent, running, IsWithin, assert_budgets-IsWithin}
use ghostapi.Safety.Store.{Store}
use ghostapi.Safety.Store.Laws.{mutate-Wrote}
use ghostapi.Safety.Store.Validated.{validate_state-inv}
use ghostapi.Safety.Lease.{Lease, admit, admit_state, reserve, prune_expired_leases}
use ghostapi.Safety.Lease.Laws.{admit-Admitted}
use ghostapi.Safety.Lease.Admission.{admit_state-Reserves}

reserve-of :
    (a : Action) (now : ℕ) → ((reserve a now).action ≡ a) × ((reserve a now).admitted_at ≡ now)
unfolding reserve
reserve-of a now = (refl, refl)

module _ (env : Env) where
  -- Validation changes nothing that a budget counts.
  spent-validated :
      (k : CostKey) (b : Budget) (window_ms now : ℕ) (es : List Entry) {fs : List Entry}
      → map_ok (validate_ledger env) es ≡ ok fs
      → spent k b window_ms now fs ≡ spent k b window_ms now es
  spent-validated k b window_ms now [] h = rw (← ok_inj h) refl
  spent-validated k b window_ms now (e ∷ es) h = bind-elim (validate_ledger env e) _ h λ f v h1.
      bind-elim (map_ok (validate_ledger env) es) _ h1 λ fs v' h2.
        let (action, _, at, _, _, _) = validate_ledger-inv env e v in
        rw (← ok_inj h2) (rw (spent-validated k b window_ms now es v', action, at) refl)

  running-validated :
      (b : Budget) (now : ℕ) (es : List Entry) {fs : List Entry}
      → map_ok (validate_ledger env) es ≡ ok fs
      → running b now fs ≡ running b now es
  running-validated b now [] h = rw (← ok_inj h) refl
  running-validated b now (e ∷ es) h = bind-elim (validate_ledger env e) _ h λ f v h1.
      bind-elim (map_ok (validate_ledger env) es) _ h1 λ fs v' h2.
        let (action, status, at, _, _, _) = validate_ledger-inv env e v in
        rw (← ok_inj h2) (rw (running-validated b now es v', action, status, at) refl)

  IsWithin-validated :
      (b : Budget) (now : ℕ) (es : List Entry) {fs : List Entry}
      → map_ok (validate_ledger env) es ≡ ok fs
      → IsWithin b now es
      → IsWithin b now fs
  IsWithin-validated b now es h w = record {
    costs = λ k limit e. rw (spent-validated k b b.window_ms now es h) (w.costs k limit e);
    concurrency = λ limit e. rw (running-validated b now es h) (w.concurrency limit e);
    velocity = λ limit e.
        rw (spent-validated CostKey.requests b b.velocity_window_ms now es h) (w.velocity limit e);
  }

  All-IsWithin-validated :
      (a : Action) (now : ℕ) (es : List Entry) (bs : List Budget) {fs : List Entry}
      → map_ok (validate_ledger env) es ≡ ok fs
      → All (λ b. scope_matches b.scope a ≡ true → IsWithin b now es) bs
      → All (λ b. scope_matches b.scope a ≡ true → IsWithin b now fs) bs
  All-IsWithin-validated a now es [] h w = tt
  All-IsWithin-validated a now es (b ∷ bs) h (w, ws) =
      (λ hit. IsWithin-validated b now es h (w hit), All-IsWithin-validated a now es bs h ws)

  -- After an admission that makes a reservation at a time, every budget whose scope matches the
  -- action holds in the store: in its window each cost that it limits, the reservation's included,
  -- sums to its limit at most, and so do the running reservations and the requests of its velocity
  -- window.
  pub admit-IsWithin :
      (now : ℕ) (a : Action) (store : Store) (l : Lease)
      → (admit env (some now) a store).0 ≡ ok l
      → l.replay ≡ false
      → (s : State) × ((admit env (some now) a store).1 ≡ some s)
        × All (λ b. scope_matches b.scope a ≡ true → IsWithin b now s.ledger) s.budgets
  admit-IsWithin now a store l h new =
      let (_, _, m, same) = admit-Admitted env (some now) a store h in
      let w =
        mutate-Wrote env (some now) (admit_state env a (ledger_key a)) store (m ∙ ap ok new) in
      let r = admit_state-Reserves env a (ledger_key a) w.now w.before w.ran in
      let parts = (validate_state-inv env w.changed w.valid).0 in
      let budgets : w.written.budgets ≡ w.before.budgets =
        map_ok-eq-ok (validate_budget env) w.changed.budgets (validate_budget-Gives env)
          parts.budgets
        ∙ r.budgets in
      let at : w.now ≡ now = ground (arith, w.clock_reading) in
      let added =
        assert_budgets-IsWithin (prune_expired_leases w.now env.lease_ttl_ms w.before).ledger a
          w.now (reserve a w.now) w.before.budgets (reserve-of a w.now).0 (reserve-of a w.now).1
          r.within in
      (
        w.written,
        same ∙ w.stored,
        subst
            (λ n.
              All (λ b. scope_matches b.scope a ≡ true → IsWithin b n w.written.ledger)
                w.written.budgets)
            at
            (subst
              (λ bs.
                All (λ b. scope_matches b.scope a ≡ true → IsWithin b w.now w.written.ledger) bs)
              (sym budgets)
              (All-IsWithin-validated a w.now w.changed.ledger w.before.budgets parts.ledger (
                subst
                  (λ es.
                    All (λ b. scope_matches b.scope a ≡ true → IsWithin b w.now es)
                      w.before.budgets)
                  (sym r.ledger) added))),
      )
