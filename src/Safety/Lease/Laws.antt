-- ===== src/Safety/Lease/Laws.antt =====
-- What an admission that gives a lease has done.
use ghostapi.Common.{ℕ, ◌≡◌, ap, ◌∙◌, sym, subst, Option, ok, ok_inj}
use ghostapi.Common.Action.{pure, continue-elim}
use ghostapi.Safety.Types.{Env, Action}
use ghostapi.Safety.Scope.{ledger_key}
use ghostapi.Safety.Validate.Records.{validate_action}
use ghostapi.Safety.Validate.Laws.{Gives-eq, validate_action-Gives}
use ghostapi.Safety.Store.{Store, mutate}
use ghostapi.Safety.Lease.{Lease, admit, admit_state}

module _ (env : Env) (clock : Option ℕ) (a : Action) (store : Store) where
  abbrev pub Admitted : Lease → Type 0
  Admitted l =
      (l.action ≡ a)
      × (l.key ≡ ledger_key a)
      × ((mutate env clock (admit_state env a (ledger_key a)) store).0 ≡ ok l.replay)
      × ((admit env clock a store).1
          ≡ (mutate env clock (admit_state env a (ledger_key a)) store).1)

  pub admit-Admitted : {l : Lease} → (admit env clock a store).0 ≡ ok l → Admitted l
  unfolding admit
  admit-Admitted {l} h = continue-elim (validate_action env a) store _ h λ b v h1 e1.
      let same : b ≡ a = Gives-eq (validate_action-Gives env a) v in
      continue-elim (mutate env clock (admit_state env b (ledger_key b)) store).0 _
        (λ replay. pure (record { action = b; key = ledger_key b; replay = replay })) h1
        λ replay m h2 e2.
          subst
            (λ x.
              (l.action ≡ x)
              × (l.key ≡ ledger_key x)
              × ((mutate env clock (admit_state env x (ledger_key x)) store).0 ≡ ok l.replay)
              × ((admit env clock a store).1
                  ≡ (mutate env clock (admit_state env x (ledger_key x)) store).1))
            same
            (
              sym (ap (λ (x : Lease). x.action) (ok_inj h2)),
              sym (ap (λ (x : Lease). x.key) (ok_inj h2)),
              m ∙ ap (λ (x : Lease). ok x.replay) (ok_inj h2),
              ap (λ r. r.1) (e1 ∙ e2),
            )
