-- ===== src/Safety/Lease/Again.antt =====
-- An action that is asked for again while its reservation lasts.
use ghostapi.Common.{
  ℕ, ◌+◌, ◌≤◌, ◌≡◌, refl, ap, ◌∙◌, subst, true, false, Bool, ◌&&◌, List, [], ◌∷◌, ◌++◌, any,
  any-append, filter, Text, text_eq, text_eq_refl, text_eq_sound, some, ok, ok_inj, bind-elim,
  map_ok, any-find, arith,
}
use ghostapi.Safety.Types.{Env, Action, Entry, State}
use ghostapi.Safety.Scope.{ledger_key}
use ghostapi.Safety.Circuit.{is_completed}
use ghostapi.Safety.Validate.Records.{validate_ledger}
use ghostapi.Safety.Validate.Laws.{validate_ledger-inv}
use ghostapi.Safety.Store.{Store, read}
use ghostapi.Safety.Store.Laws.{mutate-Wrote}
use ghostapi.Safety.Store.Validated.{validate_state-inv}
use ghostapi.Safety.Lease.{
  Lease, has_key, is_live, reserve, prune_expired_leases, admit, admit_state,
}
use ghostapi.Safety.Lease.Laws.{admit-Admitted}
use ghostapi.Safety.Lease.Admission.{admit_state-Reserves}
use ghostapi.Safety.Lease.Done.{keys_fit, read-keys_fit}

-- An entry of an action with the key that is not pruned at a time.
abbrev held : Text → ℕ → ℕ → Entry → Bool
held key now ttl e = text_eq (ledger_key e.action) key && is_live now ttl e

module _ (env : Env) (key : Text) (now ttl : ℕ) where
  held-validated :
      (es : List Entry) {fs : List Entry}
      → map_ok (validate_ledger env) es ≡ ok fs
      → any fs (held key now ttl) ≡ any es (held key now ttl)
  unfolding is_live
  held-validated [] h = rw (← ok_inj h) refl
  held-validated (e ∷ es) h = bind-elim (validate_ledger env e) _ h λ f v h1.
      bind-elim (map_ok (validate_ledger env) es) _ h1 λ fs v' h2.
        let (action, status, at, _, _, _) = validate_ledger-inv env e v in
        rw (← ok_inj h2) (rw (held-validated es v', action, status, at) refl)

  held-read :
      (s t : State)
      → read env (some s) ≡ ok t
      → any t.ledger (held key now ttl) ≡ any s.ledger (held key now ttl)
  unfolding read
  held-read s t h =
      held-validated s.ledger (validate_state-inv env s {t = t} (ground (arith, h))).0.ledger

  held-filter :
      (es : List Entry)
      → keys_fit es ≡ true
      → any es (held key now ttl) ≡ true
      → any (filter (is_live now ttl) es) (has_key key) ≡ true
  unfolding has_key
  held-filter [] fit h = cc
  held-filter (e ∷ es) fit h =
      ground (arith, text_eq_sound e.key (ledger_key e.action), held-filter es)

admit_state-held :
    (env : Env) (a : Action) (now : ℕ) (s : State) {b : Bool} {t : State}
    → any (prune_expired_leases now env.lease_ttl_ms s).ledger (has_key (ledger_key a)) ≡ true
    → admit_state env a (ledger_key a) now s ≡ (ok b, t)
    → b ≡ true
unfolding admit_state
admit_state-held env a now s known h =
    let (e, found) =
      any-find (has_key (ledger_key a)) (prune_expired_leases now env.lease_ttl_ms s).ledger
        known in
    ground (arith, found)

held-reserve :
    (a : Action) (now later ttl : ℕ)
    → later ≤ now + ttl
    → held (ledger_key a) later ttl (reserve a now) ≡ true
unfolding is_live reserve is_completed
held-reserve a now later ttl h = ground (arith, text_eq_refl (ledger_key a))

any-last :
    (p : Entry → Bool) (es : List Entry) (e : Entry) → p e ≡ true → any (es ++ e ∷ []) p ≡ true
any-last p es e h = ground (arith, h, any-append p es (e ∷ []))

-- After an admission that made a reservation, the next one of the same action, within the length of
-- a lease, gives no lease but a replay: the action is not reserved twice.
pub admit-again :
    (env : Env) (now later : ℕ) (a : Action) (store : Store) (l m : Lease)
    → (admit env (some now) a store).0 ≡ ok l
    → l.replay ≡ false
    → later ≤ now + env.lease_ttl_ms
    → (admit env (some later) a (admit env (some now) a store).1).0 ≡ ok m
    → m.replay ≡ true
unfolding prune_expired_leases
admit-again env now later a store l m h new soon again =
    let key = ledger_key a in
    let ttl = env.lease_ttl_ms in
    let (_, _, first, same) = admit-Admitted env (some now) a store h in
    let w = mutate-Wrote env (some now) (admit_state env a key) store (first ∙ ap ok new) in
    let made = admit_state-Reserves env a key w.now w.before w.ran in
    let at : w.now ≡ now = ground (arith, w.clock_reading) in
    let (_, _, second, _) = admit-Admitted env (some later) a _ again in
    let x = mutate-Wrote env (some later) (admit_state env a key) _ second in
    let at' : x.now ≡ later = ground (arith, x.clock_reading) in
    let reservation = held-reserve a w.now x.now ttl (rw (at, at') soon) in
    let changed : any w.changed.ledger (held key x.now ttl) ≡ true = rw made.ledger (
      any-last (held key x.now ttl) (prune_expired_leases w.now env.lease_ttl_ms w.before).ledger
        (reserve a w.now) reservation) in
    let written =
      held-validated env key x.now ttl w.changed.ledger
        (validate_state-inv env w.changed w.valid).0.ledger
      ∙ changed in
    let before =
      held-read env key x.now ttl w.written x.before
        (subst (λ z. read env z ≡ ok x.before) (same ∙ w.stored) x.was_read)
      ∙ written in
    admit_state-held env a x.now x.before
      (held-filter env key x.now ttl x.before.ledger (read-keys_fit env _ x.before x.was_read)
        before)
      x.ran
