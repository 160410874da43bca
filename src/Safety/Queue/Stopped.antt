-- ===== src/Safety/Queue/Stopped.antt =====
-- What `stop` does to the queue, and when it cannot.
use ghostapi.Common.{
  ℕ, ◌<◌, ◌≡◌, refl, ap, sym, ◌∙◌, subst, Text, lit, Bool, true, not, List, [], ◌∷◌, ◌++◌, filter,
  any, length, length-append, Option, some, trim, Result, ok, err, Failure, ok_inj, arith,
  Bool-cases, Result-cases, inl, inr,
}
use ghostapi.Common.Action.{bind-eq-ok}
use ghostapi.Safety.Types.{Env, Scope, QueueItem, State, Operator, Permission}
use ghostapi.Safety.Scope.{scope_matches, scope_key}
use ghostapi.Safety.Validate.{text}
use ghostapi.Safety.Validate.Laws.{text-long, text-Gives, validate_scope-Gives}
use ghostapi.Safety.Store.Laws.{mutate-refused}
use ghostapi.Safety.Store.{Store, read, authorize}
use ghostapi.Safety.Operator.{
  set_switch, add_dead_letter, dead_letter_from, dead_letter_matching_queued, stop_state, stop,
}
use ghostapi.Safety.Frames.{append_audit-frame, add_dead_letter-frame}

abbrev pub remains : Scope → QueueItem → Bool
remains scope item = not (scope_matches scope item.action)

module _ (env : Env) (scope : Scope) (reason : Text) (now : ℕ) where
  dead_letter_from-queue :
      (items : List QueueItem) (s : State)
      → (dead_letter_from env scope reason now items s).1.queue ≡ s.queue
  unfolding dead_letter_from
  dead_letter_from-queue [] s = refl
  dead_letter_from-queue (item ∷ items) s =
      grind (arith, append_audit-frame, add_dead_letter-frame, dead_letter_from-queue items)

  dead_letter_from-filter :
      (items : List QueueItem) (s : State) {rest : List QueueItem}
      → (dead_letter_from env scope reason now items s).0 ≡ ok rest
      → rest ≡ filter (remains scope) items
  unfolding dead_letter_from
  dead_letter_from-filter [] s h = sym (ok_inj h)
  dead_letter_from-filter (item ∷ items) s h = grind (arith, dead_letter_from-filter items)

  dead_letter_matching_queued-filter :
      (s : State) {t : State}
      → dead_letter_matching_queued env scope reason now s ≡ (ok tt, t)
      → t.queue ≡ filter (remains scope) s.queue
  unfolding dead_letter_matching_queued
  dead_letter_matching_queued-filter s h =
      let (rest, e, k) =
        bind-eq-ok (dead_letter_from env scope reason now s.queue s).0
          (dead_letter_from env scope reason now s.queue s).1 _ h in
      sym (ap (λ r. r.1.queue) k) ∙ dead_letter_from-filter s.queue s e

set_switch-queue :
    (scope : Scope) (reason principal : Text) (now : ℕ) (s : State)
    → (set_switch scope true reason principal now s).1.queue ≡ s.queue
unfolding set_switch
set_switch-queue scope reason principal now s = ground arith

-- A stop leaves exactly the queued actions that are not in its scope, in their order.
pub stop_state-queue :
    (env : Env) (scope : Scope) (reason principal : Text) (now : ℕ) (s t : State)
    → stop_state env scope reason principal now s ≡ (ok tt, t)
    → t.queue ≡ filter (remains scope) s.queue
unfolding stop_state
stop_state-queue env scope reason principal now s t h =
    let first = set_switch scope true reason principal now s in
    let (_, _, h1) = bind-eq-ok first.0 first.1 _ h in
    let second = dead_letter_matching_queued env scope reason now first.1 in
    let (_, e, h2) = bind-eq-ok second.0 second.1 _ h1 in
    let audited =
      append_audit-frame env (lit "kill_switch.stopped") (scope_key scope) reason now
        (some principal) second.1 in
    sym (ap (λ r. r.1.queue) h2)
    ∙ ap (λ (x : State). x.queue) audited
    ∙ dead_letter_matching_queued-filter env scope reason now first.1 {t = second.1} (ground arith)
    ∙ ap (filter (remains scope)) (set_switch-queue scope reason principal now s)

length-lit : length (lit "kill switch: ") ≡ 13
unfolding lit
length-lit = refl

-- The text of a dead letter is too long for the reasons that `stop` accepts at their longest.
dead_letter_text :
    (env : Env) (reason label : Text)
    → 187 < length reason
    → (e : Failure) × (text env (lit "kill switch: " ++ reason) label 200 ≡ err e)
dead_letter_text env reason label h =
    text-long env (lit "kill switch: " ++ reason) label 200
      (omega (arith, h, length-append (lit "kill switch: ") reason, length-lit))

module _ (env : Env) (scope : Scope) (reason : Text) (now : ℕ) (long : 187 < length reason) where
  dead_letter_from-refused :
      (items : List QueueItem) (s : State)
      → any items (λ i. scope_matches scope i.action) ≡ true
      → (e : Failure) × ((dead_letter_from env scope reason now items s).0 ≡ err e)
  unfolding dead_letter_from add_dead_letter
  dead_letter_from-refused [] s h = cc
  dead_letter_from-refused (item ∷ items) s h =
      elim (Bool-cases (scope_matches scope item.action)) [
        | inl e ↦
            let (f, x) = dead_letter_text env reason (lit "Safety dead-letter reason") long in
            (f, ground (arith, e, x))
        | inr e ↦
            let (f, x) = dead_letter_from-refused items s (ground (arith, e)) in
            (f, ground (arith, e, x))
      ]

  stop_state-refused :
      (principal : Text) (s : State)
      → any s.queue (λ i. scope_matches scope i.action) ≡ true
      → (e : Failure) × ((stop_state env scope reason principal now s).0 ≡ err e)
  unfolding stop_state dead_letter_matching_queued
  stop_state-refused principal s h =
      let first = set_switch scope true reason principal now s in
      let same = set_switch-queue scope reason principal now s in
      let (f, x) = dead_letter_from-refused first.1.queue first.1 (rw same h) in
      elim (Result-cases first.0) [
        | inr (g, k) ↦ (g, ground (arith, k))
        | inl (_, k) ↦ (f, ground (arith, k, x))
      ]

-- With a reason of more than 187 characters (the limit is 200) a stop throws and writes nothing
-- whenever an action in its scope is queued: the kill switch does not become active.
pub stop-refused :
    (env : Env) (identity : Result Operator) (clock : Option ℕ) (scope : Scope) (reason : Text)
    (store : Store) (s : State)
    → read env store ≡ ok s
    → 187 < length (trim reason)
    → any s.queue (λ i. scope_matches scope i.action) ≡ true
    → (e : Failure) × (stop env identity clock scope reason store ≡ (err e, store))
unfolding stop
stop-refused env identity clock scope reason store s e long queued =
    elim (Result-cases (authorize env identity Permission.stop)) [
      | inr (f, k) ↦ (f, ground (arith, k))
      | inl (operator, k) ↦ elim (validate_scope-Gives env scope) [
        | inr (f, v) ↦ (f, ground (arith, k, v))
        | inl v ↦ elim (text-Gives env reason (lit "Kill-switch reason") 200) [
          | inr (f, x) ↦ (f, ground (arith, k, v, x))
          | inl x ↦
              let (f, y) =
                mutate-refused env clock (stop_state env scope (trim reason) operator.principal_id)
                  store
                  (λ now t r.
                    stop_state-refused env scope (trim reason) now long operator.principal_id t (
                      subst (λ z. any z.queue (λ i. scope_matches scope i.action) ≡ true)
                        (ok_inj (sym e ∙ r)) queued)) in
              (f, ground (arith, k, v, x, y))
        ]
      ]
    ]
