-- ===== src/Safety/Lease/Done.antt =====
-- A completed entry of the ledger stays, and its action is not performed again.
use ghostapi.Common.{
  ℕ, ◌≡◌, refl, sym, ap, ◌∙◌, Bool, true, false, ◌&&◌, List, [], ◌∷◌, ◌++◌, any, find, filter,
  update_first, map_ok, Text, text_eq, text_eq_refl, text_eq_sound, none, some, ok, arith,
  bind-elim, ok_inj, Bool-cases, inl, inr, if◌then◌else◌,
}
use ghostapi.Safety.Types.{Env, Action, Entry, Outcome, State}
use ghostapi.Safety.Scope.{ledger_key}
use ghostapi.Safety.Circuit.{is_completed}
use ghostapi.Safety.Validate.Records.{validate_ledger}
use ghostapi.Safety.Validate.Laws.{validate_ledger-inv}
use ghostapi.Safety.Store.{Store, read, empty_state}
use ghostapi.Safety.Store.Laws.{Survives}
use ghostapi.Safety.Store.Validated.{validate_state-inv}
use ghostapi.Safety.Lease.{has_key, is_live, reserve, complete_entry}

-- The entry that the key finds is completed.
abbrev pub is_done : Text → List Entry → Bool
is_done key [] = false
is_done key (e ∷ es) = if text_eq e.key key then is_completed e.status else is_done key es

-- The keys are those of the actions.
abbrev pub keys_fit : List Entry → Bool
keys_fit [] = true
keys_fit (e ∷ es) = text_eq e.key (ledger_key e.action) && keys_fit es

pub is_done-filter :
    (key : Text) (now ttl : ℕ) (es : List Entry)
    → is_done key es ≡ true
    → is_done key (filter (is_live now ttl) es) ≡ true
unfolding is_live
is_done-filter key now ttl [] h = cc
is_done-filter key now ttl (e ∷ es) h = ground (arith, is_done-filter key now ttl es)

pub is_done-append :
    (key : Text) (es fs : List Entry) → is_done key es ≡ true → is_done key (es ++ fs) ≡ true
is_done-append key [] fs h = cc
is_done-append key (e ∷ es) fs h = ground (arith, is_done-append key es fs)

pub is_done-update :
    (key other : Text) (outcome : Outcome) (now : ℕ) (es : List Entry)
    → is_done key es ≡ true
    → is_done key (update_first (has_key other) (complete_entry outcome now) es) ≡ true
unfolding has_key complete_entry is_completed
is_done-update key other outcome now [] h = cc
is_done-update key other outcome now (e ∷ es) h =
    ground (arith, is_done-update key other outcome now es)

-- What completing an entry does.
pub is_done_complete :
    (key : Text) (outcome : Outcome) (now : ℕ) (es : List Entry)
    → any es (has_key key) ≡ true
    → is_done key (update_first (has_key key) (complete_entry outcome now) es) ≡ true
unfolding has_key complete_entry is_completed
is_done_complete key outcome now [] h = cc
is_done_complete key outcome now (e ∷ es) h = ground (arith, is_done_complete key outcome now es)

pub is_done-find :
    (key : Text) (es : List Entry)
    → is_done key es ≡ true
    → (e : Entry) × (find (has_key key) es ≡ some e) × (is_completed e.status ≡ true)
unfolding has_key
is_done-find key [] h = cc
is_done-find key (e ∷ es) h = elim (Bool-cases (text_eq e.key key)) [
  | inl k ↦ (e, rw k refl, ground (arith, k))
  | inr k ↦ let (f, x, y) = is_done-find key es (ground (arith, k)) in (f, rw k x, y)
]

pub is_done-status :
    (key : Text) (es : List Entry) {e : Entry}
    → find (has_key key) es ≡ some e
    → is_done key es ≡ is_completed e.status
unfolding has_key
is_done-status key [] h = cc
is_done-status key (f ∷ es) {e} h = elim (Bool-cases (text_eq f.key key)) [
  | inl k ↦ ground (arith, k)
  | inr k ↦ rw k (is_done-status key es {e = e} (rw k at h))
]

pub keys_fit-filter :
    (now ttl : ℕ) (es : List Entry)
    → keys_fit es ≡ true
    → keys_fit (filter (is_live now ttl) es) ≡ true
keys_fit-filter now ttl [] h = refl
keys_fit-filter now ttl (e ∷ es) h = ground (arith, keys_fit-filter now ttl es)

pub keys_fit-reserve :
    (a : Action) (now : ℕ) (es : List Entry)
    → keys_fit es ≡ true
    → keys_fit (es ++ reserve a now ∷ []) ≡ true
unfolding reserve
keys_fit-reserve a now [] h = rw (text_eq_refl (ledger_key a)) refl
keys_fit-reserve a now (e ∷ es) h = ground (arith, keys_fit-reserve a now es)

pub keys_fit-update :
    (other : Text) (outcome : Outcome) (now : ℕ) (es : List Entry)
    → keys_fit es ≡ true
    → keys_fit (update_first (has_key other) (complete_entry outcome now) es) ≡ true
unfolding complete_entry
keys_fit-update other outcome now [] h = refl
keys_fit-update other outcome now (e ∷ es) h = ground (arith, keys_fit-update other outcome now es)

module _ (env : Env) where
  -- Validated entries have the keys of their actions.
  pub keys_fit-validated :
      (es : List Entry) {fs : List Entry}
      → map_ok (validate_ledger env) es ≡ ok fs
      → keys_fit fs ≡ true
  keys_fit-validated [] h = rw (← ok_inj h) refl
  keys_fit-validated (e ∷ es) h = bind-elim (validate_ledger env e) _ h λ f v h1.
      bind-elim (map_ok (validate_ledger env) es) _ h1 λ fs v' h2.
        let (action, _, _, _, key, fit) = validate_ledger-inv env e v in
        rw (← ok_inj h2) (
          rw (key ∙ fit ∙ ap ledger_key (sym action), text_eq_refl (ledger_key f.action))
            (keys_fit-validated es v'))

  is_done-validated :
      (key : Text) (es : List Entry) {fs : List Entry}
      → map_ok (validate_ledger env) es ≡ ok fs
      → keys_fit es ≡ true
      → is_done key fs ≡ is_done key es
  is_done-validated key [] h k = rw (← ok_inj h) refl
  is_done-validated key (e ∷ es) h k = bind-elim (validate_ledger env e) _ h λ f v h1.
      bind-elim (map_ok (validate_ledger env) es) _ h1 λ fs v' h2.
        let (action, status, _, _, fk, fit) = validate_ledger-inv env e v in
        let same : f.key ≡ e.key =
          fk ∙ fit ∙ sym (text_eq_sound e.key (ledger_key e.action) (ground (arith, k))) in
        rw (← ok_inj h2) (rw (is_done-validated key es v' (ground (arith, k)), same, status) refl)

pub read-keys_fit :
    (env : Env) (store : Store) (s : State) → read env store ≡ ok s → keys_fit s.ledger ≡ true
unfolding read empty_state
read-keys_fit env none s h = rw (← ok_inj h) refl
read-keys_fit env (some u) s h =
    keys_fit-validated env u.ledger (validate_state-inv env u {t = s} (ground (arith, h))).0.ledger

-- The key is one of a completed entry, in a ledger whose keys are those of the actions.
unfoldable pub IsDone : Text → State → Type 0
IsDone key s = (is_done key s.ledger ≡ true) × (keys_fit s.ledger ≡ true)

pub IsDone-Survives : (env : Env) (key : Text) → Survives (IsDone key) env
unfolding IsDone
IsDone-Survives env key s t h v =
    let ledger = (validate_state-inv env s v).0.ledger in
    (is_done-validated env key s.ledger ledger h.1 ∙ h.0, keys_fit-validated env s.ledger ledger)
