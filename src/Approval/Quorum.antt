-- ===== src/Approval/Quorum.antt =====
-- The approvals of a request: their approvers pass the tests against each other and against the actor,
-- and are as many as the policy requires before the request is approved.
pub mod Validated
pub mod Refreshes
pub mod Keeps
pub mod Executing
pub mod Files
pub mod Desk
pub mod Independent
pub mod History
use ghostapi.Common.{
  ℕ, Text, ◌≡◌, refl, ap, ◌∙◌, sym, Bool, true, false, not, ◌&&◌, ◌||◌, List, [], ◌∷◌, ◌++◌, map,
  filter, length, any, all, find, update_first, leb, Bool-cases, inl, inr, any-append, arith, some,
  Option,
}
use ghostapi.Actions.Types.{ActionEnvelope}
use ghostapi.Approval.Types.{Approver, Decision, Request, State}
use ghostapi.Approval.Requests.{needs_artifact}
use ghostapi.Approval.Standing.{is_approval, is_self_approval, is_same_approver, has_approved}

-- The approvers of the approvals among decisions.
abbrev pub approvers_of : List Decision → List Approver
approvers_of ds = map (λ d. d.approver) (filter is_approval ds)

-- The test of two approvers, on every two.
abbrev pub separate : List Approver → Bool
separate [] = true
separate (a ∷ bs) = not (any bs (is_same_approver a)) && separate bs

-- The test of an approver against the actor and the workload of an action, on all.
abbrev pub is_outside : ActionEnvelope → List Approver → Bool
is_outside action bs = all bs (λ a. not (is_self_approval action a))

abbrev pub quorate : Request → Bool
quorate r =
    separate (approvers_of r.decisions)
    && is_outside r.action (approvers_of r.decisions)
    && (not (needs_artifact r.status)
        || leb r.policy.required_approvals (length (approvers_of r.decisions)))

module _ {A : Type 0} (p : A → Bool) where
  pub all-append : (xs ys : List A) → all (xs ++ ys) p ≡ (all xs p && all ys p)
  all-append [] ys = refl
  all-append (x ∷ xs) ys = ground (arith, all-append xs ys)

  pub all-find :
      (q : A → Bool) (xs : List A) {x : A} → all xs p ≡ true → find q xs ≡ some x → p x ≡ true
  all-find q [] h e = cc
  all-find q (y ∷ xs) {x} h e = ground (arith, all-find q xs {x = x})

  pub all-update :
      (q : A → Bool) (y : A) (xs : List A)
      → all xs p ≡ true
      → p y ≡ true
      → all (update_first q (λ _. y) xs) p ≡ true
  all-update q y [] h k = refl
  all-update q y (x ∷ xs) h k = ground (arith, all-update q y xs)

pub approvers-append :
    (ds : List Decision) (d : Decision)
    → is_approval d ≡ true
    → approvers_of (ds ++ d ∷ []) ≡ approvers_of ds ++ d.approver ∷ []
approvers-append [] d e = rw e refl
approvers-append (c ∷ ds) d e = ground (arith, approvers-append ds d e)

pub approvers-other :
    (ds : List Decision) (d : Decision)
    → is_approval d ≡ false
    → approvers_of (ds ++ d ∷ []) ≡ approvers_of ds
approvers-other [] d e = rw e refl
approvers-other (c ∷ ds) d e = ground (arith, approvers-other ds d e)

pub separate-append :
    (ds : List Decision) (a : Approver)
    → separate (approvers_of ds) ≡ true
    → has_approved a ds ≡ false
    → separate (approvers_of ds ++ a ∷ []) ≡ true
unfolding has_approved
separate-append [] a h k = refl
separate-append (c ∷ ds) a h k = elim (Bool-cases (is_approval c)) [
  | inr e ↦ rw e (separate-append ds a (rw e at h) (rw e at k))
  | inl e ↦
      let h' = rw e at h in
      let k' = rw e at k in
      rw e (
        ground (
          arith,
          any-append (is_same_approver c.approver) (approvers_of ds) (a ∷ []),
          separate-append ds a,
        ))
]

-- An approval by somebody else, who has not approved yet.
pub approval-quorate :
    (r : Request) (d : Decision)
    → is_approval d ≡ true
    → is_self_approval r.action d.approver ≡ false
    → has_approved d.approver r.decisions ≡ false
    → quorate r ≡ true
    → needs_artifact r.status ≡ false
    → quorate (record r { decisions = r.decisions ++ d ∷ [] }) ≡ true
approval-quorate r d e self again q waits = rw (approvers-append r.decisions d e) (
    ground (
      arith,
      separate-append r.decisions d.approver,
      all-append (λ a. not (is_self_approval r.action a)) (approvers_of r.decisions)
          (d.approver ∷ []),
    ))

-- Every request of a state has its approvals.
abbrev pub AreQuorate : State → Type 0
AreQuorate s = all s.requests quorate ≡ true
