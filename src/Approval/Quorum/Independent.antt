-- ===== src/Approval/Quorum/Independent.antt =====
-- Who may approve an action together, in terms of the ids alone.
use ghostapi.Common.{
  ◌≡◌, ◌≢◌, Text, text_eq, text_eq_refl, true, false, List, [], ◌∷◌, any, All, subst, arith,
}
use ghostapi.Actions.Types.{ActionEnvelope}
use ghostapi.Approval.Types.{Approver}
use ghostapi.Approval.Standing.{is_self_approval, is_same_approver}
use ghostapi.Approval.Quorum.{separate, is_outside}

-- Two approvers have different ids, principals and independence keys.
pub record AreSeparate (a b : Approver) : Type 0 where
  pub ids : a.id ≢ b.id
  pub principals : a.principal_id ≢ b.principal_id
  pub keys : a.independence_key ≢ b.independence_key

-- An approver's id is not the actor's, and neither the principal nor the independence key is the
-- actor's id or the workload's. (That the id is not the workload's is not tested.)
pub record IsOutside (action : ActionEnvelope) (a : Approver) : Type 0 where
  pub id_actor : a.id ≢ action.actor.id
  pub principal_actor : a.principal_id ≢ action.actor.id
  pub principal_workload : a.principal_id ≢ action.actor.workload_id
  pub key_actor : a.independence_key ≢ action.actor.id
  pub key_workload : a.independence_key ≢ action.actor.workload_id

-- Every two of a list are separate.
abbrev pub ArePairwiseSeparate : List Approver → Type 0
ArePairwiseSeparate [] = Unit
ArePairwiseSeparate (a ∷ bs) = All (AreSeparate a) bs × ArePairwiseSeparate bs

text_eq-ne : (x y : Text) → text_eq x y ≡ false → x ≢ y
text_eq-ne x y h e =
    (let same = text_eq_refl y in
      let k = subst (λ z. text_eq z y ≡ false) e h in ground (arith, same, k))

is_self_approval-IsOutside :
    (action : ActionEnvelope) (a : Approver)
    → is_self_approval action a ≡ false
    → IsOutside action a
unfolding is_self_approval
is_self_approval-IsOutside action a h = record {
  id_actor = text_eq-ne _ _ (ground (arith, h));
  principal_actor = text_eq-ne _ _ (ground (arith, h));
  principal_workload = text_eq-ne _ _ (ground (arith, h));
  key_actor = text_eq-ne _ _ (ground (arith, h));
  key_workload = text_eq-ne _ _ (ground (arith, h));
}

is_same_approver-AreSeparate : (a b : Approver) → is_same_approver a b ≡ false → AreSeparate a b
unfolding is_same_approver
is_same_approver-AreSeparate a b h = record {
  ids = text_eq-ne _ _ (ground (arith, h));
  principals = text_eq-ne _ _ (ground (arith, h));
  keys = text_eq-ne _ _ (ground (arith, h));
}

pub is_outside-IsOutside :
    (action : ActionEnvelope) (bs : List Approver)
    → is_outside action bs ≡ true
    → All (IsOutside action) bs
is_outside-IsOutside action [] h = tt
is_outside-IsOutside action (a ∷ bs) h = (
  is_self_approval-IsOutside action a (ground (arith, h)),
  is_outside-IsOutside action bs (ground (arith, h)),
)

any-AreSeparate :
    (a : Approver) (bs : List Approver)
    → any bs (is_same_approver a) ≡ false
    → All (AreSeparate a) bs
any-AreSeparate a [] h = tt
any-AreSeparate a (b ∷ bs) h =
    (is_same_approver-AreSeparate a b (ground (arith, h)), any-AreSeparate a bs (ground (arith, h)))

pub separate-AreSeparate : (bs : List Approver) → separate bs ≡ true → ArePairwiseSeparate bs
separate-AreSeparate [] h = tt
separate-AreSeparate (a ∷ bs) h =
    (any-AreSeparate a bs (ground (arith, h)), separate-AreSeparate bs (ground (arith, h)))
