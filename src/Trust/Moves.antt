-- ===== src/Trust/Moves.antt =====
-- The levels of a target as a state machine, and how the targets of a state stand in it.
use ghostapi.Common.{
  ◌≡◌, refl, sym, subst, Bool, true, false, Option, none, some, inl, inr, List, find, find-some,
  find-update_first, find-update_other, update_first, Bool-cases, text_eq_sound, text_eq_refl,
  and_left, and_right,
}
use ghostapi.Trust.Types.{
  Level, simulate, shadow, dry_run, approve, bounded_auto, Target, TargetState,
}
use ghostapi.Trust.Canary.{same_target}
use ghostapi.Trust.Targets.{is_for}

-- One change of a target: its level, and whether its circuit breaker is open. Promotions go from one
-- supported level to the next; a violation demotes; a circuit breaker opens in bounded automation, or
-- in approval after a demotion; a rollback goes to approval and leaves the circuit breaker alone.
pub data Move : Level → Bool → Level → Bool → Type 0 where
  to_shadow : Move simulate false shadow false
  to_approve : Move shadow false approve false
  to_bounded : Move approve false bounded_auto false
  demotes : Move bounded_auto false approve false
  trips : Move bounded_auto false bounded_auto true
  trips_demoted : Move approve false approve true
  rolls_back : {l : Level} {b : Bool} → Move l b approve b

-- The one supported level that comes after a level.
pub data Rise : Level → Level → Type 0 where
  to_shadow : Rise simulate shadow
  to_approve : Rise shadow approve
  from_dry_run : Rise dry_run approve
  to_bounded : Rise approve bounded_auto

-- A rise is a move; from a level that is not supported it is the rollback to approval.
pub Rise-Move : {from level : Level} → Rise from level → Move from false level false
Rise-Move Rise.to_shadow = Move.to_shadow
Rise-Move Rise.to_approve = Move.to_approve
Rise-Move Rise.from_dry_run = rolls_back
Rise-Move Rise.to_bounded = Move.to_bounded

pub data Reach (l : Level) (b : Bool) : Level → Bool → Type 0 where
  here : Reach l b l b
  next : {l1 l2 : Level} {b1 b2 : Bool} → Reach l b l1 b1 → Move l1 b1 l2 b2 → Reach l b l2 b2

-- How a target stands: one that was not seen is simulated.
abbrev pub level_of : Option TargetState → Level
level_of none = simulate
level_of (some t) = t.level

abbrev pub open_of : Option TargetState → Bool
open_of none = false
open_of (some t) = t.is_open

abbrev pub level_at : Target → List TargetState → Level
level_at y ts = level_of (find (is_for y) ts)

abbrev pub open_at : Target → List TargetState → Bool
open_at y ts = open_of (find (is_for y) ts)

pub same_target_sound : (a b : Target) → same_target a b ≡ true → a ≡ b
unfolding same_target
same_target_sound a b h =
    let p = text_eq_sound _ _ (and_left _ _ h) in
    let q = text_eq_sound _ _ (and_right _ _ h) in
    λ i. record { tenant_id = p i; resource_id = q i }

pub same_target_refl : (a : Target) → same_target a a ≡ true
unfolding same_target
same_target_refl a = rw (text_eq_refl a.tenant_id, text_eq_refl a.resource_id) refl

pub found-target :
    (x : Target) (ts : List TargetState) {t : TargetState}
    → find (is_for x) ts ≡ some t
    → t.target ≡ x
found-target x ts {t} h = same_target_sound t.target x (find-some (is_for x) ts h)

-- What is found after an assignment to a target.
pub put-found :
    (ts : List TargetState) {t : TargetState} (t' : TargetState)
    → find (is_for t'.target) ts ≡ some t
    → find (is_for t'.target) (update_first (is_for t'.target) (λ _. t') ts) ≡ some t'
put-found ts t' h = find-update_first (is_for t'.target) t' ts h (same_target_refl t'.target)

pub put-other :
    (ts : List TargetState) (t' : TargetState) (y : Target)
    → same_target t'.target y ≡ false
    → find (is_for y) (update_first (is_for t'.target) (λ _. t') ts) ≡ find (is_for y) ts
put-other ts t' y other =
    find-update_other (is_for t'.target) (is_for y) t' ts
      (λ z e.
        subst (λ x. same_target x y ≡ false) (sym (same_target_sound z.target t'.target e)) other)
      other

module _ (l : Level) (b : Bool) (y : Target) where
  -- A target that stood so at the start stands where the machine goes from there.
  abbrev pub Follows : List TargetState → Type 0
  Follows ts = Reach l b (level_at y ts) (open_at y ts)

  -- An assignment to a target that makes a move, or none.
  pub put-Follows :
      (ts : List TargetState) {t : TargetState} (t' : TargetState)
      → find (is_for t'.target) ts ≡ some t
      → (Reach l b t.level t.is_open → Reach l b t'.level t'.is_open)
      → Follows ts
      → Follows (update_first (is_for t'.target) (λ _. t') ts)
  put-Follows ts {t} t' found moves h = elim (Bool-cases (same_target t'.target y)) [
    | inr other ↦ subst (λ o. Reach l b (level_of o) (open_of o)) (sym (put-other ts t' y other)) h
    | inl same ↦
        let is : t'.target ≡ y = same_target_sound t'.target y same in
        let was = subst (λ x. find (is_for x) ts ≡ some t) is found in
        let now =
          subst (λ x. find (is_for x) (update_first (is_for t'.target) (λ _. t') ts) ≡ some t') is
            (put-found ts t' found) in
        subst (λ o. Reach l b (level_of o) (open_of o)) (sym now)
          (moves (subst (λ o. Reach l b (level_of o) (open_of o)) was h))
  ]
