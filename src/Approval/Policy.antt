-- ===== src/Approval/Policy.antt =====
-- `validatePolicy`, `evaluate`, `classify`, `policyHash`. The checks of single values are those of
-- the safety controller, of which the inbox has copies with the same texts.
use ghostapi.Common.{
  ℕ, ◌+◌, Text, lit, text_eq, Option, none, some, List, [], ◌∷◌, ◌++◌, length, any, filter, map,
  map_ok, sort_texts, text_le, Bool, true, false, not, ◌&&◌, ◌||◌, ◌==◌, leb, ltb, Result, ok, fail,
  require, ◌>>=◌, ◌>>◌, if◌then◌else◌, Json, num, str, arr, obj, end, field, canonical,
}
use ghostapi.Safety.Validate.{
  invalid, positive, non_negative, max_safe_integer, unique, array, optional, identifier,
}
use ghostapi.Actions.Types.{ActionEnvelope}
use ghostapi.Actions.Json.{text_items, optional_field}
use ghostapi.Actions.Validate.{synthetic_operation}
use ghostapi.Approval.Types.{
  Env, Risk, read, create, update, communicate, money_movement, delete, permission_change,
  deployment, superseded, Policy, Context, Request,
}

unfoldable pub risk_text : Risk → Text
risk_text read = lit "read"
risk_text create = lit "create"
risk_text update = lit "update"
risk_text communicate = lit "communicate"
risk_text money_movement = lit "money_movement"
risk_text delete = lit "delete"
risk_text permission_change = lit "permission_change"
risk_text deployment = lit "deployment"

unfoldable pub risk_eq : Risk → Risk → Bool
unfolding risk_text
risk_eq a b = text_eq (risk_text a) (risk_text b)

unfoldable pub includes : List Text → Text → Bool
includes xs x = any xs (text_eq x)

unfoldable pub percentage : ℕ → Text → Result ℕ
percentage value label =
    if leb value 100 then ok value else fail (label ++ lit " must be an integer from 0 to 100.")

unfoldable pub bounded_ms : ℕ → Text → Result ℕ
bounded_ms value label =
    if leb 1_000 value && leb value 86_400_000 then ok value else fail (invalid label)

insert_risk : Risk → List Risk → List Risk
unfolding risk_text
insert_risk r [] = r ∷ []
insert_risk r (x ∷ xs) =
    if text_le (risk_text r) (risk_text x) then r ∷ x ∷ xs else x ∷ insert_risk r xs

sort_risks : List Risk → List Risk
unfolding insert_risk
sort_risks [] = []
sort_risks (r ∷ rs) = insert_risk r (sort_risks rs)

unfoldable pub risks : List Risk → Result (List Risk)
unfolding sort_risks
risks values = do
  given ← array values (lit "Approval critical risks") 8
  unique (map risk_text given) (lit "Approval critical risks")
  ok (sort_risks given)

-- A list that an object has only if it is defined.
optional_list : Option (List Text) → Option Json
optional_list none = none
optional_list (some xs) = some (arr (text_items xs))

optional_number : Option ℕ → Option Json
optional_number none = none
optional_number (some n) = some (num n)

module _ (env : Env) where
  unfoldable pub identifiers : List Text → Text → Result (List Text)
  identifiers values label = do
    given ← array values label 100
    result ← map_ok (λ entry. identifier env.safety entry label) given
    require (not (length result == 0)) (label ++ lit " must not be empty.")
    unique result label
    ok (sort_texts result)

  unfoldable pub validate_policy : Policy → Result Policy
  unfolding identifiers percentage bounded_ms risks
  validate_policy p = do
    id ← identifier env.safety p.id (lit "Approval policy id")
    version ← positive p.version (lit "Approval policy version") 100_000
    environments ← identifiers p.allowed_environments (lit "Approval allowed environments")
    actors ← optional (λ xs. identifiers xs (lit "Approval allowed actors")) p.allowed_actors
    resources ←
        optional (λ xs. identifiers xs (lit "Approval allowed resources")) p.allowed_resources
    amount ←
        optional (λ n. non_negative n (lit "Approval max amount") max_safe_integer)
          p.max_amount_minor
    confidence ← percentage p.minimum_confidence (lit "Approval minimum confidence")
    critical ← risks p.critical_risks
    max_actions ← positive p.max_actions (lit "Approval velocity maximum") 100_000
    window_ms ← bounded_ms p.window_ms (lit "Approval velocity window")
    ttl ← bounded_ms p.approval_ttl_ms (lit "Approval TTL")
    escalation ← bounded_ms p.escalation_timeout_ms (lit "Approval escalation timeout")
    require (leb escalation ttl) (lit "Approval escalation timeout cannot exceed approval TTL.")
    ok (record {
      id = id;
      version = version;
      allowed_environments = environments;
      allowed_actors = actors;
      allowed_resources = resources;
      max_amount_minor = amount;
      minimum_confidence = confidence;
      critical_risks = critical;
      max_actions = max_actions;
      window_ms = window_ms;
      approval_ttl_ms = ttl;
      escalation_timeout_ms = escalation;
    })

  unfoldable pub policy_json : Policy → Json
  unfolding risk_text optional_list optional_number
  policy_json p =
      let velocity = obj (
        field (lit "maxActions") (num p.max_actions)
          (field (lit "windowMs") (num p.window_ms) end)) in
      obj (
        field (lit "schemaVersion") (num 1) (
          field (lit "kind") (str (lit "ghostapi.approval-policy")) (
            field (lit "id") (str p.id) (
              field (lit "version") (num p.version) (
                field (lit "allowedEnvironments") (arr (text_items p.allowed_environments)) (
                  optional_field (lit "allowedActors") (optional_list p.allowed_actors) (
                    optional_field (lit "allowedResources") (optional_list p.allowed_resources) (
                      optional_field (lit "maxAmountMinor") (optional_number p.max_amount_minor) (
                        field (lit "minimumConfidence") (num p.minimum_confidence) (
                          field (lit "criticalRisks")
                            (arr (text_items (map risk_text p.critical_risks)))
                            (field (lit "velocity") velocity (
                              field (lit "approvalTtlMs") (num p.approval_ttl_ms) (
                                field (lit "escalationTimeoutMs") (num p.escalation_timeout_ms)
                                  end)))))))))))))

  unfoldable pub policy_hash : Policy → Text
  unfolding policy_json
  policy_hash p = env.sha256 (canonical env.host (policy_json p))

unfoldable pub classify : ActionEnvelope → Result Risk
classify action =
    if text_eq action.operation synthetic_operation
    then ok update
    else fail (lit "No approval risk taxonomy rule exists for this action.")

-- What `evaluate` answers.
pub record Evaluation : Type 0 where
  pub allowed : Bool
  pub required_approvals : ℕ
  pub reasons : List Text

-- `if (test) reasons.push(reason)`
unfoldable pub reason_if : Bool → Text → List Text
reason_if test reason = if test then reason ∷ [] else []

-- Whether a request counts for the velocity of an actor.
unfoldable pub is_recent : Policy → ActionEnvelope → ℕ → Option Text → Request → Bool
is_recent policy action now current r =
    not (elim current [ none ↦ false | some id ↦ text_eq r.id id ])
    && text_eq r.action.actor.id action.actor.id
    && leb now (r.created_at + policy.window_ms)
    && not (elim r.status [ superseded ↦ true | _ ↦ false ])

unfoldable pub required_approvals : Policy → Risk → Context → ℕ
unfolding risk_eq
required_approvals policy risk context =
    if any policy.critical_risks (risk_eq risk) || ltb context.confidence policy.minimum_confidence
    then 2
    else 1

-- The reasons against an action.
unfoldable pub objections :
    Policy → ActionEnvelope → Context → List Request → ℕ → Option Text → List Text
unfolding reason_if includes is_recent
objections policy action context history now current =
    reason_if (not (includes policy.allowed_environments (lit "synthetic")))
      (lit "environment is not approved")
    ++ reason_if
        (elim policy.allowed_actors [
          | none ↦ false
          | some actors ↦ not (includes actors action.actor.id)
        ])
        (lit "actor is not approved")
    ++ reason_if
        (elim policy.allowed_resources [
          | none ↦ false
          | some resources ↦ not (includes resources action.resource_id)
        ])
        (lit "resource is not approved")
    ++ reason_if
        (elim policy.max_amount_minor [
          | none ↦ false
          | some limit ↦ elim context.amount_minor [ none ↦ true | some amount ↦ ltb limit amount ]
        ])
        (lit "amount is missing or exceeds the policy limit")
    ++ reason_if
        (leb policy.max_actions (length (filter (is_recent policy action now current) history)))
        (lit "action velocity limit was reached")

unfoldable pub evaluate :
    Policy → ActionEnvelope → Context → List Request → ℕ → Option Text → Result Evaluation
unfolding objections required_approvals
evaluate policy action context history now current = do
  risk ← classify action
  let against = objections policy action context history now current
  let required = required_approvals policy risk context
  let reasons =
      against
      ++ (if required == 2
          then lit "independent two-person approval is required"
          else lit "independent human approval is required")
        ∷ []
  ok (record { allowed = length reasons == 1; required_approvals = required; reasons = reasons })
