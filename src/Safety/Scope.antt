-- ===== src/Safety/Scope.antt =====
-- Scopes and keys: `scopeMatches`, `scopeValue`, `scopeKey`, `sameScope`, `ledgerKey`.
use ghostapi.Common.{
  ℕ, Text, lit, option_eq, Option, none, some, Bool, true, false, ◌&&◌, ◌||◌, ◌++◌, ◌==◌, ◌≡◌,
  option_eq_sound, option_eq_refl, arith,
}
use ghostapi.Safety.Types.{
  ScopeKind, Scope, RiskClass, read, write, money_movement, external_communication, delete, deploy,
  Action,
}

unfoldable pub kind_text : ScopeKind → Text
kind_text ScopeKind.global = lit "global"
kind_text ScopeKind.organization = lit "organization"
kind_text ScopeKind.project = lit "project"
kind_text ScopeKind.environment = lit "environment"
kind_text ScopeKind.agent = lit "agent"
kind_text ScopeKind.workload = lit "workload"
kind_text ScopeKind.provider = lit "provider"
kind_text ScopeKind.operation = lit "operation"
kind_text ScopeKind.risk_class = lit "risk_class"

unfoldable pub risk_text : RiskClass → Text
risk_text read = lit "read"
risk_text write = lit "write"
risk_text money_movement = lit "money_movement"
risk_text external_communication = lit "external_communication"
risk_text delete = lit "delete"
risk_text deploy = lit "deploy"

kind_index : ScopeKind → ℕ
kind_index ScopeKind.global = 0
kind_index ScopeKind.organization = 1
kind_index ScopeKind.project = 2
kind_index ScopeKind.environment = 3
kind_index ScopeKind.agent = 4
kind_index ScopeKind.workload = 5
kind_index ScopeKind.provider = 6
kind_index ScopeKind.operation = 7
kind_index ScopeKind.risk_class = 8

-- `left.kind === right.kind`
unfoldable pub kind_eq : ScopeKind → ScopeKind → Bool
unfolding kind_index
kind_eq a b = kind_index a == kind_index b

-- The switch of `scopeValue` has no case for "global", where it gives `undefined`.
unfoldable pub scope_value : ScopeKind → Action → Option Text
unfolding risk_text
scope_value ScopeKind.global a = none
scope_value ScopeKind.organization a = some a.organization_id
scope_value ScopeKind.project a = some a.project_id
scope_value ScopeKind.environment a = some a.environment
scope_value ScopeKind.agent a = some a.actor_id
scope_value ScopeKind.workload a = some a.workload_id
scope_value ScopeKind.provider a = some a.provider
scope_value ScopeKind.operation a = some a.operation
scope_value ScopeKind.risk_class a = some (risk_text a.risk_class)

unfoldable pub scope_matches : Scope → Action → Bool
unfolding kind_eq scope_value
scope_matches s a = kind_eq s.kind ScopeKind.global || option_eq s.id (scope_value s.kind a)

-- The text of `${scope.id}`.
unfoldable pub id_text : Option Text → Text
id_text none = lit "undefined"
id_text (some id) = id

unfoldable pub scope_key : Scope → Text
unfolding kind_text id_text kind_eq
scope_key s = elim (kind_eq s.kind ScopeKind.global) [
  | true ↦ lit "global"
  | false ↦ kind_text s.kind ++ lit ":" ++ id_text s.id
]

unfoldable pub same_scope : Scope → Scope → Bool
unfolding kind_eq
same_scope left right = kind_eq left.kind right.kind && option_eq left.id right.id

unfoldable pub ledger_key : Action → Text
ledger_key a = a.idempotency_key ++ lit ":" ++ a.action_hash

pub kind_eq_sound : (a b : ScopeKind) → kind_eq a b ≡ true → a ≡ b
unfolding kind_eq
kind_eq_sound a b h = ground arith

pub kind_eq_refl : (a : ScopeKind) → kind_eq a a ≡ true
unfolding kind_eq
kind_eq_refl a = ground arith

pub same_scope_sound : (s t : Scope) → same_scope s t ≡ true → s ≡ t
unfolding same_scope
same_scope_sound s t h = ground (arith, kind_eq_sound s.kind t.kind, option_eq_sound s.id t.id)

pub same_scope_refl : (s : Scope) → same_scope s s ≡ true
unfolding same_scope
same_scope_refl s = ground (arith, kind_eq_refl s.kind, option_eq_refl s.id)
