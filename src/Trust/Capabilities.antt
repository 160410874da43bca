-- ===== src/Trust/Capabilities.antt =====
-- `createLocalSyntheticTrustCapabilities`, `validateCapabilities`, `capabilityFor`,
-- `nextSupportedLevel`.
use ghostapi.Common.{
  ℕ, Text, lit, Bool, true, false, not, ◌&&◌, ◌||◌, ◌==◌, is_some, any, find, Option, none, some,
  List, [], ◌∷◌, map_ok, Result, ok, fail, require, ◌>>=◌, ◌>>◌, if◌then◌else◌,
}
use ghostapi.Safety.Validate.{array, optional, text}
use ghostapi.Trust.Types.{
  Env, Level, simulate, shadow, dry_run, approve, bounded_auto, trusted, Capability,
}

-- `TRUST_LEVELS`
abbrev pub trust_levels : List Level
trust_levels = simulate ∷ shadow ∷ dry_run ∷ approve ∷ bounded_auto ∷ trusted ∷ []

unfoldable pub level_text : Level → Text
level_text simulate = lit "simulate"
level_text shadow = lit "shadow"
level_text dry_run = lit "dry-run"
level_text approve = lit "approve"
level_text bounded_auto = lit "bounded-auto"
level_text trusted = lit "trusted"

-- `TRUST_LEVELS.indexOf`
unfoldable pub rank : Level → ℕ
rank simulate = 0
rank shadow = 1
rank dry_run = 2
rank approve = 3
rank bounded_auto = 4
rank trusted = 5

unfoldable pub level_eq : Level → Level → Bool
unfolding rank
level_eq a b = rank a == rank b

abbrev plain : Level → Capability
plain level = record {
  level = level;
  supported = true;
  external_side_effects = false;
  requires_actual_context = false;
  requires_official_provider_semantics = false;
  requires_approval = false;
  requires_canary = false;
  requires_outcome_comparison = false;
  reason = none;
}

abbrev pub local_capabilities : List Capability
local_capabilities =
    plain simulate
    ∷ record (plain shadow) { requires_actual_context = true }
    ∷ record (plain dry_run) {
      supported = false;
      requires_official_provider_semantics = true;
      reason = some (lit "ghostapi-synthetic has no provider-official dry-run semantic.");
    }
    ∷ record (plain approve) { requires_approval = true }
    ∷ record (plain bounded_auto) { requires_canary = true; requires_outcome_comparison = true }
    ∷ record (plain trusted) {
      supported = false;
      reason = some (lit "The local synthetic runtime is not production authorization.");
    }
    ∷ []

-- Whether capabilities are of these levels, in this order.
unfoldable pub in_order : List Capability → List Level → Bool
unfolding level_eq
in_order [] [] = true
in_order [] (l ∷ ls) = false
in_order (c ∷ cs) [] = false
in_order (c ∷ cs) (l ∷ ls) = level_eq c.level l && in_order cs ls

module _ (env : Env) where
  unfoldable pub validate_capability : Capability → Result Capability
  validate_capability c = do
    require (not c.external_side_effects)
        (lit "Trust capability external side effects are invalid.")
    reason ← optional (λ r. text env.safety r (lit "Trust capability reason") 200) c.reason
    require (c.supported || is_some reason) (lit "Unsupported trust capability requires a reason.")
    ok (record c { reason = reason })

  unfoldable pub validate_capabilities : List Capability → Result (List Capability)
  unfolding validate_capability in_order
  validate_capabilities cs = do
    given ← array cs (lit "Trust level capabilities") 6
    levels ← map_ok validate_capability given
    require (in_order levels trust_levels)
        (lit "Trust capabilities must define every level in stable order.")
    require (not (any levels (λ c. c.external_side_effects)))
        (lit "Local trust capabilities cannot enable external side effects.")
    ok levels

unfoldable pub capability_for : List Capability → Level → Result Capability
unfolding level_eq
capability_for cs level = elim (find (λ c. level_eq c.level level) cs) [
  | none ↦ fail (lit "Trust capability is missing.")
  | some c ↦ ok c
]

-- `TRUST_LEVELS.slice(index + 1)`
unfoldable pub levels_after : Level → List Level
levels_after simulate = shadow ∷ dry_run ∷ approve ∷ bounded_auto ∷ trusted ∷ []
levels_after shadow = dry_run ∷ approve ∷ bounded_auto ∷ trusted ∷ []
levels_after dry_run = approve ∷ bounded_auto ∷ trusted ∷ []
levels_after approve = bounded_auto ∷ trusted ∷ []
levels_after bounded_auto = trusted ∷ []
levels_after trusted = []

-- The loop of `nextSupportedLevel`.
unfoldable pub first_supported : List Capability → List Level → Result (Option Level)
unfolding capability_for
first_supported cs [] = ok none
first_supported cs (l ∷ ls) = do
  c ← capability_for cs l
  let later = first_supported cs ls
  if c.supported then ok (some l) else later

unfoldable pub next_supported_level : List Capability → Level → Result (Option Level)
unfolding first_supported levels_after
next_supported_level cs current = first_supported cs (levels_after current)
