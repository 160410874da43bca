-- ===== src/Trust/Rollout.antt =====
-- Which targets the canary of a policy has.
use ghostapi.Common.{
  ℕ, ◌+◌, ◌*◌, ◌/◌, ◌%◌, ◌-◌, ◌<◌, Text, lit, text_eq, text_eq_sound, text_eq_refl, take, any, ltb,
  ◌≡◌, refl, sym, ap, ◌∙◌, subst, ◌↔◌, ◌⊎◌, inl, inr, true, false, Bool-cases, length, List, [],
  ◌∷◌, ◌++◌, if◌then◌else◌, arith,
}
use ghostapi.Trust.Types.{Env, Target, PromotionPolicy}
use ghostapi.Trust.Canary.{
  hex_value, read_hex, is_in_scope, target_key, deterministic_bucket, canary_decision,
}

-- An id is one of a list.
abbrev pub IsAmong : Text → List Text → Type 0
IsAmong id [] = ⊥
IsAmong id (x ∷ xs) = (id ≡ x) ⊎ IsAmong id xs

-- A list of a scope has an id, or it is empty and the scope is open.
abbrev pub IsInScope : List Text → Text → Type 0
IsInScope ids id = (ids ≡ []) ⊎ IsAmong id ids

-- A byte in hexadecimal.
abbrev pub digit : ℕ → ℕ
digit n = if ltb n 10 then n + b'0' else n + b'a' - 10

abbrev pub hex_byte : ℕ → Text
hex_byte b = digit (b / 16) ∷ digit (b % 16) ∷ []

-- The text whose digest decides on a target.
abbrev pub bucket_text : Env → PromotionPolicy → Target → Text
bucket_text env p t = lit "ghostapi.trust.canary.v1:" ++ p.id ++ lit ":" ++ target_key env t

any_iff : (id : Text) (xs : List Text) → (any xs (text_eq id) ≡ true) ↔ IsAmong id xs
any_iff id [] = (λ h. cc, λ h. absurd h)
any_iff id (x ∷ xs) = elim (Bool-cases (text_eq id x)) [
  | inl e ↦ (λ _. inl (text_eq_sound id x e), λ _. ground (arith, e))
  | inr e ↦
      let rest = any_iff id xs in
      (
        λ h. inr (rest.0 (ground (arith, e, h))),
        λ h. elim h [
          | inl same ↦ absurd (
              let k = subst (λ y. text_eq y x ≡ false) same e in
              let r = text_eq_refl x in ground (arith, k, r))
          | inr m ↦ (let k = rest.1 m in ground (arith, k))
        ],
      )
]

is_in_scope_iff : (ids : List Text) (id : Text) → (is_in_scope ids id ≡ true) ↔ IsInScope ids id
unfolding is_in_scope
is_in_scope_iff [] id = (λ _. inl refl, λ _. refl)
is_in_scope_iff (x ∷ xs) id =
    let law = any_iff id (x ∷ xs) in
    (
      λ h. inr (law.0 (ground (arith, h))),
      λ h. elim h [
        | inl e ↦ absurd (let k = ap length e in omega (arith, k))
        | inr m ↦ (let k = law.1 m in ground (arith, k))
      ],
    )

hex_value-digit : (n : ℕ) → n < 16 → hex_value (digit n) ≡ n
unfolding hex_value
hex_value-digit n h = ground (arith, h)

read_hex-bytes :
    (b0 b1 b2 b3 : ℕ)
    → b0 < 256
    → b1 < 256
    → b2 < 256
    → b3 < 256
    → read_hex 0 (hex_byte b0 ++ hex_byte b1 ++ hex_byte b2 ++ hex_byte b3)
      ≡ ((b0 * 256 + b1) * 256 + b2) * 256 + b3
unfolding read_hex
read_hex-bytes b0 b1 b2 b3 h0 h1 h2 h3 =
    rw
      (
        hex_value-digit (b0 / 16) (omega (arith, h0)),
        hex_value-digit (b0 % 16) (omega arith),
        hex_value-digit (b1 / 16) (omega (arith, h1)),
        hex_value-digit (b1 % 16) (omega arith),
        hex_value-digit (b2 / 16) (omega (arith, h2)),
        hex_value-digit (b2 % 16) (omega arith),
        hex_value-digit (b3 / 16) (omega (arith, h3)),
        hex_value-digit (b3 % 16) (omega arith),
      )
      (omega arith)

canary_decision_iff :
    (env : Env) (t : Target) (p : PromotionPolicy)
    → ((canary_decision env t p).bucket ≡ deterministic_bucket env p.id t)
      × (((canary_decision env t p).assigned ≡ true) ↔ (
          (is_in_scope p.canary.tenant_ids t.tenant_id ≡ true)
          × (is_in_scope p.canary.resource_ids t.resource_id ≡ true)
          × (deterministic_bucket env p.id t < p.canary.percentage_bps)))
unfolding canary_decision
canary_decision_iff env t p = (ground arith, (λ h. ground arith, λ h. ground arith))

-- If the digest of a policy's id and a target begins with four bytes, the target's bucket is the
-- number that they make, the first of them highest, modulo ten thousand; and the canary has the
-- target exactly if its tenant and its resource are in the policy's scopes, each open if its list is
-- empty, and the bucket is below the percentage in basis points.
pub canary_decision_lem :
    (env : Env) (t : Target) (p : PromotionPolicy) (b0 b1 b2 b3 : ℕ)
    → b0 < 256
    → b1 < 256
    → b2 < 256
    → b3 < 256
    → take 8 (env.sha256 (bucket_text env p t))
      ≡ hex_byte b0 ++ hex_byte b1 ++ hex_byte b2 ++ hex_byte b3
    → ((canary_decision env t p).bucket ≡ (((b0 * 256 + b1) * 256 + b2) * 256 + b3) % 10_000)
      × (((canary_decision env t p).assigned ≡ true) ↔ (
          IsInScope p.canary.tenant_ids t.tenant_id
          × IsInScope p.canary.resource_ids t.resource_id
          × ((((b0 * 256 + b1) * 256 + b2) * 256 + b3) % 10_000 < p.canary.percentage_bps)))
unfolding deterministic_bucket
canary_decision_lem env t p b0 b1 b2 b3 h0 h1 h2 h3 e =
    let n = (((b0 * 256 + b1) * 256 + b2) * 256 + b3) % 10_000 in
    let is : deterministic_bucket env p.id t ≡ n =
      ap (λ x. read_hex 0 x % 10_000) e
      ∙ ap (λ x. x % 10_000) (read_hex-bytes b0 b1 b2 b3 h0 h1 h2 h3) in
    let (bucket, law) = canary_decision_iff env t p in
    let tenant = is_in_scope_iff p.canary.tenant_ids t.tenant_id in
    let resource = is_in_scope_iff p.canary.resource_ids t.resource_id in
    (
      bucket ∙ is,
      (
        λ h.
            let (x, y, z) = law.0 h in
            (tenant.0 x, resource.0 y, subst (λ m. m < p.canary.percentage_bps) is z),
        λ h.
            let (x, y, z) = h in
            law.1 (tenant.1 x, resource.1 y, subst (λ m. m < p.canary.percentage_bps) (sym is) z),
      ),
    )
