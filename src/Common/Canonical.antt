-- ===== src/Common/Canonical.antt =====
-- Canonical JSON, as the local stores write it before hashing: the functions `canonical` of
-- src/safety/safetyController.ts and its copies. Only what the stores hash is represented: numbers
-- are naturals.
use ghostapi.Common.Tests.{ltb, ◌==◌, if◌then◌else◌}
use ghostapi.Common.Strings.{Text, lit}
use ghostapi.Common.Errors.{Host}
use Prim.Native.Nat.{ℕ}
use mathlib.Core.Bool.{Bool, true, false, ◌&&◌, ◌||◌}
use mathlib.Core.List.{List, [], ◌∷◌, ◌++◌}

mutual
  pub data Json : Type 0 where
    null : Json
    bool : Bool → Json
    num : ℕ → Json
    str : Text → Json
    arr : Items → Json
    obj : Fields → Json

  pub data Items : Type 0 where
    nil : Items
    cons : Json → Items → Items

  pub data Fields : Type 0 where
    end : Fields
    field : Text → Json → Fields → Fields

-- The order of `Array.prototype.sort` on strings: by code units.
unfoldable pub text_le : Text → Text → Bool
text_le [] ys = true
text_le (x ∷ xs) [] = false
text_le (x ∷ xs) (y ∷ ys) = ltb x y || (x == y && text_le xs ys)

insert_key : Text × Text → List (Text × Text) → List (Text × Text)
unfolding text_le
insert_key e [] = e ∷ []
insert_key e (f ∷ fs) = if text_le e.0 f.0 then e ∷ f ∷ fs else f ∷ insert_key e fs

sort_keys : List (Text × Text) → List (Text × Text)
unfolding insert_key
sort_keys [] = []
sort_keys (e ∷ es) = insert_key e (sort_keys es)

-- `Array.prototype.join(",")`
join : List Text → Text
join [] = []
join (x ∷ []) = x
join (x ∷ y ∷ ys) = x ++ lit "," ++ join (y ∷ ys)

module _ (host : Host) where
  members : List (Text × Text) → List Text
  members [] = []
  members ((key, value) ∷ es) = (host.quote key ++ lit ":" ++ value) ∷ members es

  unfoldable mutual
    unfolding sort_keys join members

    pub canonical : Json → Text
    canonical null = lit "null"
    canonical (bool true) = lit "true"
    canonical (bool false) = lit "false"
    canonical (num n) = host.decimal n
    canonical (str s) = host.quote s
    canonical (arr xs) = lit "[" ++ join (canonical_items xs) ++ lit "]"
    canonical (obj fs) = lit "{" ++ join (members (sort_keys (canonical_fields fs))) ++ lit "}"

    pub canonical_items : Items → List Text
    canonical_items nil = []
    canonical_items (cons x xs) = canonical x ∷ canonical_items xs

    pub canonical_fields : Fields → List (Text × Text)
    canonical_fields end = []
    canonical_fields (field k v fs) = (k, canonical v) ∷ canonical_fields fs

insert_text : Text → List Text → List Text
unfolding text_le
insert_text x [] = x ∷ []
insert_text x (y ∷ ys) = if text_le x y then x ∷ y ∷ ys else y ∷ insert_text x ys

-- `Array.prototype.sort` on strings.
unfoldable pub sort_texts : List Text → List Text
unfolding insert_text
sort_texts [] = []
sort_texts (x ∷ xs) = insert_text x (sort_texts xs)
