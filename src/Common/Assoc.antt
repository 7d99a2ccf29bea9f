-- ===== src/Common/Assoc.antt =====
-- Go maps keyed by text, as association lists: `m[k]` and `m[k] = v`.
use Prim.Native.String.{String}
use mathlib.Core.Path.{◌≡◌, refl}
use mathlib.Core.List.{List, [], ◌∷◌}
use mathlib.Core.Option.{Option, none, some}
use native.Mathlib.Omega.{arith}
use text.Mathlib.Text.{◌==◌ as str_eq}
use text.Mathlib.TextEquality.{eq_iff}
use re_lab.Common.Tests.{if◌then◌else◌}

module _ {ℓ} {Value : Type ℓ} where
  unfoldable pub lookup : String → List (String × Value) → Option Value
  lookup key [] = none
  lookup key ((name, value) ∷ rest) = if str_eq name key then some value else lookup key rest

  -- An entry that exists is replaced where it stands; a new one goes to the end.
  unfoldable pub insert : String → Value → List (String × Value) → List (String × Value)
  insert key new [] = (key, new) ∷ []
  insert key new ((name, value) ∷ rest) =
      if str_eq name key then (key, new) ∷ rest else (name, value) ∷ insert key new rest

  -- What a map reads at any key after one assignment.
  pub lookup-insert :
      (written read : String) (new : Value) (entries : List (String × Value))
      → lookup read (insert written new entries)
        ≡ (if str_eq written read then some new else lookup read entries)
  unfolding lookup insert
  lookup-insert written read new [] = refl
  lookup-insert written read new ((name, value) ∷ rest) = ground (
    arith,
    lookup-insert written read new rest,
    eq_iff name written,
    eq_iff name read,
    eq_iff written read,
  )
