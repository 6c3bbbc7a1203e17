-- ===== src/Common/Text.antt =====
-- Text as bytes: `str::contains`, and sorting for a test of repeats.
use Prim.Native.Nat.Ordering.{lt}
use mathlib.Core.Bool.{Bool, true, false, ◌&&◌, ◌||◌}
use mathlib.Core.List.{List, [], ◌∷◌}
use rust_factory.Common.Tests.{◌==◌, if◌then◌else◌}
use rust_factory.Common.Lists.{Bytes}
use rust_factory.Common.Order.{Ord, same}

-- `str::contains`
abbrev pub starts_with : Bytes → Bytes → Bool
starts_with [] text = true
starts_with (a ∷ part) [] = false
starts_with (a ∷ part) (b ∷ text) = a == b && starts_with part text

unfoldable pub text_contains : Bytes → Bytes → Bool
text_contains [] part = starts_with part []
text_contains (a ∷ text) part = starts_with part (a ∷ text) || text_contains text part

-- `sort` and `dedup`
module _ {ℓ} {A : Type ℓ} ⦃o : Ord A⦄ where
  unfoldable pub put_in : A → List A → List A
  put_in a [] = a ∷ []
  put_in a (b ∷ bs) = elim (o.cmp b a) [ lt ↦ b ∷ put_in a bs | _ ↦ a ∷ b ∷ bs ]

  unfoldable pub sort : List A → List A
  unfolding put_in
  sort [] = []
  sort (a ∷ rest) = put_in a (sort rest)

  unfoldable pub dedup : List A → List A
  dedup [] = []
  dedup (a ∷ []) = a ∷ []
  dedup (a ∷ b ∷ bs) = let rest = dedup (b ∷ bs) in if same a b then rest else a ∷ rest
