-- ===== src/Common/Framing.antt =====
-- Fields that carry their length, as crates/policy/src/lib.rs and crates/evaluation/src/canonical.rs
-- write them: a field can be split off in one way only, and its size.
use mathlib.Core.List.{append_assoc}
use rust_factory.Common.{
  ◌≡◌, refl, sym, ◌∙◌, List, [], ◌∷◌, ◌++◌, Bytes, length, All, arith, append-cancel-length,
}
use rust_factory.Common.Decimal.{decimal, decimal-injective, IsDigit, decimal-IsDigit}

-- One round of the loop in `fields`: length, colon, bytes, newline.
unfoldable pub field : Bytes → Bytes
field value = decimal (length value) ++ b':' ∷ (value ++ b'\n' ∷ [])

-- The bytes that `fields` appends.
unfoldable pub fields : List Bytes → Bytes
fields [] = []
fields (value ∷ values) = field value ++ fields values

split_at_colon :
    (ds es xs ys : Bytes)
    → All IsDigit ds
    → All IsDigit es
    → ds ++ b':' ∷ xs ≡ es ++ b':' ∷ ys
    → (ds ≡ es) × (xs ≡ ys)
split_at_colon [] [] xs ys d e h = (refl, cc)
split_at_colon [] (c ∷ es) xs ys d e h = absurd (ground arith)
split_at_colon (c ∷ ds) [] xs ys d e h = absurd (ground arith)
split_at_colon (c ∷ ds) (c' ∷ es) xs ys d e h =
    let (heads, tails) = split_at_colon ds es xs ys d.1 e.1 (cc) in (cc heads, tails)

pub field_split : (v w xs ys : Bytes) → field v ++ xs ≡ field w ++ ys → (v ≡ w) × (xs ≡ ys)
unfolding field
field_split v w xs ys h =
    let (counts, bodies) =
      split_at_colon (decimal (length v)) (decimal (length w)) ((v ++ b'\n' ∷ []) ++ xs)
        ((w ++ b'\n' ∷ []) ++ ys) (decimal-IsDigit (length v)) (decimal-IsDigit (length w))
        (sym (append_assoc (decimal (length v)) (b':' ∷ (v ++ b'\n' ∷ [])) xs)
          ∙ h
          ∙ append_assoc (decimal (length w)) (b':' ∷ (w ++ b'\n' ∷ [])) ys) in
    let (values, rest) =
      append-cancel-length v w (b'\n' ∷ xs) (b'\n' ∷ ys)
        (decimal-injective (length v) (length w) counts)
        (sym (append_assoc v (b'\n' ∷ []) xs) ∙ bodies ∙ append_assoc w (b'\n' ∷ []) ys) in
    (values, cc rest)

pub fields_split :
    (vs ws : List Bytes) (xs ys : Bytes)
    → length vs ≡ length ws
    → fields vs ++ xs ≡ fields ws ++ ys
    → (vs ≡ ws) × (xs ≡ ys)
unfolding fields
fields_split [] [] xs ys l h = (refl, h)
fields_split [] (w ∷ ws) xs ys l h = absurd (omega arith)
fields_split (v ∷ vs) [] xs ys l h = absurd (omega arith)
fields_split (v ∷ vs) (w ∷ ws) xs ys l h =
    let (heads, rest) =
      field_split v w (fields vs ++ xs) (fields ws ++ ys)
        (sym (append_assoc (field v) (fields vs) xs) ∙ h ∙ append_assoc (field w) (fields ws) ys) in
    let (tails, last) = fields_split vs ws xs ys (omega arith) rest in (cc (heads, tails), last)
