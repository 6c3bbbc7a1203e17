-- ===== src/Common/Order.antt =====
-- `Ord`: a comparison with the laws that the trait asks for, and its derived instances.
use Prim.Native.Nat.{ℕ, compare, Ordering}
use Prim.Native.Nat.Ordering.{lt, eq, gt}
use mathlib.Core.Path.{◌≡◌, refl}
use mathlib.Core.Logic.{◌↔◌}
use mathlib.Core.Bool.{Bool, true, false}
use mathlib.Core.List.{List, [], ◌∷◌}
use native.Mathlib.Omega.{arith}

abbrev pub flip : Ordering → Ordering
flip lt = gt
flip eq = eq
flip gt = lt

abbrev pub lex : Ordering → Ordering → Ordering
lex eq second = second
lex first _ = first

pub record Ord {ℓ} (K : Type ℓ) : Type ℓ where
  pub cmp : K → K → Ordering
  pub cmp_refl : (a : K) → cmp a a ≡ eq
  pub eq_of_cmp : (a b : K) → cmp a b ≡ eq → a ≡ b
  pub cmp_flip : (a b : K) → cmp b a ≡ flip (cmp a b)
  pub cmp_trans : (a b c : K) → cmp a b ≡ lt → cmp b c ≡ lt → cmp a c ≡ lt

-- `a == b` and `a < b`
module _ {ℓ} {K : Type ℓ} ⦃o : Ord K⦄ where
  abbrev pub same : K → K → Bool
  same a b = elim (o.cmp a b) [ eq ↦ true | _ ↦ false ]

  abbrev pub before : K → K → Bool
  before a b = elim (o.cmp a b) [ lt ↦ true | _ ↦ false ]

  pub same-eq : (a b : K) → same a b ≡ true → a ≡ b
  same-eq a b h = o.eq_of_cmp a b (ground arith)

  pub same_refl : (a : K) → same a a ≡ true
  same_refl a = ground (arith, o.cmp_refl a)

  pub same_iff : (a b : K) → (same a b ≡ true) ↔ (a ≡ b)
  same_iff a b = (same-eq a b, λ p. ground (arith, o.cmp_refl a))

pub nat_refl : (a : ℕ) → compare a a ≡ eq
nat_refl a = ground arith

pub nat_eq : (a b : ℕ) → compare a b ≡ eq → a ≡ b
nat_eq a b h = ground arith

pub nat_flip : (a b : ℕ) → compare b a ≡ flip (compare a b)
nat_flip a b = ground arith

pub nat_trans : (a b c : ℕ) → compare a b ≡ lt → compare b c ≡ lt → compare a c ≡ lt
nat_trans a b c h k = ground arith

instance abbrev pub nat_ord : Ord ℕ
nat_ord = record {
  cmp = compare;
  cmp_refl = nat_refl;
  eq_of_cmp = nat_eq;
  cmp_flip = nat_flip;
  cmp_trans = nat_trans;
}

-- A newtype compares by the value that it wraps.
module _ {ℓ κ} {A : Type ℓ} {K : Type κ} ⦃o : Ord K⦄ where
  abbrev pub ord_by : (f : A → K) → ((a b : A) → f a ≡ f b → a ≡ b) → Ord A
  ord_by f inj = record {
    cmp = λ a b. o.cmp (f a) (f b);
    cmp_refl = λ a. o.cmp_refl (f a);
    eq_of_cmp = λ a b h. inj a b (o.eq_of_cmp (f a) (f b) h);
    cmp_flip = λ a b. o.cmp_flip (f a) (f b);
    cmp_trans = λ a b c. o.cmp_trans (f a) (f b) (f c);
  }

-- Pairs and longer tuples compare lexicographically, field by field.
module _ {ℓ κ} {First : Type ℓ} {Second : Type κ} ⦃p : Ord First⦄ ⦃q : Ord Second⦄ where
  abbrev pub cmp_pair : First × Second → First × Second → Ordering
  cmp_pair (a, b) (c, d) = lex (p.cmp a c) (q.cmp b d)

  pub pair_flip : (x y : First × Second) → cmp_pair y x ≡ flip (cmp_pair x y)
  pair_flip (a, b) (c, d) = ground (arith, p.cmp_flip a c, q.cmp_flip b d)

  pub pair_trans :
      (x y z : First × Second) → cmp_pair x y ≡ lt → cmp_pair y z ≡ lt → cmp_pair x z ≡ lt
  pair_trans (a, b) (c, d) (e, f) =
      grind (arith, p.cmp_trans, q.cmp_trans, p.eq_of_cmp a c, p.eq_of_cmp c e)

  pub pair_eq : (x y : First × Second) → cmp_pair x y ≡ eq → x ≡ y
  pair_eq (a, b) (c, d) h = ground (arith, q.eq_of_cmp b d, p.eq_of_cmp a c)

  pub pair_refl : (x : First × Second) → cmp_pair x x ≡ eq
  pair_refl (a, b) = ground (arith, q.cmp_refl b, p.cmp_refl a)

  instance abbrev pub pair_ord : Ord (First × Second)
  pair_ord = record {
    cmp_flip = pair_flip;
    cmp_trans = pair_trans;
    eq_of_cmp = pair_eq;
    cmp_refl = pair_refl;
    cmp = cmp_pair;
  }

-- Byte strings, and so strings, compare lexicographically.
module _ {ℓ} {A : Type ℓ} ⦃a : Ord A⦄ where
  abbrev pub cmp_list : List A → List A → Ordering
  cmp_list [] [] = eq
  cmp_list [] (y ∷ ys) = lt
  cmp_list (x ∷ xs) [] = gt
  cmp_list (x ∷ xs) (y ∷ ys) = lex (a.cmp x y) (cmp_list xs ys)

  pub list_refl : (xs : List A) → cmp_list xs xs ≡ eq
  list_refl [] = refl
  list_refl (x ∷ xs) = simp (a.cmp_refl, list_refl xs)

  pub list_eq : (xs ys : List A) → cmp_list xs ys ≡ eq → xs ≡ ys
  list_eq [] [] h = refl
  list_eq [] (y ∷ ys) h = cc
  list_eq (x ∷ xs) [] h = cc
  list_eq (x ∷ xs) (y ∷ ys) h = ground (arith, a.eq_of_cmp x y, list_eq xs ys)

  pub list_flip : (xs ys : List A) → cmp_list ys xs ≡ flip (cmp_list xs ys)
  list_flip [] [] = refl
  list_flip [] (y ∷ ys) = refl
  list_flip (x ∷ xs) [] = refl
  list_flip (x ∷ xs) (y ∷ ys) = ground (arith, a.cmp_flip x y, list_flip xs ys)

  pub list_trans :
      (xs ys zs : List A) → cmp_list xs ys ≡ lt → cmp_list ys zs ≡ lt → cmp_list xs zs ≡ lt
  list_trans [] [] zs h k = cc
  list_trans [] (y ∷ ys) [] h k = cc
  list_trans [] (y ∷ ys) (z ∷ zs) h k = refl
  list_trans (x ∷ xs) [] zs h k = cc
  list_trans (x ∷ xs) (y ∷ ys) [] h k = cc
  list_trans (x ∷ xs) (y ∷ ys) (z ∷ zs) h k =
      grind (arith, a.eq_of_cmp x y, a.eq_of_cmp y z, a.cmp_trans, list_trans xs ys zs)

  instance abbrev pub list_ord : Ord (List A)
  list_ord = record {
    cmp = cmp_list;
    cmp_refl = list_refl;
    eq_of_cmp = list_eq;
    cmp_flip = list_flip;
    cmp_trans = list_trans;
  }
