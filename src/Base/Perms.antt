-- ===== src/Base/Perms.antt =====
-- What a permutation keeps: the elements, the length by native numbers, and the lists that its
-- elements stand for.
use mathlib.Core.Logic.{∥∥₁_elim}
use mathlib.Core.List.{Perm, Permᴰ, Perm-prop, perm_append_comm, foldr, flat_map}
use mathlib.Core.List.Perm
use uzh_blockchain_data_coll.Base.{
  ℕ, suc, Bool, false, List, [], ◌∷◌, ◌||◌, ◌==◌, contains, length, Eq, ◌≡◌, refl, arith, sym, ap,
  ◌∙◌, ◌++◌, append_assoc,
}

length-foldr : {A : Type 0} (xs : List A) → length xs ≡ foldr (λ x n. suc n) 0 xs
length-foldr [] = refl
length-foldr (x ∷ xs) = ap suc (length-foldr xs)

pub length-perm : {A : Type 0} (xs ys : List A) → Perm xs ys → length xs ≡ length ys
length-perm {A} xs ys p =
    length-foldr xs
    ∙ Perm.foldr-eq (hlevel) (λ (x : A) (n : ℕ). suc n) (λ x y n. refl) p 0
    ∙ sym (length-foldr ys)

module _ {A : Type 0} ⦃e : Eq A⦄ (a : A) where
  is_found : A → Bool → Bool
  is_found x b = a == x || b

  contains-foldr : (xs : List A) → contains xs a ≡ foldr is_found false xs
  unfolding is_found
  contains-foldr [] = refl
  contains-foldr (x ∷ xs) = ap (λ b. a == x || b) (contains-foldr xs)

  is_found_comm : (x y : A) (b : Bool) → is_found x (is_found y b) ≡ is_found y (is_found x b)
  unfolding is_found
  is_found_comm x y b = ground arith

  pub contains-perm : (xs ys : List A) → Perm xs ys → contains xs a ≡ contains ys a
  contains-perm xs ys p =
      contains-foldr xs
      ∙ Perm.foldr-eq (hlevel) is_found is_found_comm p false
      ∙ sym (contains-foldr ys)

module _ {A B : Type 0} (f : A → List B) where
  two_first : (a b : A) (ys : List B) → Perm (f a ++ (f b ++ ys)) (f b ++ (f a ++ ys))
  two_first a b ys =
      rw (sym (append_assoc (f a) (f b) ys), sym (append_assoc (f b) (f a) ys))
        (Perm.append_right ys (perm_append_comm (f a) (f b)))

  flat_map-steps : {xs ys : List A} → Permᴰ xs ys → Perm (flat_map f xs) (flat_map f ys)
  unfolding flat_map
  flat_map-steps Permᴰ.nil = Perm.refl []
  flat_map-steps (Permᴰ.cons {b} e p) = rw e (Perm.append_left (f b) (flat_map-steps p))
  flat_map-steps (Permᴰ.swap {a' = c} {b' = d} {l} e e') = rw (e, e') (two_first d c (flat_map f l))
  flat_map-steps (Permᴰ.trans p q) = Perm.trans (flat_map-steps p) (flat_map-steps q)

  -- The lists behind the elements of a permutation are a permutation of each other.
  pub flat_map-perm : (xs ys : List A) → Perm xs ys → Perm (flat_map f xs) (flat_map f ys)
  flat_map-perm xs ys p = ∥∥₁_elim p Perm-prop flat_map-steps
