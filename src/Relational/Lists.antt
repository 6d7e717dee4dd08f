-- ===== src/Relational/Lists.antt =====
-- Lists in pairs, and lists that are filtered twice.
use tuplespace.Base.{
  ℕ, zero, suc, ◌≡◌, inl, inr, refl, ap, Bool, false, ◌&&◌, List, [], ◌∷◌, ◌++◌, keep, take, Zip,
  All, Bool-cases,
}

module _ {A : Type 0} where
  pub keep-append : (p : A → Bool) (xs ys : List A) → keep p (xs ++ ys) ≡ keep p xs ++ keep p ys
  keep-append p [] ys = refl
  keep-append p (x ∷ xs) ys = elim (Bool-cases (p x)) [
    | inl e ↦ rw e (ap (◌∷◌ x) (keep-append p xs ys))
    | inr e ↦ rw e (keep-append p xs ys)
  ]

  pub keep-keep : (p q : A → Bool) (xs : List A) → keep q (keep p xs) ≡ keep (λ x. p x && q x) xs
  keep-keep p q [] = refl
  keep-keep p q (x ∷ xs) = elim (Bool-cases (p x)) [
    | inl e ↦ elim (Bool-cases (q x)) [
      | inl f ↦ rw e (rw f (ap (◌∷◌ x) (keep-keep p q xs)))
      | inr f ↦ rw e (rw f (keep-keep p q xs))
    ]
    | inr e ↦ rw e (keep-keep p q xs)
  ]

  pub keep_none : (p : A → Bool) (xs : List A) → All (λ x. p x ≡ false) xs → keep p xs ≡ []
  keep_none p [] h = refl
  keep_none p (x ∷ xs) (e, h) = rw e (keep_none p xs h)

module _ {A B : Type 0} (R : A → B → Type 0) where
  pub Zip-append :
      (xs : List A) (ys : List B) (xs' : List A) (ys' : List B)
      → Zip R xs ys
      → Zip R xs' ys'
      → Zip R (xs ++ xs') (ys ++ ys')
  Zip-append [] [] xs' ys' h k = k
  Zip-append [] (y ∷ ys) xs' ys' h k = absurd h
  Zip-append (x ∷ xs) [] xs' ys' h k = absurd h
  Zip-append (x ∷ xs) (y ∷ ys) xs' ys' (r, h) k = (r, Zip-append xs ys xs' ys' h k)

  pub Zip-take : (n : ℕ) (xs : List A) (ys : List B) → Zip R xs ys → Zip R (take n xs) (take n ys)
  Zip-take zero xs ys h = tt
  Zip-take (suc n) [] [] h = tt
  Zip-take (suc n) [] (y ∷ ys) h = absurd h
  Zip-take (suc n) (x ∷ xs) [] h = absurd h
  Zip-take (suc n) (x ∷ xs) (y ∷ ys) (r, h) = (r, Zip-take n xs ys h)

  -- Tests that agree on related elements keep related lists.
  pub Zip-keep :
      (p : A → Bool) (q : B → Bool) (xs : List A) (ys : List B)
      → ((x : A) (y : B) → R x y → p x ≡ q y)
      → Zip R xs ys
      → Zip R (keep p xs) (keep q ys)
  Zip-keep p q [] [] same h = tt
  Zip-keep p q [] (y ∷ ys) same h = absurd h
  Zip-keep p q (x ∷ xs) [] same h = absurd h
  Zip-keep p q (x ∷ xs) (y ∷ ys) same (r, h) = elim (Bool-cases (q y)) [
    | inl e ↦ rw (same x y r) (rw e (r, Zip-keep p q xs ys same h))
    | inr e ↦ rw (same x y r) (rw e (Zip-keep p q xs ys same h))
  ]

module _ {A B : Type 0} where
  pub Zip-map :
      (R S : A → B → Type 0) (xs : List A) (ys : List B)
      → ((x : A) (y : B) → R x y → S x y)
      → Zip R xs ys
      → Zip S xs ys
  Zip-map R S [] [] f h = tt
  Zip-map R S [] (y ∷ ys) f h = absurd h
  Zip-map R S (x ∷ xs) [] f h = absurd h
  Zip-map R S (x ∷ xs) (y ∷ ys) f (r, h) = (f x y r, Zip-map R S xs ys f h)
