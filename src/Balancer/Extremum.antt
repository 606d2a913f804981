-- ===== src/Balancer/Extremum.antt =====
-- Python's `min` and `max` with a key: the first element whose key is least, or greatest.
use distributed_tickit_syste.Common.{
  ◌≡◌, refl, Bool, true, false, List, [], ◌∷◌, if◌then◌else◌, Bool-cases, inl, inr,
}
use mathlib.Core.List.{Memᴰ}

module _ {ℓ} {A : Type ℓ} where
  -- The loop of both: a later element replaces the best so far if it beats it.
  unfoldable pub best_from : (A → A → Bool) → A → List A → A
  best_from beats best [] = best
  best_from beats best (x ∷ xs) = best_from beats (if beats x best then x else best) xs

  skip_second : {r x y : A} {xs : List A} → Memᴰ r (x ∷ xs) → Memᴰ r (x ∷ y ∷ xs)
  skip_second (Memᴰ.head e) = Memᴰ.head e
  skip_second (Memᴰ.tail m) = Memᴰ.tail (Memᴰ.tail m)

  pub best_from-mem :
      (beats : A → A → Bool) (best : A) (xs : List A) → Memᴰ (best_from beats best xs) (best ∷ xs)
  unfolding best_from
  best_from-mem beats best [] = Memᴰ.head refl
  best_from-mem beats best (x ∷ xs) = elim (Bool-cases (beats x best)) [
    | inl e ↦ rw e (Memᴰ.tail (best_from-mem beats x xs))
    | inr e ↦ rw e (skip_second (best_from-mem beats best xs))
  ]

  module _ (beats : A → A → Bool)
      (negative : (x y z : A) → beats x y ≡ false → beats y z ≡ false → beats x z ≡ false)
      (asym : (x y : A) → beats x y ≡ true → beats y x ≡ false) where
    irrefl : (x : A) → beats x x ≡ false
    irrefl x = elim (Bool-cases (beats x x)) [ inl e ↦ asym x x e | inr e ↦ e ]

    start_unbeaten : (best : A) (xs : List A) → beats best (best_from beats best xs) ≡ false
    unfolding best_from
    start_unbeaten best [] = irrefl best
    start_unbeaten best (x ∷ xs) = elim (Bool-cases (beats x best)) [
      | inl e ↦ rw e (negative best x (best_from beats x xs) (asym x best e) (start_unbeaten x xs))
      | inr e ↦ rw e (start_unbeaten best xs)
    ]

    rest_unbeaten :
        (best : A) (xs : List A) {z : A} → Memᴰ z xs → beats z (best_from beats best xs) ≡ false
    unfolding best_from
    rest_unbeaten best [] m = elim m [ ]
    rest_unbeaten best (x ∷ xs) {z} (Memᴰ.head p) = elim (Bool-cases (beats x best)) [
      | inl e ↦ rw (e, p) (start_unbeaten x xs)
      | inr e ↦ rw (e, p) (negative x best (best_from beats best xs) e (start_unbeaten best xs))
    ]
    rest_unbeaten best (x ∷ xs) {z} (Memᴰ.tail m) =
        rest_unbeaten (if beats x best then x else best) xs m

    -- No element beats the best one.
    pub best_from-unbeaten :
        (best : A) (xs : List A) {z : A}
        → Memᴰ z (best ∷ xs)
        → beats z (best_from beats best xs) ≡ false
    best_from-unbeaten best xs (Memᴰ.head p) = rw p (start_unbeaten best xs)
    best_from-unbeaten best xs (Memᴰ.tail m) = rest_unbeaten best xs m
