-- ===== src/Recommendations/Order.antt =====
-- The order of texts, and lists that are sorted by it.
use auto_trading_v.Prelude.{
  ◌==◌, ◌≡◌, refl, ap, ◌∙◌, inl, inr, Bool, true, false, Bool-cases, ◌||◌, ◌&&◌, List, [], ◌∷◌, any,
  all, arith,
}
use auto_trading_v.Text.{Text}
use auto_trading_v.Scoring.Ranks.{insert_sorted, sorted, text_lt}

module _ {A : Type 0} (before : A → A → Bool) where
  pub any-insert :
      (p : A → Bool) (x : A) (l : List A) → any p (insert_sorted before x l) ≡ (p x || any p l)
  unfolding insert_sorted
  any-insert p x [] = refl
  any-insert p x (y ∷ ys) = ground (arith, any-insert p x ys)

  pub any-sorted : (p : A → Bool) (l : List A) → any p (sorted before l) ≡ any p l
  unfolding sorted
  any-sorted p [] = refl
  any-sorted p (x ∷ xs) = any-insert p x (sorted before xs) ∙ ap (λ b. p x || b) (any-sorted p xs)

  pub all-insert :
      (p : A → Bool) (x : A) (l : List A) → all p (insert_sorted before x l) ≡ (p x && all p l)
  unfolding insert_sorted
  all-insert p x [] = refl
  all-insert p x (y ∷ ys) = ground (arith, all-insert p x ys)

  pub all-sorted : (p : A → Bool) (l : List A) → all p (sorted before l) ≡ all p l
  unfolding sorted
  all-sorted p [] = refl
  all-sorted p (x ∷ xs) = all-insert p x (sorted before xs) ∙ ap (λ b. p x && b) (all-sorted p xs)

  abbrev pub IsFirst : A → List A → Type 0
  IsFirst x [] = Unit
  IsFirst x (y ∷ ys) = before y x ≡ false

  abbrev pub IsOrdered : List A → Type 0
  IsOrdered [] = Unit
  IsOrdered (x ∷ xs) = IsFirst x xs × IsOrdered xs

  pub sorted_ordered : (l : List A) → IsOrdered l → sorted before l ≡ l
  unfolding sorted insert_sorted
  sorted_ordered [] o = refl
  sorted_ordered (x ∷ []) o = refl
  sorted_ordered (x ∷ y ∷ ys) o =
      ap (insert_sorted before x) (sorted_ordered (y ∷ ys) o.1) ∙ rw o.0 refl

  module _ (asymmetric : (x y : A) → before x y ≡ true → before y x ≡ false) where
    IsFirst-insert :
        (x y : A) (l : List A)
        → before x y ≡ false
        → IsFirst y l
        → IsFirst y (insert_sorted before x l)
    unfolding insert_sorted
    IsFirst-insert x y [] h f = h
    IsFirst-insert x y (z ∷ zs) h f = elim (Bool-cases (before z x)) [
      | inl first ↦ rw first f
      | inr last ↦ rw last h
    ]

    insert_sorted-IsOrdered :
        (x : A) (l : List A) → IsOrdered l → IsOrdered (insert_sorted before x l)
    unfolding insert_sorted
    insert_sorted-IsOrdered x [] o = (tt, tt)
    insert_sorted-IsOrdered x (y ∷ ys) o = elim (Bool-cases (before y x)) [
      | inl first ↦
          rw first
            (IsFirst-insert x y ys (asymmetric y x first) o.0, insert_sorted-IsOrdered x ys o.1)
      | inr last ↦ rw last (last, o)
    ]

    pub sorted-IsOrdered : (l : List A) → IsOrdered (sorted before l)
    unfolding sorted
    sorted-IsOrdered [] = tt
    sorted-IsOrdered (x ∷ xs) = insert_sorted-IsOrdered x (sorted before xs) (sorted-IsOrdered xs)

pub text_lt-asymmetric : (xs ys : Text) → text_lt xs ys ≡ true → text_lt ys xs ≡ false
unfolding text_lt
text_lt-asymmetric xs [] h = ground arith
text_lt-asymmetric [] (y ∷ ys) h = refl
text_lt-asymmetric (x ∷ xs) (y ∷ ys) h = ground (arith, h, text_lt-asymmetric xs ys)

pub text_lt-total : (xs ys : Text) → text_lt xs ys ≡ false → text_lt ys xs ≡ false → xs ≡ ys
unfolding text_lt
text_lt-total [] [] h k = refl
text_lt-total [] (y ∷ ys) h k = absurd (ground (arith, h))
text_lt-total (x ∷ xs) [] h k = absurd (ground (arith, k))
text_lt-total (x ∷ xs) (y ∷ ys) h k = elim (Bool-cases (x == y)) [
  | inl same ↦
      let head : x ≡ y = ground (arith, same) in
      let h' : text_lt xs ys ≡ false = ground (arith, h, same) in
      let k' : text_lt ys xs ≡ false = ground (arith, k, head) in
      let tail = text_lt-total xs ys h' k' in cc (head, tail)
  | inr other ↦ absurd (ground (arith, h, k, other))
]
