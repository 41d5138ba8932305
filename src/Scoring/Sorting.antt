-- ===== src/Scoring/Sorting.antt =====
-- Lemmas on sorted: two orders of one list, and a list that is mapped first.
use auto_trading_v.Prelude.{
  ℕ, suc, ◌<◌, ◌≡◌, ◌≢◌, refl, ap, sym, ◌∙◌, inl, inr, Bool, false, Bool-cases, List, [], ◌∷◌, map,
  length, arith, ltb,
}
use auto_trading_v.Scoring.Ranks.{insert_sorted, sorted, range_from}

module _ {A : Type 0} (r : A → ℕ) where
  abbrev pub AllOther : ℕ → List A → Type 0
  AllOther n [] = Unit
  AllOther n (x ∷ xs) = (n ≢ r x) × AllOther n xs

  abbrev pub IsDistinct : List A → Type 0
  IsDistinct [] = Unit
  IsDistinct (x ∷ xs) = AllOther (r x) xs × IsDistinct xs

  abbrev pub IsNumbered : ℕ → List A → Type 0
  IsNumbered n [] = Unit
  IsNumbered n (x ∷ xs) = (r x ≡ n) × IsNumbered (suc n) xs

  abbrev pub by_rank : A → A → Bool
  by_rank x y = ltb (r x) (r y)

  insert_comm :
      (x y : A) (l : List A)
      → r x ≢ r y
      → insert_sorted by_rank x (insert_sorted by_rank y l)
        ≡ insert_sorted by_rank y (insert_sorted by_rank x l)
  unfolding insert_sorted
  insert_comm x y [] h = ground arith
  insert_comm x y (z ∷ zs) h = ground (arith, insert_comm x y zs h)

  later-AllOther : (n m : ℕ) (xs : List A) → n < m → IsNumbered m xs → AllOther n xs
  later-AllOther n m [] h a = tt
  later-AllOther n m (x ∷ xs) h a =
      (λ e. absurd (omega (arith, a.0)), later-AllOther n (suc m) xs (omega arith) a.1)

  IsNumbered-IsDistinct : (n : ℕ) (xs : List A) → IsNumbered n xs → IsDistinct xs
  IsNumbered-IsDistinct n [] a = tt
  IsNumbered-IsDistinct n (x ∷ xs) a = (
    later-AllOther (r x) (suc n) xs (omega (arith, a.0)) a.1,
    IsNumbered-IsDistinct (suc n) xs a.1,
  )

  sorted_numbered : (n : ℕ) (xs : List A) → IsNumbered n xs → sorted by_rank xs ≡ xs
  unfolding sorted insert_sorted
  sorted_numbered n [] a = refl
  sorted_numbered n (x ∷ []) a = refl
  sorted_numbered n (x ∷ y ∷ ys) a =
      let rest = sorted_numbered (suc n) (y ∷ ys) a.1 in
      let least : ltb (r y) (r x) ≡ false = ground (arith, a.0, a.1.0) in
      ap (insert_sorted by_rank x) rest ∙ rw least refl

  pub ranks-range : (n : ℕ) (xs : List A) → IsNumbered n xs → map r xs ≡ range_from n (length xs)
  ranks-range n [] a = refl
  ranks-range n (x ∷ xs) a = rw (a.0, ranks-range (suc n) xs a.1) refl

  module _ (before : A → A → Bool) where
    AllOther-insert :
        (n : ℕ) (x : A) (l : List A)
        → n ≢ r x
        → AllOther n l
        → AllOther n (insert_sorted before x l)
    unfolding insert_sorted
    AllOther-insert n x [] h a = (h, tt)
    AllOther-insert n x (y ∷ ys) h a = elim (Bool-cases (before y x)) [
      | inl first ↦ rw first (a.0, AllOther-insert n x ys h a.1)
      | inr last ↦ rw last (h, a)
    ]

    AllOther-back :
        (n : ℕ) (x : A) (l : List A)
        → AllOther n (insert_sorted before x l)
        → (n ≢ r x) × AllOther n l
    unfolding insert_sorted
    AllOther-back n x [] a = a
    AllOther-back n x (y ∷ ys) a = elim (Bool-cases (before y x)) [
      | inl first ↦
          let b : (n ≢ r y) × AllOther n (insert_sorted before x ys) = rw first at a in
          let c = AllOther-back n x ys b.1 in (c.0, (b.0, c.1))
      | inr last ↦ rw last at a
    ]

    insert_sorted-IsDistinct :
        (x : A) (l : List A)
        → AllOther (r x) l
        → IsDistinct l
        → IsDistinct (insert_sorted before x l)
    unfolding insert_sorted
    insert_sorted-IsDistinct x [] a d = (tt, tt)
    insert_sorted-IsDistinct x (y ∷ ys) a d = elim (Bool-cases (before y x)) [
      | inl first ↦
          rw first (
            AllOther-insert (r y) x ys (λ e. a.0 (sym e)) d.0,
            insert_sorted-IsDistinct x ys a.1 d.1,
          )
      | inr last ↦ rw last (a, d)
    ]

    sorted-AllOther : (n : ℕ) (l : List A) → AllOther n l → AllOther n (sorted before l)
    unfolding sorted
    sorted-AllOther n [] a = tt
    sorted-AllOther n (x ∷ xs) a =
        AllOther-insert n x (sorted before xs) a.0 (sorted-AllOther n xs a.1)

    pub sorted-IsDistinct : (l : List A) → IsDistinct l → IsDistinct (sorted before l)
    unfolding sorted
    sorted-IsDistinct [] d = tt
    sorted-IsDistinct (x ∷ xs) d =
        insert_sorted-IsDistinct x (sorted before xs) (sorted-AllOther (r x) xs d.0)
          (sorted-IsDistinct xs d.1)

    IsDistinct-back :
        (x : A) (l : List A)
        → IsDistinct (insert_sorted before x l)
        → AllOther (r x) l × IsDistinct l
    unfolding insert_sorted
    IsDistinct-back x [] d = (tt, tt)
    IsDistinct-back x (y ∷ ys) d = elim (Bool-cases (before y x)) [
      | inl first ↦
          let b : AllOther (r y) (insert_sorted before x ys)
              × IsDistinct (insert_sorted before x ys) =
            rw first at d in
          let c = IsDistinct-back x ys b.1 in
          let o = AllOther-back (r y) x ys b.0 in (((λ e. o.0 (sym e)), c.0), (o.1, c.1))
      | inr last ↦ rw last at d
    ]

    -- Sorting by another key first changes nothing.
    sort-insert :
        (x : A) (l : List A)
        → AllOther (r x) l
        → sorted by_rank (insert_sorted before x l) ≡ insert_sorted by_rank x (sorted by_rank l)
    unfolding sorted insert_sorted
    sort-insert x [] a = refl
    sort-insert x (y ∷ ys) a = elim (Bool-cases (before y x)) [
      | inl first ↦ rw first (
          ap (insert_sorted by_rank y) (sort-insert x ys a.1)
          ∙ insert_comm y x (sorted by_rank ys) (λ e. a.0 (sym e)))
      | inr last ↦ rw last refl
    ]

    sorted-sorted :
        (l : List A) → IsDistinct l → sorted by_rank (sorted before l) ≡ sorted by_rank l
    unfolding sorted
    sorted-sorted [] d = refl
    sorted-sorted (x ∷ xs) d =
        sort-insert x (sorted before xs) (sorted-AllOther (r x) xs d.0)
        ∙ ap (insert_sorted by_rank x) (sorted-sorted xs d.1)

    AllOther-sorted : (n : ℕ) (l : List A) → AllOther n (sorted before l) → AllOther n l
    unfolding sorted
    AllOther-sorted n [] a = tt
    AllOther-sorted n (x ∷ xs) a =
        let b = AllOther-back n x (sorted before xs) a in (b.0, AllOther-sorted n xs b.1)

    IsDistinct-sorted : (l : List A) → IsDistinct (sorted before l) → IsDistinct l
    unfolding sorted
    IsDistinct-sorted [] d = tt
    IsDistinct-sorted (x ∷ xs) d =
        let b = IsDistinct-back x (sorted before xs) d in
        (AllOther-sorted (r x) xs b.0, IsDistinct-sorted xs b.1)

    length-insert : (x : A) (l : List A) → length (insert_sorted before x l) ≡ suc (length l)
    unfolding insert_sorted
    length-insert x [] = refl
    length-insert x (y ∷ ys) = ground (arith, length-insert x ys)

    pub length-sorted : (l : List A) → length (sorted before l) ≡ length l
    unfolding sorted
    length-sorted [] = refl
    length-sorted (x ∷ xs) = length-insert x (sorted before xs) ∙ ap suc (length-sorted xs)

    -- When the ranks number the sorted list, sorting by rank is that sort.
    pub sorted-by_rank :
        (n : ℕ) (l : List A) → IsNumbered n (sorted before l) → sorted by_rank l ≡ sorted before l
    sorted-by_rank n l a =
        let d = IsDistinct-sorted l (IsNumbered-IsDistinct n (sorted before l) a) in
        sym (sorted-sorted l d) ∙ sorted_numbered n (sorted before l) a

module _ {A B : Type 0} (f : A → B) (b : B → B → Bool) where
  insert-map :
      (x : A) (l : List A)
      → insert_sorted b (f x) (map f l) ≡ map f (insert_sorted (λ y z. b (f y) (f z)) x l)
  unfolding insert_sorted
  insert-map x [] = refl
  insert-map x (y ∷ ys) = elim (Bool-cases (b (f y) (f x))) [
    | inl first ↦ rw first (ap (λ l. f y ∷ l) (insert-map x ys))
    | inr last ↦ rw last refl
  ]

  pub sorted-map : (l : List A) → sorted b (map f l) ≡ map f (sorted (λ y z. b (f y) (f z)) l)
  unfolding sorted
  sorted-map [] = refl
  sorted-map (x ∷ xs) =
      ap (insert_sorted b (f x)) (sorted-map xs) ∙ insert-map x (sorted (λ y z. b (f y) (f z)) xs)
