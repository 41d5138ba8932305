-- ===== src/Scoring/Ranking.antt =====
-- deterministic_ranks (domain/feature_scoring/scoring.py) against the rank checks of aggregate.py.
use auto_trading_v.Prelude.{
  ℕ, suc, ◌≡◌, refl, ap, sym, ◌∙◌, List, [], ◌∷◌, map, length, arith, ltb, codes_eq_refl, ok,
}
use auto_trading_v.Scoring.Ranks.{
  sorted, RankingInput, input_before, key_lt, numbered, deterministic_ranks, ScoredItem, rank_in,
  item_of, item_key, ranked_items, range_from, check_ranks,
}
use auto_trading_v.Scoring.Sorting.{
  IsDistinct, AllOther, IsNumbered, sorted-IsDistinct, length-sorted, sorted-by_rank, sorted-map,
  ranks-range,
}

abbrev pub key_of : RankingInput → ℕ
key_of e = e.key

rank_in-later :
    (c n m : ℕ) (ranks : List (ℕ × ℕ)) (l : List RankingInput)
    → AllOther key_of c l
    → IsNumbered (λ e. rank_in e.key ranks) m l
    → IsNumbered (λ e. rank_in e.key ((c, n) ∷ ranks)) m l
rank_in-later c n m ranks [] a h = tt
rank_in-later c n m ranks (e ∷ es) a h =
    (ground (arith, a.0, h.0), rank_in-later c n (suc m) ranks es a.1 h.1)

numbered-IsNumbered :
    (n : ℕ) (l : List RankingInput)
    → IsDistinct key_of l
    → IsNumbered (λ e. rank_in e.key (numbered n l)) n l
numbered-IsNumbered n [] d = tt
numbered-IsNumbered n (e ∷ es) d = (
  ground arith,
  rank_in-later e.key n (suc n) (numbered (suc n) es) es d.0 (numbered-IsNumbered (suc n) es d.1),
)

-- of entries with distinct keys: their ranks number them in the order of the policy
module _ (entries : List RankingInput) (d : IsDistinct key_of entries) where
  abbrev ordered : List RankingInput
  ordered = sorted input_before entries

  abbrev rank_of : RankingInput → ℕ
  rank_of e = rank_in e.key (numbered 1 ordered)

  ordered-IsNumbered : IsNumbered rank_of 1 ordered
  ordered-IsNumbered =
      numbered-IsNumbered 1 ordered (sorted-IsDistinct key_of input_before entries d)

  ranks_sequence : sorted ltb (map rank_of entries) ≡ range_from 1 (length entries)
  ranks_sequence =
      sorted-map rank_of ltb entries
      ∙ ap (map rank_of) (sorted-by_rank rank_of input_before 1 entries ordered-IsNumbered)
      ∙ ranks-range rank_of 1 ordered ordered-IsNumbered
      ∙ ap (range_from 1) (length-sorted rank_of input_before entries)

  module _ (id_for : ℕ → ℕ) where
    abbrev items : List ScoredItem
    items = map (item_of id_for (numbered 1 ordered)) entries

    items_by_rank :
        sorted (λ i j. key_lt (item_key i) (item_key j)) items
        ≡ sorted (λ i j. ltb i.rank j.rank) items
    items_by_rank =
        let item = item_of id_for (numbered 1 ordered) in
        sorted-map item (λ i j. key_lt (item_key i) (item_key j)) entries
        ∙ ap (map item) (sym (sorted-by_rank rank_of input_before 1 entries ordered-IsNumbered))
        ∙ sym (sorted-map item (λ i j. ltb i.rank j.rank) entries)

    items_sequence : sorted ltb (map (λ i. i.rank) items) ≡ range_from 1 (length items)
    items_sequence =
        let item = item_of id_for (numbered 1 ordered) in
        ap (sorted ltb) (ranks-item entries)
        ∙ ranks_sequence
        ∙ ap (range_from 1) (sym (length-items entries))
      where
        ranks-item :
            (l : List RankingInput)
            → map (λ i. i.rank) (map (item_of id_for (numbered 1 ordered)) l) ≡ map rank_of l
        ranks-item [] = refl
        ranks-item (e ∷ es) = ap (λ l. rank_of e ∷ l) (ranks-item es)

        length-items :
            (l : List RankingInput)
            → length (map (item_of id_for (numbered 1 ordered)) l) ≡ length l
        length-items [] = refl
        length-items (e ∷ es) = ap suc (length-items es)

    -- For any scored entries with distinct keys and any identifiers, the items that get the
    -- entries' ranks from deterministic_ranks pass the aggregate's checks of ranks: the ranks are 1
    -- to n in some order, and sorting the items by the aggregate's key gives the order of their
    -- ranks, ties included.
    pub check_ranks-ranked_items : check_ranks (ranked_items id_for entries) ≡ ok tt
    unfolding check_ranks ranked_items deterministic_ranks
    check_ranks-ranked_items =
        rw
          (
            items_sequence,
            items_by_rank,
            codes_eq_refl (range_from 1 (length items)),
            codes_eq_refl (map (λ i. i.item_id) (sorted (λ i j. ltb i.rank j.rank) items)),
          )
          refl
