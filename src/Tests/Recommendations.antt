-- ===== src/Tests/Recommendations.antt =====
-- A recommendation, for a customer with one purchase.
use retail_segmentation.Prelude.{◌+◌, ◌≤◌, ◌≡◌, refl, some, List, [], ◌∷◌, length, All, ok}
use retail_segmentation.Recommendations.{
  Answer, Item, Line, Parents, Profile, Reads, assigned, climb, lineage, rank, recommend,
}
use retail_segmentation.Recommendations.Ancestry.{lineage_lem}
use retail_segmentation.Recommendations.Answers.{
  IsCoherent, IsRelevant, rank-IsRelevant, recommend-IsCoherent,
}

-- Two categories that are each other's parent, under no third.
abbrev cyclic : Parents
cyclic = (4, some 5) ∷ (5, some 4) ∷ []

abbrev purchase : Line
purchase = record {
  transaction_id = 11;
  store_id = 2;
  product_id = 70;
  category_id = 4;
  quantity = 1;
  unit_price = 250;
}

abbrev views : Reads
views = record {
  current_label = λ c. record { state = assigned; label_code = some 1; run_id = some 9 };
  purchase_lines = λ c since until. purchase ∷ [];
  stocked_products = λ s. record { product_id = 71; category_id = 5; quantity_on_hand = 3 } ∷ [];
  segment_buyers = λ code c since until. (71, 2) ∷ [];
  interest_categories = λ c. [];
  category_parents = cyclic;
}

abbrev known : Profile
known = record {
  preferred = 5 ∷ [];
  category_purchases = (4, 1) ∷ [];
  parents = cyclic;
  total_purchases = 1;
  purchased = 70 ∷ [];
  buyers = (71, 2) ∷ [];
}

lineage_lem_example : 4 ∷ climb (3 + 2) cyclic 4 [] ≡ lineage 4 cyclic
lineage_lem_example = lineage_lem 3 4 cyclic

rank-IsRelevant_example :
    (items : List Item) × (rank known (views.stocked_products 2) 5 ≡ ok items)
    × All (IsRelevant known) items
    × (length items ≤ 5)
rank-IsRelevant_example = rank-IsRelevant known 0 (views.stocked_products 2) 5 refl

recommend-IsCoherent_example :
    (a : Answer) × (recommend views 1 100000000 5 ≡ ok a) × IsCoherent 5 a
recommend-IsCoherent_example = recommend-IsCoherent views 1 100000000 5
