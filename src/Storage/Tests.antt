-- ===== src/Storage/Tests.antt =====
-- Runs of webrender/src/storage.rs on concrete vectors.
use webrender.Prelude.{ℕ, ◌≡◌, refl, [], ◌∷◌, panic, arith}
use webrender.Storage.{Storage, extend, index_range}
use webrender.Storage.Laws.{Stores, extend-Stores}

abbrev two_items : Storage ℕ
two_items = record { items = 5 ∷ 6 ∷ [] }

index_range_past : index_range two_items (record { start = 1; end = 3 }) ≡ panic
unfolding index_range
index_range_past = refl

extend-Stores_example : Stores two_items (7 ∷ 8 ∷ []) (extend two_items (7 ∷ 8 ∷ []))
extend-Stores_example = extend-Stores two_items (7 ∷ 8 ∷ []) (omega arith)
