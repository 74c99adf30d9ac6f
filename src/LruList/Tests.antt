-- ===== src/LruList/Tests.antt =====
-- `LruList` (orteaf/include/orteaf/internal/base/lru_list.h) on a ring of three nodes.
use orteaf.Prelude.{◌≡◌, refl, List, [], ◌∷◌, arith}
use orteaf.LruList.{LruList, init, touch, push_front, pop_back, remove}
use orteaf.LruList.Ring.{Represents, init-Represents}
use orteaf.LruList.Refinement.{
  Op, touch_op, push_front_op, pop_back_op, remove_op, perform_all, perform_all_list,
  perform_all-Represents,
}

abbrev ring : LruList
ring = init (λ n. 7) (λ n. 9)

abbrev script : List Op
script =
    push_front_op 10
    ∷ push_front_op 11
    ∷ push_front_op 12
    ∷ touch_op 10
    ∷ remove_op 12
    ∷ pop_back_op
    ∷ []

perform_all_run : (perform_all script ring).0 ≡ 0 ∷ 0 ∷ 0 ∷ 0 ∷ 0 ∷ 11 ∷ []
unfolding perform_all init touch push_front pop_back remove
perform_all_run = refl

perform_all-Represents_example :
    ((perform_all script ring).0 ≡ (perform_all_list script []).0)
    × Represents (perform_all script ring).1 (perform_all_list script []).1
unfolding perform_all_list
perform_all-Represents_example =
    perform_all-Represents script ring [] (init-Represents _ _) (omega arith)
