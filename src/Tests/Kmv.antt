-- ===== src/Tests/Kmv.antt =====
-- A KMV sketch of two hashes.
use asap_sketchlib.Prelude.{[], ◌∷◌, for_each, reverse_aux, Returns}
use asap_sketchlib.Kmv.{new, insert_by_hash}
use asap_sketchlib.Kmv.Smallest.{KeepsSmallest, stream-KeepsSmallest}

stream-KeepsSmallest_example :
    Returns
      (KeepsSmallest 2 (reverse_aux (9 ∷ 4 ∷ 9 ∷ 7 ∷ 2 ∷ []) []))
      (for_each (9 ∷ 4 ∷ 9 ∷ 7 ∷ 2 ∷ []) insert_by_hash (new 2))
stream-KeepsSmallest_example = stream-KeepsSmallest 2 (9 ∷ 4 ∷ 9 ∷ 7 ∷ 2 ∷ [])
