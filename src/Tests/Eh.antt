-- ===== src/Tests/Eh.antt =====
-- A histogram of sums, with k = 1, at its fourth update.
use asap_sketchlib.Prelude.{ℕ, ◌+◌, ◌-◌, ◌%◌, ◌^◌, ◌≡◌, some, [], ◌∷◌, Returns}
use asap_sketchlib.Eh.{ExponentialHistogram, drop_expired, update_with}
use asap_sketchlib.Eh.Sizes.{total_size, update-total_size}

abbrev three_items : ExponentialHistogram ℕ
three_items = record {
  payload =
      record { bucket = 4; size = 1; min_time = 1; max_time = 1 }
      ∷ record { bucket = 5; size = 1; min_time = 2; max_time = 2 }
      ∷ record { bucket = 6; size = 1; min_time = 3; max_time = 3 }
      ∷ [];
  window = 10;
  k = 1;
  type_to_clone = 0;
}

update-total_size_example :
    Returns
      (λ s.
        total_size s.payload
        ≡ (total_size (drop_expired (12 - 10) three_items.payload) + 1) % 2 ^ 64)
      (update_with (λ a b. some (a + b)) 12 (λ s. s + 7) three_items)
update-total_size_example = update-total_size (λ a b. some (a + b)) 12 (λ s. s + 7) three_items
