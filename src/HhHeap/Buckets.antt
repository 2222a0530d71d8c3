-- ===== src/HhHeap/Buckets.antt =====
-- The index: which positions a bucket holds, and what each change of the index does to that.
use asap_sketchlib.Prelude.{
  ℕ, zero, suc, ◌+◌, ◌-◌, ◌<◌, ◌≡◌, refl, ◌∙◌, List, [], ◌∷◌, arith, true, Option, none, some,
  Bool-cases, inl, inr, ltb, ◌==◌, length, get_or, take,
}
use asap_sketchlib.Heap.Items.{one_if, count, count-push}
use asap_sketchlib.HhHeap.{
  changed, pushed, replace_first, holds_position, remove_position, kept_bucket, dropped,
}

-- how often a position stands in a bucket
abbrev pub times : ℕ → List ℕ → ℕ
times i bucket = count (λ entry. entry == i) bucket

-- the positions of a bucket, none where the map has no bucket
abbrev pub entries : Option (List ℕ) → List ℕ
entries none = []
entries (some bucket) = bucket

times-replace_first :
    (start target i : ℕ) (bucket : List ℕ)
    → 0 < times start bucket
    → times i (replace_first start target bucket) + one_if (start == i)
      ≡ times i bucket + one_if (target == i)
unfolding replace_first
times-replace_first start target i [] held = absurd (omega arith)
times-replace_first start target i (entry ∷ bucket) held = elim (Bool-cases (entry == start)) [
  | inl here ↦ rw here (ground (arith, here))
  | inr other ↦ rw other (
      ground
        (arith, other, times-replace_first start target i bucket (ground (arith, other, held))))
]

pub times-pushed :
    (idx i : ℕ) (o : Option (List ℕ))
    → times i (entries (pushed idx o)) ≡ times i (entries o) + one_if (idx == i)
unfolding pushed
times-pushed idx i none = omega arith
times-pushed idx i (some bucket) = count-push (λ entry. entry == i) bucket idx

pub times-changed :
    (start target i : ℕ) (o : Option (List ℕ))
    → 0 < times start (entries o)
    → times i (entries (changed (replace_first start target) o)) + one_if (start == i)
      ≡ times i (entries o) + one_if (target == i)
unfolding changed
times-changed start target i none held = absurd (omega arith)
times-changed start target i (some bucket) held = times-replace_first start target i bucket held

-- an entry of the bucket after a replacement is the new one or the old one
get_or-replace_first :
    (start target j : ℕ) (bucket : List ℕ)
    → get_or bucket j 0 ≡ target
    → get_or (replace_first start target bucket) j 0 ≡ target
unfolding replace_first
get_or-replace_first start target j [] e = e
get_or-replace_first start target zero (entry ∷ bucket) e = elim (Bool-cases (entry == start)) [
  | inl here ↦ rw here refl
  | inr other ↦ rw other e
]
get_or-replace_first start target (suc j) (entry ∷ bucket) e = elim (Bool-cases (entry == start)) [
  | inl here ↦ rw here e
  | inr other ↦ rw other (get_or-replace_first start target j bucket e)
]

length-replace_first :
    (start target : ℕ) (bucket : List ℕ)
    → length (replace_first start target bucket) ≡ length bucket
unfolding replace_first
length-replace_first start target [] = refl
length-replace_first start target (entry ∷ bucket) =
    ground (arith, length-replace_first start target bucket)

-- all but the last
times-take :
    (n i : ℕ) (bucket : List ℕ)
    → length bucket ≡ suc n
    → times i (take n bucket) + one_if (get_or bucket n 0 == i) ≡ times i bucket
times-take n i [] e = absurd (omega arith)
times-take zero i (entry ∷ []) e = omega arith
times-take zero i (entry ∷ (entry' ∷ bucket)) e = absurd (omega arith)
times-take (suc n) i (entry ∷ bucket) e = omega (arith, times-take n i bucket (omega arith))

holds_position-times :
    (idx : ℕ) (bucket : List ℕ) → holds_position idx bucket ≡ ltb 0 (times idx bucket)
unfolding holds_position
holds_position-times idx [] = refl
holds_position-times idx (entry ∷ bucket) = ground (arith, holds_position-times idx bucket)

length-pos : (idx : ℕ) (bucket : List ℕ) → 0 < times idx bucket → 0 < length bucket
length-pos idx [] held = held
length-pos idx (entry ∷ bucket) held = omega arith

times-remove_position :
    (idx i : ℕ) (bucket : List ℕ)
    → 0 < times idx bucket
    → times i (remove_position idx bucket) + one_if (idx == i) ≡ times i bucket
unfolding remove_position
times-remove_position idx i bucket held =
    let found : holds_position idx bucket ≡ true =
      holds_position-times idx bucket ∙ ground (arith, held) in
    let n : ℕ = length bucket - 1 in
    let last : ℕ = get_or bucket n 0 in
    let moved : List ℕ = replace_first idx last bucket in
    let long : length moved ≡ suc n =
      omega (arith, length-replace_first idx last bucket, length-pos idx bucket held) in
    let at_end : get_or moved n 0 ≡ last = get_or-replace_first idx last n bucket refl in
    rw found (
      ground (arith, times-take n i moved long, times-replace_first idx last i bucket held, at_end))

entries-kept_bucket : (bucket : List ℕ) → entries (kept_bucket bucket) ≡ bucket
unfolding kept_bucket
entries-kept_bucket [] = refl
entries-kept_bucket (entry ∷ bucket) = refl

pub times-dropped :
    (idx i : ℕ) (o : Option (List ℕ))
    → 0 < times idx (entries o)
    → times i (entries (dropped idx o)) + one_if (idx == i) ≡ times i (entries o)
unfolding dropped
times-dropped idx i none held = absurd (omega arith)
times-dropped idx i (some bucket) held =
    rw (entries-kept_bucket (remove_position idx bucket)) (times-remove_position idx i bucket held)
