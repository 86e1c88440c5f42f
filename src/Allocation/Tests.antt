-- ===== src/Allocation/Tests.antt =====
-- Runs of `allocate` on small inputs, and the theorems at inputs that meet their conditions.
use aimless_onions.Prelude.{◌+◌, ◌^◌, ◌<◌, length, ◌≡◌, ◌≤◌, refl, arith, some, List, [], ◌∷◌}
use aimless_onions.NodeName.{subtree_size, left, right}
use aimless_onions.Allocation.{
  AllocationRequest, Allocation, allocate, scale_all, sort_by_key, insert_by_key, key_cmp,
  sum_weight, run, pop_heap, is_lt, partial_cmp, round, split_round, split_cells, take_round,
  push_node, insert_empty,
}
use aimless_onions.Allocation.Cells.{size_of, owners, all_sizes}
use aimless_onions.Allocation.Shares.{
  IsWeighted, bought, allocate_total, allocate_sizes, allocate_exclusive, allocate_coverage,
}

abbrev relays : List AllocationRequest
relays =
    record { id = 0; key = 5 ∷ []; weight = 1 }
    ∷ record { id = 1; key = 3 ∷ []; weight = 2 }
    ∷ record { id = 2; key = 4 ∷ []; weight = 1 }
    ∷ []

abbrev shared_out : List Allocation
shared_out =
    record { id = 1; nodes = record { len = 1; path = 1 } ∷ [] }
    ∷ record { id = 2; nodes = record { len = 2; path = 0 } ∷ [] }
    ∷ record { id = 0; nodes = record { len = 2; path = 1 } ∷ [] }
    ∷ []

three_relays : allocate relays ≡ some shared_out
unfolding allocate left right subtree_size scale_all sort_by_key insert_by_key key_cmp sum_weight
    run pop_heap is_lt partial_cmp round split_round split_cells take_round push_node insert_empty
three_relays = refl

relays-IsWeighted : IsWeighted relays
relays-IsWeighted = record { positive = omega arith; fits = omega arith }

allocate_total_example : (result : List Allocation) × (allocate relays ≡ some result)
allocate_total_example = allocate_total relays relays-IsWeighted

allocate_sizes_example : size_of 2 shared_out ≡ bought relays 2
allocate_sizes_example = allocate_sizes relays shared_out relays-IsWeighted three_relays 2

allocate_exclusive_example : owners 7 shared_out ≤ 1
allocate_exclusive_example = allocate_exclusive relays shared_out relays-IsWeighted three_relays 7

allocate_coverage_example :
    (all_sizes shared_out ≤ 2 ^ 32) × (2 ^ 32 < all_sizes shared_out + length relays)
allocate_coverage_example = allocate_coverage relays shared_out relays-IsWeighted three_relays

abbrev pub unequal : List AllocationRequest
unequal =
    record { id = 0; key = 1 ∷ []; weight = 30 } ∷ record { id = 1; key = 2 ∷ []; weight = 10 } ∷ []

abbrev pub three_quarters : List Allocation
three_quarters =
    record { id = 0; nodes = record { len = 1; path = 1 } ∷ record { len = 2; path = 0 } ∷ [] }
    ∷ record { id = 1; nodes = record { len = 2; path = 1 } ∷ [] }
    ∷ []

pub two_relays : allocate unequal ≡ some three_quarters
unfolding allocate left right subtree_size scale_all sort_by_key insert_by_key key_cmp sum_weight
    run pop_heap is_lt partial_cmp round split_round split_cells take_round push_node insert_empty
two_relays = refl

-- The same relays, registered the other way round.
abbrev pub swapped : List AllocationRequest
swapped =
    record { id = 0; key = 2 ∷ []; weight = 10 } ∷ record { id = 1; key = 1 ∷ []; weight = 30 } ∷ []

abbrev pub three_quarters_too : List Allocation
three_quarters_too =
    record { id = 1; nodes = record { len = 1; path = 1 } ∷ record { len = 2; path = 0 } ∷ [] }
    ∷ record { id = 0; nodes = record { len = 2; path = 1 } ∷ [] }
    ∷ []

pub swapped_relays : allocate swapped ≡ some three_quarters_too
unfolding allocate left right subtree_size scale_all sort_by_key insert_by_key key_cmp sum_weight
    run pop_heap is_lt partial_cmp round split_round split_cells take_round push_node insert_empty
swapped_relays = refl
