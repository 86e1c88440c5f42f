-- ===== src/Allocation/Round.antt =====
-- The invariant of the loop in aimless-onions/src/allocation.rs, and that each round keeps it.
use aimless_onions.Prelude.{
  ℕ, ◌+◌, ◌-◌, ◌*◌, ◌/◌, ◌^◌, ◌≤◌, ◌<◌, ◌≡◌, refl, sym, ap, ◌∙◌, ◌⊎◌, inl, inr, subst, true, some,
  List, [], ◌∷◌, arith, sum_by, All, All-map, length, if◌then◌else◌, ◌==◌, ltb, Bool-cases, ltb→lt,
  Option,
}
use aimless_onions.Prelude.Powers.{two_pow_pred, two_pow_pos}
use aimless_onions.NodeName.{NodeName, subtree_size}
use aimless_onions.NodeName.Leaves.{subtree_size_lem}
use aimless_onions.Allocation.{
  AllocationRequest, Allocation, State, has_id, round, split_round, take_round,
}
use aimless_onions.Allocation.Cells.{
  IsCell, holders, owners, size_of, all_sizes, ids, split_cells-Splits, push_node-Pushes,
}
use aimless_onions.Allocation.Heap.{Pops}

abbrev pub total_weight : List AllocationRequest → ℕ
total_weight = sum_by (λ r. r.weight)

-- The weight that the requests of an id still have.
abbrev pub weight_of : ℕ → List AllocationRequest → ℕ
weight_of i = sum_by (λ r. if r.id == i then r.weight else 0)

-- `owed i` is the weight of the id `i` at the start, `whole` that of all requests, and `names` are the ids of the entries.
pub record IsRunning (owed : ℕ → ℕ) (whole : ℕ) (names : List ℕ) (s : State) : Type 0 where
  pub depth : ℕ
  pub shallow : depth ≤ 32
  pub size : s.cell_size ≡ 2 ^ (32 - depth)
  pub cells : All (IsCell depth) s.free_cells
  pub budget : total_weight s.heap ≤ length s.free_cells * s.cell_size
  pub paid : (i : ℕ) → weight_of i s.heap + size_of i s.allocations ≡ owed i
  pub all_paid : total_weight s.heap + all_sizes s.allocations ≡ whole
  pub once : (x : ℕ) → holders x s.free_cells + owners x s.allocations ≡ 1
  pub known : All (λ r. has_id r.id s.allocations ≡ true) s.heap
  pub entries : ids s.allocations ≡ names

module _ (owed : ℕ → ℕ) (whole : ℕ) (names : List ℕ) (s : State) (v : IsRunning owed whole names s)
    (top : AllocationRequest) (rest : List AllocationRequest) (p : Pops s.heap top rest) where
  abbrev popped_total : top.weight + total_weight rest ≡ total_weight s.heap
  popped_total = p.sums (λ r. r.weight)

  -- A cell that is larger than a weight of at least 1 is no leaf.
  splittable : 0 < top.weight → top.weight < s.cell_size → v.depth < 32
  splittable pos small = elim leaf_or_not [
    | inl leaf ↦
        let one : 2 ^ (32 - v.depth) ≡ 1 = ap (λ (t : ℕ). 2 ^ t) leaf in omega (arith, v.size, one)
    | inr above ↦ omega arith
  ]
    where
      leaf_or_not : (32 - v.depth ≡ 0) ⊎ (0 < 32 - v.depth)
      leaf_or_not = omega arith

  halved : v.depth < 32 → s.cell_size / 2 ≡ 2 ^ (32 - (v.depth + 1))
  halved above =
      let next : 32 - v.depth - 1 ≡ 32 - (v.depth + 1) = omega arith in
      let twice = two_pow_pred (32 - v.depth) (omega arith) in
      omega (arith, v.size, twice, ap (λ (t : ℕ). 2 ^ t) next)

  doubled : v.depth < 32 → s.cell_size / 2 * 2 ≡ s.cell_size
  doubled above = omega (arith, v.size, two_pow_pred (32 - v.depth) (omega arith))

  -- What a round leaves: it returns, the invariant holds, and there is less to do.
  abbrev Proceeds : Option State → Type 0
  Proceeds result =
      (t : State) × (result ≡ some t)
      × (w : IsRunning owed whole names t) × (total_weight t.heap + (32 - w.depth)
          < total_weight s.heap + (32 - v.depth))

  split_round-Proceeds :
      0 < top.weight → top.weight < s.cell_size → Proceeds (split_round s top rest)
  unfolding split_round
  split_round-Proceeds pos small =
      let above = splittable pos small in
      let (ds, e, sp) = split_cells-Splits v.depth s.free_cells above v.cells in
      let half = s.cell_size / 2 in
      let more = ap (λ (t : ℕ). t * half) sp.twice in
      let same = ap (λ (t : ℕ). length s.free_cells * t) (doubled above) in
      (
        record {
          heap = top ∷ rest;
          free_cells = ds;
          cell_size = half;
          allocations = s.allocations;
        },
        rw (e, split_round),
        record {
          depth = v.depth + 1;
          shallow = omega arith;
          size = halved above;
          cells = sp.cells;
          budget = omega (arith, popped_total, v.budget, more, same);
          paid = λ i. omega (arith, p.sums (λ r. if r.id == i then r.weight else 0), v.paid i);
          all_paid = omega (arith, popped_total, v.all_paid);
          once = λ x. omega (arith, sp.same_leaves x, v.once x);
          known = p.keeps (λ r. has_id r.id s.allocations ≡ true) v.known;
          entries = v.entries;
        },
        omega (arith, popped_total),
      )

  known_top : has_id top.id s.allocations ≡ true
  known_top = (p.keeps (λ r. has_id r.id s.allocations ≡ true) v.known).0

  known_after :
      (bs : List Allocation)
      → ((i : ℕ) → has_id i bs ≡ has_id i s.allocations)
      → All (λ r. has_id r.id bs ≡ true) (top ∷ rest)
  known_after bs same =
      let all = p.keeps (λ r. has_id r.id s.allocations ≡ true) v.known in
      All-map (λ r. has_id r.id s.allocations ≡ true) (λ r. has_id r.id bs ≡ true) (top ∷ rest)
        (λ r h. same r.id ∙ h) all

  some_cell :
      0 < top.weight
      → s.cell_size ≤ top.weight
      → (cs : List NodeName) → s.free_cells ≡ cs
      → 1 ≤ length cs
  some_cell pos large [] e =
      let none_left : length s.free_cells * s.cell_size ≡ 0 = rw e (omega arith) in
      omega (arith, v.budget, popped_total)
  some_cell pos large (c ∷ cs) e = omega arith

  take_round-Proceeds :
      0 < top.weight
      → s.cell_size ≤ top.weight
      → (cs : List NodeName) → s.free_cells ≡ cs
      → Proceeds (take_round s top rest)
  unfolding take_round
  take_round-Proceeds pos large [] e = absurd (omega (arith, some_cell pos large [] e))
  take_round-Proceeds pos large (c ∷ cs) e =
      let (bs, pushed, pu) = push_node-Pushes top.id c s.allocations known_top in
      let cells : All (IsCell v.depth) (c ∷ cs) = subst (All (IsCell v.depth)) e v.cells in
      let depth_of : 32 - c.len ≡ 32 - v.depth = omega (arith, cells.0.depth) in
      let cell_is : subtree_size c ≡ s.cell_size =
        subtree_size_lem c (omega (arith, cells.0.depth, v.shallow))
        ∙ ap (λ (t : ℕ). 2 ^ t) depth_of
        ∙ sym v.size in
      let paid_for : total_weight s.heap ≤ length (c ∷ cs) * s.cell_size =
        subst (λ (l : List NodeName). total_weight s.heap ≤ length l * s.cell_size) e v.budget in
      let at_least_one : 1 ≤ s.cell_size = rw v.size (two_pow_pos (32 - v.depth)) in
      (
        record {
          heap = record top { weight = top.weight - s.cell_size } ∷ rest;
          free_cells = cs;
          cell_size = s.cell_size;
          allocations = bs;
        },
        rw (e, take_round) (rw pushed),
        record {
          depth = v.depth;
          shallow = v.shallow;
          size = v.size;
          cells = cells.1;
          budget = omega (arith, popped_total, paid_for);
          paid = λ i.
              ground (arith, p.sums (λ r. if r.id == i then r.weight else 0), v.paid i, pu.sizes i);
          all_paid = omega (arith, popped_total, v.all_paid, pu.total, cell_is);
          once = λ x.
              let before : holders x (c ∷ cs) + owners x s.allocations ≡ 1 =
                subst (λ (l : List NodeName). holders x l + owners x s.allocations ≡ 1) e
                  (v.once x) in
              omega (arith, pu.leaves x, before);
          known = known_after bs pu.same_has;
          entries = pu.same_ids ∙ v.entries;
        },
        omega (arith, popped_total),
      )

  -- A round with a weight left to place never panics, keeps the invariant and leaves less to do.
  pub round-Proceeds : 0 < top.weight → Proceeds (round s top rest)
  unfolding round
  round-Proceeds pos = elim (Bool-cases (ltb top.weight s.cell_size)) [
    | inl small ↦ rw small (split_round-Proceeds pos (ltb→lt _ _ small))
    | inr large ↦ rw large (take_round-Proceeds pos (ground arith) s.free_cells refl)
  ]
