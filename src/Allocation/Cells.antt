-- ===== src/Allocation/Cells.antt =====
-- The cells that the loop of aimless-onions/src/allocation.rs splits and hands out, measured by
-- the leaves that they hold.
use aimless_onions.Prelude.{
  ℕ, ◌+◌, ◌*◌, ◌<◌, ◌≡◌, refl, ap, inl, inr, true, some, List, [], ◌∷◌, ◌++◌, map, arith, sum_by,
  All, length, if◌then◌else◌, ◌==◌, Bool-cases, sum_by-append,
}
use aimless_onions.NodeName.Leaves.{contains-root}
use aimless_onions.NodeName.{root, NodeName, contains, number, subtree_size}
use aimless_onions.NodeName.Canonical.{
  IsCanonical, left_lem, right_lem, left-IsCanonical, right-IsCanonical,
}
use aimless_onions.NodeName.Split.{SplitsInto, children-SplitsInto}
use aimless_onions.Allocation.{Allocation, split_cells, push_node, has_id}

-- Whether a node holds an identity, as a number to be added up.
pub holds : ℕ → NodeName → ℕ
holds x n = if contains n (number x) then 1 else 0

-- How many of the nodes hold the identity `x`.
abbrev pub holders : ℕ → List NodeName → ℕ
holders x = sum_by (holds x)

abbrev pub nodes_size : List NodeName → ℕ
nodes_size = sum_by subtree_size

-- Over all allocations: how many nodes hold `x`, and the total size of the nodes of an id.
abbrev pub owners : ℕ → List Allocation → ℕ
owners x = sum_by (λ a. holders x a.nodes)

abbrev pub size_of : ℕ → List Allocation → ℕ
size_of i = sum_by (λ a. if a.id == i then nodes_size a.nodes else 0)

abbrev pub all_sizes : List Allocation → ℕ
all_sizes = sum_by (λ a. nodes_size a.nodes)

abbrev pub ids : List Allocation → List ℕ
ids = map (λ a. a.id)

-- A canonical name of depth `d`.
pub record IsCell (d : ℕ) (n : NodeName) : Type 0 where
  pub canonical : IsCanonical n
  pub depth : n.len ≡ d

holds-split : (x : ℕ) {n l r : NodeName} → SplitsInto n l r → holds x r + holds x l ≡ holds x n
unfolding holds
holds-split x {n} {l} {r} s = ground (arith, s.covered x, s.apart x)

pub holds-root : (x : ℕ) → holds x root ≡ 1
unfolding holds
holds-root x = rw (contains-root x)

pub record Splits (d : ℕ) (before after : List NodeName) : Type 0 where
  pub cells : All (IsCell (d + 1)) after
  pub twice : length after ≡ 2 * length before
  pub same_leaves : (x : ℕ) → holders x after ≡ holders x before

pub split_cells-Splits :
    (d : ℕ) (cs : List NodeName)
    → d < 32
    → All (IsCell d) cs
    → (ds : List NodeName) × (split_cells cs ≡ some ds) × Splits d cs ds
unfolding split_cells
split_cells-Splits d [] h all =
    ([], refl, record { cells = tt; twice = omega arith; same_leaves = λ x. refl })
split_cells-Splits d (c ∷ cs) h all =
    let (ds, e, rest) = split_cells-Splits d cs h all.1 in
    let cell = all.0 in
    let above : c.len < 32 = omega arith in
    let l : NodeName = record { len = c.len + 1; path = c.path * 2 } in
    let r : NodeName = record { len = c.len + 1; path = c.path * 2 + 1 } in
    let el = left_lem cell.canonical above in
    let er = right_lem cell.canonical above in
    let s = children-SplitsInto c l r cell.canonical el er in
    (
      r ∷ l ∷ ds,
      ground (arith, el, er, e),
      record {
        cells = (
          record { canonical = right-IsCanonical cell.canonical above; depth = omega arith },
          (
            record { canonical = left-IsCanonical cell.canonical above; depth = omega arith },
            rest.cells,
          ),
        );
        twice = omega (arith, rest.twice);
        same_leaves = λ x. omega (arith, holds-split x s, rest.same_leaves x);
      },
    )

-- What a node pushed to the entry of `id` changes.
pub record Pushes (id : ℕ) (node : NodeName) (before after : List Allocation) : Type 0 where
  pub sizes :
      (i : ℕ) → size_of i after ≡ size_of i before + (if id == i then subtree_size node else 0)
  pub total : all_sizes after ≡ all_sizes before + subtree_size node
  pub leaves : (x : ℕ) → owners x after ≡ owners x before + holds x node
  pub same_ids : ids after ≡ ids before
  pub same_has : (i : ℕ) → has_id i after ≡ has_id i before

pub push_node-Pushes :
    (id : ℕ) (node : NodeName) (as' : List Allocation)
    → has_id id as' ≡ true
    → (bs : List Allocation) × (push_node id node as' ≡ some bs) × Pushes id node as' bs
unfolding push_node has_id
push_node-Pushes id node [] h = absurd (cc)
push_node-Pushes id node (a ∷ as') h = elim (Bool-cases (a.id == id)) [
  | inl here ↦ (
    record a { nodes = a.nodes ++ node ∷ [] } ∷ as',
    rw here,
    record {
      sizes = λ i. ground (arith, sum_by-append subtree_size a.nodes (node ∷ []));
      total = omega (arith, sum_by-append subtree_size a.nodes (node ∷ []));
      leaves = λ x. omega (arith, sum_by-append (holds x) a.nodes (node ∷ []));
      same_ids = refl;
      same_has = λ i. refl;
    },
  )
  | inr other ↦
      let (bs, e, p) = push_node-Pushes id node as' (ground arith) in
      (
        a ∷ bs,
        ground (arith, e),
        record {
          sizes = λ i. omega (arith, p.sizes i);
          total = omega (arith, p.total);
          leaves = λ x. omega (arith, p.leaves x);
          same_ids = ap (◌∷◌ a.id) p.same_ids;
          same_has = λ i. rw (p.same_has i);
        },
      )
]
