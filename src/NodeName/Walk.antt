-- ===== src/NodeName/Walk.antt =====
-- `walk` of nodename.rs: the names from below the root down to a node.
use aimless_onions.Prelude.{
  ℕ, zero, suc, ◌+◌, ◌-◌, ◌/◌, ◌%◌, ◌^◌, ◌≤◌, ◌<◌, ◌≡◌, ◌⊎◌, inl, inr, refl, sym, ap, ◌∙◌, some,
  arith, true, List, [], ◌∷◌, ◌++◌, length, get_elem?, length-append, get_elem?-append_left,
  get_elem?-append_here, get_elem?-lt, ◌↔◌,
}
use mathlib.Core.List.{append_assoc, append-nil}
use mathlib.Core.Option.{some-injective}
use native.Mathlib.Nat.{div-div-eq-div-mul}
use aimless_onions.Prelude.Powers.{two_pow_pred}
use aimless_onions.NodeName.{NodeName, is_empty, walk, walk_up, contains}
use aimless_onions.NodeName.Canonical.{IsCanonical, parent_lem}

-- The names on the way down to depth `k`, for a path of `k` digits.
unfoldable pub way : ℕ → ℕ → List NodeName
way zero path = []
way (suc k) path = way k (path / 2) ++ record { len = suc k; path = path } ∷ []

walk_up_lem :
    (k fuel path : ℕ) (below : List NodeName)
    → k < fuel
    → length below + k ≤ 32
    → walk_up fuel (record { len = k; path = path }) below ≡ some (way k path ++ below)
unfolding walk_up way is_empty
walk_up_lem k zero path below h room = absurd (omega arith)
walk_up_lem zero (suc fuel) path below h room = refl
walk_up_lem (suc k) (suc fuel) path below h room =
    let node : NodeName = record { len = suc k; path = path } in
    let rest = walk_up_lem k fuel (path / 2) (node ∷ below) (omega arith) (omega arith) in
    ground (
      arith,
      parent_lem node (omega arith),
      rest,
      append_assoc (way k (path / 2)) (node ∷ []) below,
    )

-- `walk` returns for every canonical name: it never pushes more names than the array holds.
pub walk_lem : (n : NodeName) → n.len ≤ 32 → walk n ≡ some (way n.len n.path)
unfolding walk
walk_lem n h = walk_up_lem n.len 33 n.path [] (omega arith) (omega arith) ∙ ap some (append-nil _)

length-way : (k path : ℕ) → length (way k path) ≡ k
unfolding way
length-way zero path = refl
length-way (suc k) path = omega (
  arith,
  length-append (way k (path / 2)) (record { len = suc k; path = path } ∷ []),
  length-way k (path / 2),
)

abbrev step_on_way : (k path i : ℕ) → NodeName
step_on_way k path i = record { len = i + 1; path = path / 2 ^ (k - (i + 1)) }

get_elem?-way : (k path i : ℕ) → i < k → get_elem? (way k path) i ≡ some (step_on_way k path i)
unfolding way
get_elem?-way zero path i h = absurd (omega arith)
get_elem?-way (suc k) path i h =
    let last : List NodeName = record { len = suc k; path = path } ∷ [] in
    let side : (i < k) ⊎ (i ≡ k) = omega arith in
    elim side [
      | inl before ↦
          let less : suc k - (i + 1) - 1 ≡ k - (i + 1) = omega arith in
          let one_more : path / 2 / 2 ^ (k - (i + 1)) ≡ path / 2 ^ (suc k - (i + 1)) =
            div-div-eq-div-mul path 2 (2 ^ (k - (i + 1)))
            ∙ ap (λ (t : ℕ). path / t)
                (omega (
                  arith,
                  two_pow_pred (suc k - (i + 1)) (omega arith),
                  ap (λ (t : ℕ). 2 ^ t) less,
                )) in
          get_elem?-append_left (way k (path / 2)) last i (omega (arith, length-way k (path / 2)))
          ∙ get_elem?-way k (path / 2) i before
          ∙ ap some (ap (λ (t : ℕ). record { len = i + 1; path = t }) one_more)
      | inr here ↦
          let none_left : suc k - (i + 1) ≡ 0 = omega arith in
          let whole : 2 ^ (suc k - (i + 1)) ≡ 1 = ap (λ (t : ℕ). 2 ^ t) none_left in
          ap (get_elem? (way k (path / 2) ++ last)) (here ∙ sym (length-way k (path / 2)))
          ∙ get_elem?-append_here (way k (path / 2)) [] (record { len = suc k; path = path })
          ∙ ap some (ground (arith, whole))
    ]

pub contains_iff :
    (a b : NodeName)
    → b.len ≤ 32
    → (contains a b ≡ true) ↔ ((a.len ≤ b.len) × (b.path / 2 ^ (b.len - a.len) ≡ a.path))
unfolding contains
contains_iff a b h =
    let count : (b.len - a.len) % 64 ≡ b.len - a.len = omega arith in rw count (ground arith)

-- `xs` is what `walk` returns for `n`: the names that contain `n`, one for each depth from 1 on.
pub record IsWayDown (n : NodeName) (xs : List NodeName) : Type 0 where
  pub returns : walk n ≡ some xs
  pub same_length : length xs ≡ n.len
  pub in_order : (i : ℕ) (a : NodeName) → get_elem? xs i ≡ some a → a.len ≡ i + 1
  pub ancestors :
      (a : NodeName) → 0 < a.len → (contains a n ≡ true) ↔ (get_elem? xs (a.len - 1) ≡ some a)

-- `walk` of a canonical name returns one name for each depth down to it. The name at depth `d` is
-- the one of that depth that contains the node, and no other name of that depth contains it.
pub walk-IsWayDown : (n : NodeName) → IsCanonical n → IsWayDown n (way n.len n.path)
walk-IsWayDown n c = record {
  returns = walk_lem n c.within;
  same_length = length-way n.len n.path;
  in_order = λ i a e.
      let below = get_elem?-lt (way n.len n.path) i e in
      ground (arith, get_elem?-way n.len n.path i (omega (arith, length-way n.len n.path)));
  ancestors = λ a pos. (
    λ h.
        let i = (contains_iff a n c.within).0 h in
        get_elem?-way n.len n.path (a.len - 1) (omega (arith, i))
        ∙ ap some (rw (index a pos) (ground arith)),
    λ e.
        let below = get_elem?-lt (way n.len n.path) (a.len - 1) e in
        let short : a.len ≤ n.len = omega (arith, length-way n.len n.path) in
        let at = get_elem?-way n.len n.path (a.len - 1) (omega arith) in
        (contains_iff a n c.within).1 (
          short,
          rw (index a pos) at (ap (λ (t : NodeName). t.path) (some-injective _ _ (sym at ∙ e))),
        ),
  );
}
  where
    index : (a : NodeName) → 0 < a.len → a.len - 1 + 1 ≡ a.len
    index a pos = omega arith
