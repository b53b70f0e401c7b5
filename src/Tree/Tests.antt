-- ===== src/Tree/Tests.antt =====
-- Runs of the trees of stack/pico_tree.c over numbers, and instances of the theorems.
use picotcp.Base.{ℕ, compare, ◌≡◌, refl, true, some, List, [], ◌∷◌, arith}
use picotcp.Tree.{red, black, Tree, leaf, node, as_left, color, keys, find_node, insert}
use picotcp.Tree.Order.{IsOrder, Sorted, insert_list, delete_list}
use picotcp.Tree.Refine.{insert_refines}
use picotcp.Tree.Delete.{delete}
use picotcp.Tree.Delete.Refine.{delete_refines}
use picotcp.Tree.Balance.{IsRedBlack, insert-IsRedBlack}
use picotcp.Tree.Balance.Depth.{delete_unbalances}
use picotcp.Tree.Walk.{foreach, foreach-keys}

compare-IsOrder : IsOrder compare
compare-IsOrder = record {
  flip = λ a b. ground arith;
  trans = λ a b c. ground arith;
  congr = λ a b c. ground arith;
}

-- Three black nodes, the smallest trees that a deletion can unbalance.
abbrev three : Tree ℕ
three = node black 20 (node black 10 leaf leaf) (node black 30 leaf leaf)

abbrev fill : List ℕ → Tree ℕ → Tree ℕ
fill [] t = t
fill (k ∷ ks) t = fill ks (insert compare true black k t).0

fill_ascending :
    fill (1 ∷ 2 ∷ 3 ∷ 4 ∷ 5 ∷ 6 ∷ []) leaf
    ≡ node black 2
        (node black 1 leaf leaf)
        (node red 4 (node black 3 leaf leaf) (node black 5 leaf (node red 6 leaf leaf)))
unfolding insert
fill_ascending = refl

-- The third case of the rotations, and a key that is there already.
fill_inner :
    fill (1 ∷ 3 ∷ 2 ∷ 3 ∷ []) leaf ≡ node black 2 (node red 1 leaf leaf) (node red 3 leaf leaf)
unfolding insert
fill_inner = refl

delete_root :
    delete compare black 20 three ≡ (node black 30 (node black 10 leaf leaf) leaf, black, some 20)
unfolding delete
delete_root = refl

-- The sequence that makes LEAF red: a black node with a black child and no sibling.
abbrev lopsided : Tree ℕ
lopsided = node black 40 (node black 20 leaf (node black 30 leaf leaf)) leaf

delete_paints_leaf :
    delete compare black 20 lopsided ≡ (node black 40 (node black 30 leaf leaf) leaf, red, some 20)
unfolding delete
delete_paints_leaf = refl

three-Sorted : Sorted compare (keys three)
three-Sorted = ((refl, (refl, tt)), ((refl, tt), (tt, tt)))

three-IsRedBlack : IsRedBlack three
three-IsRedBlack = (tt, refl, (tt, refl, tt, tt), (tt, refl, tt, tt))

insert_refines_example :
    let (t', lc', told) = insert compare true black 25 three in
    (keys t', told) ≡ insert_list compare 25 true (keys three)
insert_refines_example = insert_refines compare compare-IsOrder 25 true black three three-Sorted

delete_refines_example :
    let (t', lc', told) = delete compare black 20 three in
    (keys t', told) ≡ delete_list compare 20 (keys three)
delete_refines_example = delete_refines compare compare-IsOrder 20 black three three-Sorted

insert-IsRedBlack_example :
    let (t, lc, told) = insert compare true black 25 three in
    IsRedBlack t × (color black t ≡ black) × (lc ≡ black)
insert-IsRedBlack_example = insert-IsRedBlack compare true 25 three three-IsRedBlack refl

delete_unbalances_example : ¬ IsRedBlack (delete compare black 10 three).0
unfolding find_node
delete_unbalances_example =
    delete_unbalances compare 10 three 10 (as_left black 20 (node black 30 leaf leaf)) []
      three-IsRedBlack refl

foreach-keys_example : foreach 3 three ≡ 10 ∷ 20 ∷ 30 ∷ []
foreach-keys_example = foreach-keys 3 three (omega arith)
