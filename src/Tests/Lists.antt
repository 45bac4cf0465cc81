-- ===== src/Tests/Lists.antt =====
-- A doubly linked list of two nodes, another node, and a clone of a table.
use mmkvc.Prelude.{ℕ, ◌≡◌, ◌++◌, refl, [], ◌∷◌, some, none, if◌then◌else◌, ◌==◌, arith}
use mmkvc.Algo.Blist.{Store, Blist, push_front, push_back, pop_front, pop_back, extract}
use mmkvc.Algo.Blist.Middle.{Takes}
use mmkvc.Algo.Blist.Extracting.{extract-Takes}
use mmkvc.Algo.Blist.Linked.{Represents, Leaves}
use mmkvc.Algo.Blist.Pushing.{push_ends-Leaves}
use mmkvc.Algo.Blist.Popping.{pop_ends-Leaves}
use mmkvc.Algo.HashTable.{new_hash_table}
use mmkvc.Algo.HashTable.Clone.{clone}
use mmkvc.Algo.HashTable.Clone.Copied.{Clones, clone-Clones}
use mmkvc.Tests.Tables.{pairs, five, five-IsValid}

-- the nodes 1 and 2 in the list, and the node 3 by itself
abbrev cells : Store ℕ
cells p =
    if p == 1
    then some (record { value = 10; prev = some 2; next = some 2 })
    else if p == 2
    then some (record { value = 20; prev = some 1; next = none })
    else if p == 3
    then some (record { value = 30; prev = none; next = none })
    else none

abbrev two_nodes : Blist ℕ
two_nodes = record { store = cells; header = some 1; count = 2 }

two_nodes-Represents : Represents two_nodes ((1, 10) ∷ (2, 20) ∷ [])
two_nodes-Represents = record {
  begins = refl;
  counts = refl;
  fits = omega arith;
  distinct = (((λ e. omega (arith, e)), tt), (tt, tt));
  linked = (refl, (refl, tt));
}

push_ends-Leaves_example :
    Leaves ((3, 30) ∷ (1, 10) ∷ (2, 20) ∷ []) (push_front 3 two_nodes)
    × Leaves (((1, 10) ∷ (2, 20) ∷ []) ++ (3, 30) ∷ []) (push_back 3 two_nodes)
push_ends-Leaves_example =
    push_ends-Leaves 3 30 two_nodes ((1, 10) ∷ (2, 20) ∷ []) two_nodes-Represents refl
      ((λ e. omega (arith, e)), ((λ e. omega (arith, e)), tt)) (omega arith)

pop_ends-Leaves_example :
    Leaves ((2, 20) ∷ []) (pop_front two_nodes) × Leaves ((1, 10) ∷ []) (pop_back two_nodes)
pop_ends-Leaves_example =
    pop_ends-Leaves (1, 10) ((2, 20) ∷ []) ((1, 10) ∷ []) (2, 20) two_nodes two_nodes-Represents
      refl

clone-Clones_example : Clones five (clone (λ e. e.0) new_hash_table five)
clone-Clones_example = clone-Clones (λ e. e.0) (λ e. refl) five five-IsValid

extract-Takes_example :
    (out : Takes 1 10 ((2, 20) ∷ []) (extract 1 two_nodes)) × (extract 1 out.list ≡ some out.list)
extract-Takes_example = extract-Takes [] 1 10 ((2, 20) ∷ []) two_nodes two_nodes-Represents
