-- ===== src/Tests/Trees.antt =====
-- Small trees of pairs, and the theorems on trees at them.
use mmkvc.Prelude.{ℕ, ◌^◌, ◌<◌, ◌≤◌, ◌≡◌, ◌≢◌, refl, inl, [], ◌∷◌, length, arith}
use Prim.Native.Nat.Ordering.{eq}
use mmkvc.Algo.Ordered.{Ordered}
use mmkvc.Algo.Ordered.Sorted.{IsSorted, find_in}
use mmkvc.Algo.Ordered.Reference.{first_from, first_above}
use mmkvc.Algo.Comparator.{
  compare_unsigned, compare_signed, compare_signed_lem, compare_unsigned_refl,
  compare_unsigned-flip, compare_unsigned_trans, compare_unsigned-congr,
}
use mmkvc.Algo.AvlTree.Node.{
  leaf, node, insert_fixup, rebuild, fixup, set_height, update_height, fixup_left_heavy,
  fixup_right_heavy, straighten_left, straighten_right, rotate_left, rotate_right, on_left,
  on_right,
}
use mmkvc.Algo.AvlTree.Inorder.{inorder}
use mmkvc.Algo.AvlTree.Balance.{size}
use mmkvc.Algo.AvlTree.Balanced.{IsBalanced, insert-IsBalanced, extract-IsBalanced}
use mmkvc.Algo.AvlTree.Bounds.{find-locate_log}
use mmkvc.Algo.AvlTree.Search.{lower_bound-upper_bound_lem}
use mmkvc.Algo.AvlTree.Insert.{Insertion, insert-Insertion_lem, Extraction, extract-Extraction_lem}
use mmkvc.Algo.AvlTree.Ops.{
  find, AvlTree, duplicate, locate, attach, attach_at, insert_at, insert, extract, lower_bound,
  upper_bound,
}

-- pairs of an unsigned key and a value
instance abbrev by_first : Ordered (ℕ × ℕ)
by_first = record {
  Key = ℕ;
  get_key = λ e. e.0;
  cmp = compare_unsigned;
  cmp_refl = compare_unsigned_refl;
  cmp_flip = compare_unsigned-flip;
  cmp_trans = compare_unsigned_trans;
  cmp_congr = compare_unsigned-congr;
}

abbrev no_entries : AvlTree (ℕ × ℕ)
no_entries = record { root = leaf; count = 0 }

abbrev put : ℕ × ℕ → AvlTree (ℕ × ℕ) → AvlTree (ℕ × ℕ)
put e a = (insert e a).1

abbrev lone : AvlTree (ℕ × ℕ)
lone = record { root = node 1 leaf (5, 50) leaf; count = 1 }

abbrev two : AvlTree (ℕ × ℕ)
two = put (3, 30) (put (5, 50) no_entries)

-- the third insertion turns the tree
abbrev four : AvlTree (ℕ × ℕ)
four = put (9, 90) (put (4, 40) two)

put-IsSorted :
    (e : ℕ × ℕ) (a : AvlTree (ℕ × ℕ))
    → IsSorted (inorder a.root)
    → IsSorted (inorder (put e a).root)
put-IsSorted e a s = (insert-Insertion_lem e a s).sorted

two-IsSorted : IsSorted (inorder two.root)
two-IsSorted = put-IsSorted (3, 30) (put (5, 50) no_entries) (put-IsSorted (5, 50) no_entries tt)

four-IsSorted : IsSorted (inorder four.root)
four-IsSorted = put-IsSorted (9, 90) (put (4, 40) two) (put-IsSorted (4, 40) two two-IsSorted)

two-IsBalanced : IsBalanced two.root
two-IsBalanced =
    insert-IsBalanced (3, 30) (put (5, 50) no_entries)
      (insert-IsBalanced (5, 50) no_entries (inl tt))

four-IsBalanced : IsBalanced four.root
four-IsBalanced =
    insert-IsBalanced (9, 90) (put (4, 40) two) (insert-IsBalanced (4, 40) two two-IsBalanced)

four_turned : inorder four.root ≡ (3, 30) ∷ (4, 40) ∷ (5, 50) ∷ (9, 90) ∷ []
unfolding insert insert_at attach attach_at locate insert_fixup rebuild fixup set_height
    update_height fixup_left_heavy fixup_right_heavy straighten_left straighten_right rotate_left
    rotate_right on_left on_right compare_unsigned
four_turned = refl

four_few : size four.root < 2 ^ 3
unfolding insert insert_at attach attach_at locate insert_fixup rebuild fixup set_height
    update_height fixup_left_heavy fixup_right_heavy straighten_left straighten_right rotate_left
    rotate_right on_left on_right compare_unsigned
four_few = omega arith

three_not_five : compare_unsigned 3 5 ≢ eq
unfolding compare_unsigned
three_not_five e = ground arith

insert-Insertion_lem_example : Insertion duplicate (4, 41) (inorder four.root) (insert (4, 41) four)
insert-Insertion_lem_example = insert-Insertion_lem (4, 41) four four-IsSorted

extract-Extraction_lem_example : Extraction 4 (inorder four.root) (extract 4 four)
extract-Extraction_lem_example = extract-Extraction_lem 4 four four-IsSorted

insert-IsBalanced_example : IsBalanced (insert (7, 70) four).1.root
insert-IsBalanced_example = insert-IsBalanced (7, 70) four four-IsBalanced

extract-IsBalanced_example : IsBalanced (extract 4 four).1.root
extract-IsBalanced_example = extract-IsBalanced 4 four four-IsBalanced

lower_bound-upper_bound_lem_example :
    (lower_bound 4 four ≡ first_from 4 (inorder four.root))
    × (upper_bound 4 four ≡ first_above 4 (inorder four.root))
lower_bound-upper_bound_lem_example = lower_bound-upper_bound_lem 4 four four-IsSorted

find-locate_log_example :
    (find 5 four ≡ find_in 5 (inorder four.root)) × (length (locate 5 four.root []).1 ≤ 8)
find-locate_log_example = find-locate_log 5 3 four four-IsSorted four-IsBalanced four_few

compare_signed_lem_example : compare_signed 127 130 ≡ compare_unsigned 127 130
compare_signed_lem_example =
    compare_signed_lem 127 130 (omega arith) (omega arith) (omega arith) (omega arith)
