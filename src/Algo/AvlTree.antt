-- ===== src/Algo/AvlTree.antt =====
-- The AVL tree of mmkv/algo/internal: nodes and rebalancing (avl_node.h, avl_util.h), and the tree with
-- its operations (avl_tree_base.h, avl_tree_base_impl.h, avl_tree.h).
pub mod Node
pub mod Inorder
pub mod Ops
pub mod Balance
pub mod Locate
pub mod Insert
pub mod Retrace
pub mod Unlink
pub mod Balanced
pub mod Bounds
pub mod Search
pub mod Walk
pub mod Visit
