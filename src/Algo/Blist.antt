-- ===== src/Algo/Blist.antt =====
-- `Blist` of mmkv/algo/blist.h: a doubly linked list without a sentinel. The previous node of the first
-- one is the last one, and the next node of the last one is the null pointer. Nodes stand in a store;
-- a read or a write through a null pointer, or of a node that is not there, is a fault.
pub mod Linked
pub mod Front
pub mod Back
pub mod Pushing
pub mod Popping
pub mod Clearing
pub mod Middle
pub mod Unlinking
pub mod Extracting
use mmkvc.Prelude.{
  ℕ, zero, suc, ◌+◌, ◌-◌, ◌%◌, Bool, if◌then◌else◌, ltb, ◌==◌, not, Option, none, some,
}
use mmkvc.Algo.HashTable.{size_mod, no_index}

pub record BNode (T : Type 0) : Type 0 where
  pub value : T
  pub prev : Option ℕ
  pub next : Option ℕ

abbrev pub Store : Type 0 → Type 0
Store T = ℕ → Option (BNode T)

pub record Blist (T : Type 0) : Type 0 where
  pub store : Store T
  pub header : Option ℕ
  pub count : ℕ

infixl 5 ◌>>=◌
abbrev pub ◌>>=◌ : {A B : Type 0} → Option A → (A → Option B) → Option B
◌>>=◌ o f = elim o [ none ↦ none | some a ↦ f a ]

module _ {T : Type 0} where
  -- a write to one address of the store, and the end of a node's life
  abbrev pub put : ℕ → BNode T → Store T → Store T
  put p n s q = if p == q then some n else s q

  abbrev pub drop_node : ℕ → Store T → Store T
  drop_node p s q = if p == q then none else s q

  -- `p->prev = q` and `p->next = q`
  abbrev pub read : Option ℕ → Store T → Option (BNode T)
  read p s = elim p [ none ↦ none | some a ↦ s a ]

  abbrev pub set_prev : Option ℕ → Option ℕ → Store T → Option (Store T)
  set_prev p q s = elim p [
    | none ↦ none
    | some a ↦ elim (s a) [ none ↦ none | some n ↦ some (put a (record n { prev = q }) s) ]
  ]

  abbrev pub set_next : Option ℕ → Option ℕ → Store T → Option (Store T)
  set_next p q s = elim p [
    | none ↦ none
    | some a ↦ elim (s a) [ none ↦ none | some n ↦ some (put a (record n { next = q }) s) ]
  ]

  -- `SetHeader(header)`
  abbrev pub set_header : Option ℕ → Blist T → Option (Blist T)
  set_header header b = do
    s ← set_prev header header b.store
    some (record b { store = s; header = header })

  -- `PushFront(node)`
  unfoldable pub push_front : ℕ → Blist T → Option (ℕ × Blist T)
  push_front node b = elim b.header [
    | none ↦ do b ← set_header (some node) b; some (1, record b { count = 1 })
    | some first ↦ if ltb no_index b.count then some (0, b) else do
      s ← set_next (some node) (some first) b.store
      old ← read (some first) s
      s ← set_prev (some node) old.prev s
      s ← set_prev (some first) (some node) s
      some (1, record { store = s; header = some node; count = (b.count + 1) % size_mod })
  ]

  -- `PushBack(node)`
  unfoldable pub push_back : ℕ → Blist T → Option (ℕ × Blist T)
  push_back node b = elim b.header [
    | none ↦ do b ← set_header (some node) b; some (1, record b { count = 1 })
    | some first ↦ if ltb no_index b.count then some (0, b) else do
      old ← read (some first) b.store
      s ← set_prev (some node) old.prev b.store
      front ← read (some first) s
      s ← set_next front.prev (some node) s
      s ← set_prev (some first) (some node) s
      some (1, record { store = s; header = some first; count = (b.count + 1) % size_mod })
  ]

  -- `PopFront()`
  unfoldable pub pop_front : Blist T → Option (ℕ × Blist T)
  pop_front b = elim b.header [
    | none ↦ some (0, b)
    | some first ↦
        if b.count == 1
        then some (1, record { store = drop_node first b.store; header = none; count = 0 })
        else do
          old ← read (some first) b.store
          s ← set_prev old.next old.prev b.store
          some (
            1,
            record {
              store = drop_node first s;
              header = old.next;
              count = (b.count + size_mod - 1) % size_mod;
            },
          )
  ]

  -- `PopBack()`
  unfoldable pub pop_back : Blist T → Option (ℕ × Blist T)
  pop_back b = elim b.header [
    | none ↦ some (0, b)
    | some first ↦
        if b.count == 1
        then some (1, record { store = drop_node first b.store; header = none; count = 0 })
        else do
          old ← read (some first) b.store
          last ← read old.prev b.store
          s ← set_next last.prev none b.store
          last ← read old.prev s
          s ← set_prev (some first) last.prev s
          some (
            1,
            record {
              store = elim old.prev [ none ↦ s | some a ↦ drop_node a s ];
              header = some first;
              count = (b.count + size_mod - 1) % size_mod;
            },
          )
  ]

  -- `Extract(node)` of a node that is not null: the node leaves the list and stays in the store
  unfoldable pub extract : ℕ → Blist T → Option (Blist T)
  extract node b = do
    n ← read (some node) b.store
    elim n.prev [
      | none ↦ some b
      | some before ↦ do
        s ← elim n.next [
          | some after ↦ set_prev (some after) (some before) b.store
          | none ↦ set_prev b.header (some before) b.store
        ]
        first ← b.header
        s ←
            if node == first
            then some s
            else elim (s node) [ none ↦ none | some m ↦ set_next m.prev m.next s ]
        m ← read (some node) s
        some (record {
          store = put node (record m { prev = none; next = none }) s;
          header = if node == first then m.next else b.header;
          count = (b.count + size_mod - 1) % size_mod;
        })
    ]

  -- `InsertAfter(node, new_node)`: without a node the header becomes that null pointer
  unfoldable pub insert_after : Option ℕ → ℕ → Blist T → Option (Blist T)
  insert_after node new_node b = elim node [
    | none ↦ do b ← set_header none b; some (record b { count = (b.count + 1) % size_mod })
    | some p ↦ do
      n ← read (some p) b.store
      s ← set_prev (some new_node) (some p) b.store
      s ← set_next (some new_node) n.next s
      s ← elim n.next [
        | some after ↦ set_prev (some after) (some new_node) s
        | none ↦ set_prev b.header (some new_node) s
      ]
      s ← set_next (some p) (some new_node) s
      some (record b { store = s; count = (b.count + 1) % size_mod })
  ]

  -- `Erase(node)` of a node that is not null
  unfoldable pub erase : ℕ → Blist T → Option (Blist T)
  unfolding extract
  erase node b = do left ← extract node b; some (record left { store = drop_node node left.store })

  -- the loop of `Clear()`
  unfoldable pub clear_loop : ℕ → Option ℕ → Store T → Option (Store T)
  clear_loop fuel none s = some s
  clear_loop zero (some p) s = none
  clear_loop (suc fuel) (some p) s = elim (s p) [
    | none ↦ none
    | some n ↦ clear_loop fuel n.next (drop_node p s)
  ]

  -- `Clear()`
  unfoldable pub clear : ℕ → Blist T → Option (Blist T)
  unfolding clear_loop
  clear fuel b = do
    s ← clear_loop fuel b.header b.store
    some (record { store = s; header = none; count = 0 })
