-- ===== src/Algo/TreeHashTable/Planting.antt =====
-- One tree of a table gets an entry: what that does to the table of chains, in the first table of one
-- that rehashes as well.
use mmkvc.Prelude.{
  ℕ, ◌+◌, ◌%◌, ◌≤◌, ◌<◌, ◌≡◌, ◌≢◌, sym, ap, ◌∙◌, inr, List, [], ◌∷◌, get_or, set, map, get_or-map,
  get_or-set_ne, none, some, arith,
}
use Prim.Native.Nat.Ordering.{gt}
use mmkvc.Algo.Ordered.Sorted.{All-imp, Above, Above-trans, IsSorted, find_in, find_in-Above}
use mmkvc.Algo.Ordered.Reference.{insert_in}
use mmkvc.Algo.Ordered.Hashed.{Hashed, hashed_order, hashed_keyed}
use mmkvc.Algo.Slist.{search_if}
use mmkvc.Algo.AvlTree.Ops.{AvlTree, Pushed, duplicate}
use mmkvc.Algo.AvlTree.Insert.{answer_by, Insertion}
use mmkvc.Algo.HashTable.{HashTable, Table as ChainTable, has_key, home as home_chain}
use mmkvc.Algo.HashTable.Bucket.{IsSized, IsPlaced, lookup, Pushed as ChainPushed}
use mmkvc.Algo.HashTable.Move.{IsSized-same}
use mmkvc.Algo.HashTable.Valid.{Rehashing, IsValid, view}
use mmkvc.Algo.HashTable.Emplace.{Emplaced, pushed_unique, pushed-view1}
use mmkvc.Algo.HashTable.KeyMap.{add}
use mmkvc.Algo.TreeHashTable.{size_mod, Table, no_nodes, set_bucket, home, bucket_of}
use mmkvc.Algo.TreeHashTable.Chains.{
  values, chain_table, bucket_of-chain_table, search_if-eq-find_in,
}
use mmkvc.Algo.TreeHashTable.Moving.{set_tree-Pushed}
use mmkvc.Algo.TreeHashTable.Extracting.{put_same}

module _ {V : Type 0} ⦃s : Hashed V⦄ where
  open s.order use {Key, get_key, cmp}

  insert_in_present :
      (e : V) (xs : List V) (old : V)
      → IsSorted xs
      → find_in (get_key e) xs ≡ some old
      → insert_in e xs ≡ xs
  insert_in_present e [] old sorted found = absurd (cc)
  insert_in_present e (x ∷ xs) old (above, sorted) found =
      let gone : cmp (get_key x) (get_key e) ≡ gt → find_in (get_key e) xs ≡ none = λ more.
        find_in-Above (get_key e) xs (
          All-imp (Above (get_key x)) (Above (get_key e)) (λ y. Above-trans (get_key e) x y more) xs
            above) in
      ground (arith, gone, insert_in_present e xs old sorted)

  found_in :
      (t : Table V) (k : Key) → find_in k (values (bucket_of s.hash t k)) ≡ lookup (chain_table t) k
  found_in t k =
      sym (search_if-eq-find_in k (values (bucket_of s.hash t k)))
      ∙ ap (search_if (has_key k)) (sym (bucket_of-chain_table t k))

  -- What an insertion into the tree of the key does to the table, by what the tree holds for it.
  pub record Planted (e : V) (t : Table V) (out : Pushed V × AvlTree V) : Type 0 where
    pub answers : out.0 ≡ answer_by duplicate (lookup (chain_table t) (get_key e))
    pub stays :
        (old : V)
        → lookup (chain_table t) (get_key e) ≡ some old
        → chain_table (set_bucket (home s.hash t (get_key e)) out.1 t) ≡ chain_table t
    pub grows :
        lookup (chain_table t) (get_key e) ≡ none
        → IsSized (chain_table t)
        → ChainPushed e
            (chain_table t)
            (chain_table (set_bucket (home s.hash t (get_key e)) out.1 t))

  pub Insertion-Planted :
      (e : V) (t : Table V) (out : Pushed V × AvlTree V)
      → IsSorted (values (bucket_of s.hash t (get_key e)))
      → Insertion duplicate e (values (bucket_of s.hash t (get_key e))) out
      → Planted e t out
  Insertion-Planted e t out sorted x =
      let k = get_key e in
      let xs = values (bucket_of s.hash t k) in
      record {
        answers = x.answers ∙ ap (answer_by duplicate) (found_in t k);
        stays = λ old there.
            put_same t k out.1
              (x.contents ∙ insert_in_present e xs old sorted (found_in t k ∙ there));
        grows = λ absent sized. set_tree-Pushed e t out.1 sized x.contents (found_in t k ∙ absent);
      }

  -- Trees that have moved away stay empty where the new one stands behind them.
  pub emptied_set :
      (t : Table V) (i n : ℕ) (b : AvlTree V)
      → n ≤ i
      → ((j : ℕ) → j < n → get_or (map values t.buckets) j [] ≡ [])
      → (j : ℕ) → j < n
      → get_or (map values (set t.buckets i b)) j [] ≡ []
  emptied_set t i n b behind empty j below =
      let other : i ≢ j = λ e. absurd (omega (arith, e)) in
      get_or-map values (set t.buckets i b) j no_nodes
      ∙ ap values (get_or-set_ne t.buckets i j b no_nodes other)
      ∙ sym (get_or-map values t.buckets j no_nodes)
      ∙ empty j below

  -- An entry with a new key, put into the first table while entries move to the second.
  pub first-Emplaced :
      (e : V) (h : HashTable V) (t : ChainTable V)
      → IsValid h
      → h.table1.used + 1 < size_mod
      → view h (get_key e) ≡ none
      → Rehashing h
      → ChainPushed e h.table1 t
      → ((j : ℕ) → j < h.rehash_move_bucket_index → get_or t.buckets j [] ≡ [])
      → Emplaced e h (record h { table1 = record t { used = (h.table1.used + 1) % size_mod } })
  unfolding view add IsSized IsPlaced home_chain
  first-Emplaced e h t v room absent r p empty =
      let more : (h.table1.used + 1) % size_mod ≡ h.table1.used + 1 = omega arith in
      record {
        valid = record {
          sized1 = IsSized-same h.table1 t p.mask p.long v.sized1;
          at_least = omega (arith, p.long, v.at_least);
          short1 = omega (arith, p.long, v.short1);
          placed1 = p.place v.placed1;
          placed2 = v.placed2;
          unique = λ q. omega (arith, p.counts q, pushed_unique h e q v absent);
          used_total = omega (arith, more, p.total, v.used_total);
          used_fits = omega (arith, more);
          phase = inr (record {
            at = omega (arith, p.long, r.at);
            sized2 = r.sized2;
            longer = omega (arith, p.long, r.longer);
            short2 = r.short2;
            emptied = empty;
          });
        };
        views =
            λ q. pushed-view1 e q (lookup h.table1 q) (lookup t q) (lookup h.table2 q) (p.finds q);
        sizes = more;
      }
