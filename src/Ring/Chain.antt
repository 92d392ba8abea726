-- ===== src/Ring/Chain.antt =====
-- list.hh: rings of linked nodes, and the insertion and removal of a node.
use free_guard.Base.{
  ℕ, ◌≡◌, ◌≢◌, refl, ◌∙◌, true, false, List, [], ◌∷◌, ◌++◌, arith, contains, IsDistinct,
  contains-append, ==_refl, ◌==◌,
}
use free_guard.Links.Seg.{IsDistinct-append, ne_of_mem}
use free_guard.Ring.{
  Nodes, node_init, is_list_empty, insert_between, list_insert_tail, list_link, list_remove_node,
  list_retrieve_item,
}

-- From `p` the nodes `xs` lead to `q`, forward by `next` and back by `prev`.
abbrev pub Chain : Nodes → ℕ → List ℕ → ℕ → Type 0
Chain s p [] q = (s.next p ≡ q) × (s.prev q ≡ p)
Chain s p (x ∷ xs) q = (s.next p ≡ x) × (s.prev x ≡ p) × Chain s x xs q

-- The header `head` heads the ring of the nodes `xs`.
pub record IsRing (s : Nodes) (head : ℕ) (xs : List ℕ) : Type 0 where
  pub chain : Chain s head xs head
  pub distinct : IsDistinct (head ∷ xs)

-- A chain stays where its nodes' fields stay.
pub Chain-frame :
    (s r : Nodes) (p : ℕ) (xs : List ℕ) (q : ℕ)
    → ((a : ℕ) → contains a (p ∷ xs) ≡ true → r.next a ≡ s.next a)
    → ((a : ℕ) → contains a (q ∷ xs) ≡ true → r.prev a ≡ s.prev a)
    → Chain s p xs q
    → Chain r p xs q
Chain-frame s r p [] q n b c = (n p (ground arith) ∙ c.0, b q (ground arith) ∙ c.1)
Chain-frame s r p (x ∷ xs) q n b c = (
  n p (ground arith) ∙ c.0,
  b x (ground arith) ∙ c.1,
  Chain-frame s r x xs q (λ a i. n a (ground arith)) (λ a i. b a (ground arith)) c.2,
)

pub IsRing-frame :
    (s r : Nodes) (head : ℕ) (xs : List ℕ)
    → ((a : ℕ) → contains a (head ∷ xs) ≡ true → (r.next a ≡ s.next a) × (r.prev a ≡ s.prev a))
    → IsRing s head xs
    → IsRing r head xs
IsRing-frame s r head xs same ring = record {
  chain = Chain-frame s r head xs head (λ a i. (same a i).0) (λ a i. (same a i).1) ring.chain;
  distinct = ring.distinct;
}

-- The node before the end of a chain is one of its nodes.
pub Chain-prev :
    (s : Nodes) (p : ℕ) (xs : List ℕ) (q : ℕ) → Chain s p xs q → contains (s.prev q) (p ∷ xs) ≡ true
Chain-prev s p [] q c = ground (arith, c.1)
Chain-prev s p (x ∷ xs) q c = ground (arith, Chain-prev s x xs q c.2)

Chain-insert :
    (s : Nodes) (p : ℕ) (xs : List ℕ) (q node : ℕ)
    → IsDistinct (p ∷ xs)
    → contains q xs ≡ false
    → contains node (p ∷ xs) ≡ false
    → node ≢ q
    → Chain s p xs q
    → Chain (insert_between node (s.prev q) q s) p (xs ++ node ∷ []) q
unfolding insert_between
Chain-insert s p [] q node d out fresh ne c =
    (ground (arith, c.1), ground (arith, c.1), (ground (arith, c.1), ground (arith, c.1)))
Chain-insert s p (x ∷ xs) q node d out fresh ne c = (
  ground (arith, c.0, Chain-prev s x xs q c.2),
  ground (arith, c.1),
  Chain-insert s x xs q node d.1 (ground arith) (ground arith) ne c.2,
)

-- `listInsertTail` puts a new node behind the others of a ring, which stays linked in both
-- directions.
pub list_insert_tail-IsRing :
    (s : Nodes) (head : ℕ) (xs : List ℕ) (node : ℕ)
    → IsRing s head xs
    → contains node (head ∷ xs) ≡ false
    → IsRing (list_insert_tail node head s) head (xs ++ node ∷ [])
unfolding list_insert_tail
list_insert_tail-IsRing s head xs node r fresh = record {
  chain =
      Chain-insert s head xs head node r.distinct r.distinct.0 fresh
        (λ e. ground (arith, ==_refl node, e)) r.chain;
  distinct = IsDistinct-append (head ∷ xs) node r.distinct fresh;
}

Chain-front :
    (s : Nodes) (p : ℕ) (ys : List ℕ) (x : ℕ) (zs : List ℕ) (q : ℕ)
    → Chain s p (ys ++ x ∷ zs) q
    → Chain s p ys x
Chain-front s p [] x zs q c = (c.0, c.1)
Chain-front s p (y ∷ ys) x zs q c = (c.0, c.1, Chain-front s y ys x zs q c.2)

-- The node behind `x` is the end of the chain, or one of the nodes that follow.
Chain-next :
    (s : Nodes) (p : ℕ) (ys : List ℕ) (x : ℕ) (zs : List ℕ) (q : ℕ)
    → Chain s p (ys ++ x ∷ zs) q
    → contains (s.next x) (q ∷ zs) ≡ true
Chain-next s p [] x [] q c = ground (arith, c.2.0)
Chain-next s p [] x (z ∷ zs) q c = ground (arith, c.2.0)
Chain-next s p (y ∷ ys) x zs q c = Chain-next s y ys x zs q c.2

-- A node of a chain lies between its neighbours: unlinking it joins the two halves.
Chain-remove :
    (s : Nodes) (p : ℕ) (ys : List ℕ) (x : ℕ) (zs : List ℕ) (q : ℕ)
    → IsDistinct (p ∷ ys ++ x ∷ zs)
    → contains q (ys ++ x ∷ zs) ≡ false
    → Chain s p (ys ++ x ∷ zs) q
    → Chain (list_remove_node x s) p (ys ++ zs) q
unfolding list_remove_node node_init list_link
Chain-remove s p [] x [] q d out c = (ground (arith, c), ground (arith, c))
Chain-remove s p [] x (z ∷ zs) q d out c = (
  ground (arith, c.2.0, d.0),
  ground (arith, c.1, c.2.0, d.1.0),
  Chain-frame s (list_remove_node x s) z zs q
      (λ a i. ground (
        arith,
        c.0,
        c.1,
        d.0,
        d.1.0,
        i,
        ne_of_mem x a (z ∷ zs) d.1.0,
        ne_of_mem p a (x ∷ z ∷ zs) d.0,
      ))
      (λ a i.
        ground
          (arith, c.1, c.2.0, d.1, out, i, ne_of_mem x a (z ∷ zs) d.1.0, ne_of_mem z a zs d.1.1.0))
      c.2.2,
)
Chain-remove s p (y ∷ ys) x zs q d out c = (
  ground (
    arith,
    c.0,
    d.0,
    contains-append p ys (x ∷ zs),
    Chain-prev s y ys x (Chain-front s y ys x zs q c.2),
    ne_of_mem p (s.prev x) (y ∷ ys),
  ),
  ground (
    arith,
    c.1,
    d.1.0,
    out,
    contains-append y ys (x ∷ zs),
    Chain-next s y ys x zs q c.2,
    ne_of_mem y (s.next x) zs,
  ),
  Chain-remove s y ys x zs q d.1 (ground arith) c.2,
)

contains-remove :
    (a : ℕ) (ys : List ℕ) (x : ℕ) (zs : List ℕ)
    → contains a (ys ++ x ∷ zs) ≡ false
    → contains a (ys ++ zs) ≡ false
contains-remove a ys x zs h = ground (arith, contains-append a ys (x ∷ zs), contains-append a ys zs)

IsDistinct-remove :
    (ys : List ℕ) (x : ℕ) (zs : List ℕ) → IsDistinct (ys ++ x ∷ zs) → IsDistinct (ys ++ zs)
IsDistinct-remove [] x zs d = d.1
IsDistinct-remove (y ∷ ys) x zs d = (contains-remove y ys x zs d.0, IsDistinct-remove ys x zs d.1)

-- `listRemoveNode` takes a node out of its ring, which stays linked in both directions, and
-- leaves the node as a ring of its own.
pub list_remove_node-IsRing :
    (s : Nodes) (head : ℕ) (ys : List ℕ) (x : ℕ) (zs : List ℕ)
    → IsRing s head (ys ++ x ∷ zs)
    → IsRing (list_remove_node x s) head (ys ++ zs) × IsRing (list_remove_node x s) x []
unfolding list_remove_node node_init
list_remove_node-IsRing s head ys x zs r = (
  record {
    chain = Chain-remove s head ys x zs head r.distinct r.distinct.0 r.chain;
    distinct = IsDistinct-remove (head ∷ ys) x zs r.distinct;
  },
  record { chain = (ground arith, ground arith); distinct = (refl, tt) },
)

-- `listRetrieveItem` takes the first node of a ring out of it.
pub list_retrieve_item-IsRing :
    (s : Nodes) (head x : ℕ) (xs : List ℕ)
    → IsRing s head (x ∷ xs)
    → ((list_retrieve_item head s).0 ≡ x) × IsRing (list_retrieve_item head s).1 head xs
unfolding list_retrieve_item is_list_empty
list_retrieve_item-IsRing s head x xs r =
    let more : (x == head) ≡ false = ground (arith, r.distinct.0) in
    rw (r.chain.0, more) (refl, (list_remove_node-IsRing s head [] x xs r).0)

-- From an empty ring it gives NULL.
pub list_retrieve_item-empty :
    (s : Nodes) (head : ℕ) → IsRing s head [] → list_retrieve_item head s ≡ (0, s)
unfolding list_retrieve_item is_list_empty
list_retrieve_item-empty s head r = rw (r.chain.0, ==_refl head)

-- An insertion at the tail writes the new node and nodes of the ring.
pub list_insert_tail-frame :
    (s : Nodes) (head : ℕ) (xs : List ℕ) (node a : ℕ)
    → IsRing s head xs
    → contains a (node ∷ head ∷ xs) ≡ false
    → ((list_insert_tail node head s).next a ≡ s.next a)
      × ((list_insert_tail node head s).prev a ≡ s.prev a)
unfolding list_insert_tail insert_between
list_insert_tail-frame s head xs node a r out =
    let other : a ≢ s.prev head =
      ne_of_mem a (s.prev head) (head ∷ xs) (ground (arith, out))
        (Chain-prev s head xs head r.chain) in
    (ground (arith, out, other), ground (arith, out))

-- A removal writes nodes of the ring.
pub list_remove_node-frame :
    (s : Nodes) (head : ℕ) (ys : List ℕ) (x : ℕ) (zs : List ℕ) (a : ℕ)
    → IsRing s head (ys ++ x ∷ zs)
    → contains a (head ∷ ys ++ x ∷ zs) ≡ false
    → ((list_remove_node x s).next a ≡ s.next a) × ((list_remove_node x s).prev a ≡ s.prev a)
unfolding list_remove_node node_init list_link
list_remove_node-frame s head ys x zs a r out =
    let before = Chain-prev s head ys x (Chain-front s head ys x zs head r.chain) in
    let after = Chain-next s head ys x zs head r.chain in
    let split = contains-append a ys (x ∷ zs) in
    let p : a ≢ s.prev x = ne_of_mem a (s.prev x) (head ∷ ys) (ground (arith, out, split)) before in
    let n : a ≢ s.next x = ne_of_mem a (s.next x) (head ∷ zs) (ground (arith, out, split)) after in
    (ground (arith, out, split, p), ground (arith, out, split, n))
