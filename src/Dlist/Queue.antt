-- ===== src/Dlist/Queue.antt =====
-- dlist.h: the free list as a queue of nodes.
use free_guard.Base.{
  ◌≡◌, ◌≢◌, refl, sym, ◌∙◌, true, false, List, [], ◌∷◌, ◌++◌, arith, ◌==◌, contains, IsDistinct,
  update, Returns, fault, null_pointer, ne→==_false, ==_refl,
}
use free_guard.Links.{Ptr, null, Links, load, load-ok, store-ok}
use free_guard.Links.Seg.{
  Seg, last, Seg-update, Seg-redirect, Seg-append, last-append, last-mem, last-ne_null, ne_of_mem,
  IsDistinct-append,
}
use free_guard.Dlist.{
  Dlist, init_dll, is_dll_empty, insert_dll_head, insert_dll_tail, remove_dll_head,
}

-- The header `d` and the memory `m` hold the nodes `xs`, the oldest first.
pub record IsQueue (m : Links) (d : Dlist) (xs : List Ptr) : Type 0 where
  pub chain : Seg m d.next null xs
  pub tail : d.prev ≡ last xs
  pub distinct : IsDistinct xs

-- The memory changed at most at the nodes `xs`.
abbrev pub SameOutside : List Ptr → Links → Links → Type 0
SameOutside xs m n = (a : Ptr) → contains a xs ≡ false → n a ≡ m a

pub init_dll-IsQueue : (m : Links) → IsQueue m init_dll []
unfolding init_dll
init_dll-IsQueue m = record { chain = refl; tail = refl; distinct = tt }

-- A write beside the nodes leaves the queue as it is.
pub IsQueue-update :
    (m : Links) (d : Dlist) (xs : List Ptr) (a v : Ptr)
    → contains a xs ≡ false
    → IsQueue m d xs
    → IsQueue (update m a v) d xs
IsQueue-update m d xs a v out q = record {
  chain = Seg-update m d.next null a v xs out q.chain;
  tail = q.tail;
  distinct = q.distinct;
}

-- The emptiness test is exact.
pub is_dll_empty_lem :
    (m : Links) (d : Dlist) (xs : List Ptr)
    → IsQueue m d xs
    → (is_dll_empty d ≡ true → xs ≡ []) × (xs ≡ [] → is_dll_empty d ≡ true)
unfolding is_dll_empty
is_dll_empty_lem m d [] q = (λ _. refl, λ _. rw q.chain)
is_dll_empty_lem m d (x ∷ xs) q = (λ e. absurd (q.chain.1 (ground (arith, q.chain.0))), λ e. cc)

pub is_dll_empty-cons :
    (m : Links) (d : Dlist) (x : Ptr) (xs : List Ptr)
    → IsQueue m d (x ∷ xs)
    → is_dll_empty d ≡ false
unfolding is_dll_empty
is_dll_empty-cons m d x xs q = ne→==_false d.next null (λ e. q.chain.1 (sym q.chain.0 ∙ e))

-- `insertDLLTail` of a node that is not NULL and not in the list returns: the node is at the
-- end of the queue, and only it and nodes of the list are written.
pub insert_dll_tail-IsQueue :
    (m : Links) (d : Dlist) (xs : List Ptr) (node : Ptr)
    → IsQueue m d xs
    → node ≢ null
    → contains node xs ≡ false
    → Returns
        (insert_dll_tail node d m)
        (λ r. IsQueue r.1 r.0 (xs ++ node ∷ []) × SameOutside (node ∷ xs) m r.1)
unfolding insert_dll_tail
insert_dll_tail-IsQueue m d [] node q ne out =
    let e : (d.prev == null) ≡ true = rw q.tail in
    (
      (record { next = node; prev = node }, update m node null),
      rw (store-ok node null m ne, e),
      (
        record { chain = (refl, ne, ground arith); tail = refl; distinct = (refl, tt) },
        λ a o. ground arith,
      ),
    )
insert_dll_tail-IsQueue m d (x ∷ xs) node q ne out =
    let l = last (x ∷ xs) in
    let l_ne : l ≢ null = last-ne_null m d.next null x xs q.chain in
    let apart : node ≢ l = ne_of_mem node l (x ∷ xs) out (last-mem x xs) in
    let m₁ = update m node null in
    let front =
      Seg-redirect m₁ d.next null node x xs q.distinct
        (Seg-update m d.next null node null (x ∷ xs) out q.chain) in
    (
      (record { next = d.next; prev = node }, update m₁ l node),
      rw (store-ok node null m ne, q.tail, ne→==_false l null l_ne, store-ok l node m₁ l_ne),
      (
        record {
          chain =
              Seg-append (update m₁ l node) d.next node null (x ∷ xs) (node ∷ []) front
                (refl, ne, ground arith);
          tail = sym (last-append (x ∷ xs) node);
          distinct = IsDistinct-append (x ∷ xs) node q.distinct out;
        },
        λ a o. ground (arith, last-mem x xs, ne_of_mem a l (x ∷ xs)),
      ),
    )

-- `removeDLLHead` of a queue that is not empty returns its oldest node, leaves the others in
-- order, and writes no node.
pub remove_dll_head-IsQueue :
    (m : Links) (d : Dlist) (x : Ptr) (xs : List Ptr)
    → IsQueue m d (x ∷ xs)
    → Returns (remove_dll_head d m) (λ r. (r.0.0 ≡ x) × IsQueue r.1 r.0.1 xs × (r.1 ≡ m))
unfolding remove_dll_head
remove_dll_head-IsQueue m d x [] q = (
  ((x, record { next = null; prev = null }), m),
  rw (q.chain.0, load-ok x m q.chain.1, q.chain.2),
  (refl, record { chain = refl; tail = refl; distinct = tt }, refl),
)
remove_dll_head-IsQueue m d x (y ∷ r) q =
    let more = ne→==_false y null q.chain.2.1 in
    (
      ((x, record { next = y; prev = d.prev }), m),
      rw (q.chain.0, load-ok x m q.chain.1, q.chain.2.0, more),
      (
        refl,
        record { chain = (refl, q.chain.2.1, q.chain.2.2); tail = q.tail; distinct = q.distinct.1 },
        refl,
      ),
    )

pub remove_dll_head-empty :
    (m : Links) (d : Dlist) → IsQueue m d [] → remove_dll_head d m ≡ fault null_pointer
unfolding remove_dll_head load
remove_dll_head-empty m d q = rw q.chain

-- `insertDLLHead` of a node that is not NULL and not in the list returns: the node is in front
-- of the others, and no other node is written.
pub insert_dll_head-IsQueue :
    (m : Links) (d : Dlist) (xs : List Ptr) (node : Ptr)
    → IsQueue m d xs
    → node ≢ null
    → contains node xs ≡ false
    → Returns
        (insert_dll_head node d m)
        (λ r. IsQueue r.1 r.0 (node ∷ xs) × SameOutside (node ∷ []) m r.1)
unfolding insert_dll_head
insert_dll_head-IsQueue m d [] node q ne out = (
  (record { next = node; prev = node }, update m node d.next),
  rw (store-ok node d.next m ne, q.tail),
  (
    record { chain = (refl, ne, ground (arith, q.chain)); tail = refl; distinct = (refl, tt) },
    λ a o. ground arith,
  ),
)
insert_dll_head-IsQueue m d (x ∷ xs) node q ne out =
    let l_ne = last-ne_null m d.next null x xs q.chain in
    (
      (record { next = node; prev = d.prev }, update m node d.next),
      rw (store-ok node d.next m ne, q.tail, ne→==_false (last (x ∷ xs)) null l_ne),
      (
        record {
          chain =
              (refl, ne, rw ==_refl (Seg-update m d.next null node d.next (x ∷ xs) out q.chain));
          tail = q.tail;
          distinct = (out, q.distinct);
        },
        λ a o. ground arith,
      ),
    )
