-- ===== src/Slist/Stack.antt =====
-- slist.h: insertion and removal at the head.
use free_guard.Base.{
  ℕ, false, ◌≡◌, ◌≢◌, refl, sym, ◌==◌, ==_refl, ne→==_false, update, fault, null_pointer, Returns,
}
use free_guard.Links.{Ptr, null, Links, ◌>>◌, store, load-ok, store-ok}
use free_guard.Slist.{insert_sll_head, remove_sll_head, get_tail_sll, insert_all_sll_head}

-- A node that is inserted at the head of a singly linked list is the one that is removed next;
-- the header is then as it was, and no other address than the header's and the node's has
-- changed. Header and node are distinct and not NULL.
pub remove_sll_head-insert_sll_head :
    (m : Links) (slist node : Ptr)
    → slist ≢ null
    → node ≢ null
    → slist ≢ node
    → Returns ((insert_sll_head node slist >> remove_sll_head slist) m) (λ r.
      (r.0 ≡ node) × (r.1 slist ≡ m slist) × ((a : Ptr) → a ≢ slist → a ≢ node → r.1 a ≡ m a))
unfolding insert_sll_head remove_sll_head
remove_sll_head-insert_sll_head m slist node s n apart =
    let m₁ = update m node (m slist) in
    let m₂ = update m₁ slist node in
    let off : (node == slist) ≡ false = ne→==_false node slist (λ e. apart (sym e)) in
    (
      (node, update m₂ slist (m slist)),
      rw (
        load-ok slist m s,
        store-ok node (m slist) m n,
        store-ok slist node m₁ s,
        load-ok slist m₂ s,
        ==_refl slist,
        load-ok node m₂ n,
        off,
        ==_refl node,
        store-ok slist (m slist) m₂ s,
      ),
      (refl, rw (==_refl slist), λ a p q. rw (ne→==_false a slist p, ne→==_false a node q)),
    )

-- Merging an empty list into another one writes through NULL, the tail of the empty list.
pub insert_all_sll_head-empty :
    (fuel : ℕ) (m : Links) (node slist : Ptr)
    → slist ≢ null
    → node ≢ null
    → m node ≡ null
    → insert_all_sll_head fuel node slist m ≡ fault null_pointer
unfolding insert_all_sll_head get_tail_sll store
insert_all_sll_head-empty fuel m node slist s n empty =
    rw (load-ok slist m s, load-ok node m n, ne→==_false slist null s, empty)
