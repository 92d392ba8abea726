-- ===== src/Bibop/Object/Served.antt =====
-- bibopheap.hh: the state of one bag while it serves a program: its free lists, its bump pointers, its
-- shadow entries and its canaries.
pub mod Apart
pub mod Change
pub mod Guarded
pub mod Fresh
pub mod Grant
pub mod Bumped
pub mod Malloc
pub mod Free
pub mod Start
pub mod Store
pub mod Order
use free_guard.Base.{
  is_guarded, contains, true, false, ◌*◌, ℕ, ◌+◌, ◌-◌, ◌%◌, ◌<◌, ◌≤◌, ◌≡◌, ◌≢◌, ◌⊎◌, List, [], ◌∷◌,
  map,
}
use free_guard.Links.{Ptr}
use free_guard.Dlist.Queue.{IsQueue}
use free_guard.Xdefines.{bibop_num_heaps, alloc_sentinel}
use free_guard.Bibop.{BibopHeap, Memory}
use free_guard.Bibop.Layout.{IsSized, IsLaidOut, object_addr, shadow_addr, mapped_heaps}
use free_guard.Bibop.Layout.Keep.{KeepsLayout}
use free_guard.Bibop.Bump.Order.{AtObject}
use free_guard.Bibop.Bump.Covered.{Before}
use free_guard.Bibop.Object.Free.{Intact, Mapped}

-- An object of a bag: its heap and its index there.
abbrev pub Object : Type 0
Object = ℕ × ℕ

-- What the free lists of the bag hold, the oldest first, and where its bump pointers stand, by bag set
-- item.
pub record View : Type 0 where
  pub free : ℕ → List Object
  pub bump : ℕ → Object

-- The bump pointer has passed the object, or is still to come to it.
abbrev pub Passed : Object → Object → Type 0
Passed bump o = Before o.0 o.1 bump.0 bump.1

abbrev pub Ahead : Object → Object → Type 0
Ahead bump o = (bump.0 < o.0) ⊎ ((bump.0 ≡ o.0) × (bump.1 ≤ o.1))

module _ (h₀ : BibopHeap) (t b : ℕ) where
  abbrev pub entry : Object → Ptr
  entry o = shadow_addr h₀ (h₀.thread_bag t b) o.0 o.1

  abbrev pub object : Object → Ptr
  object o = object_addr h₀ (h₀.thread_bag t b) o.0 o.1

  -- An object of the bag, in one of the heaps.
  abbrev pub IsInBag : Object → Type 0
  IsInBag o = (o.0 < bibop_num_heaps) × (o.1 < (h₀.thread_bag t b).num_objects)

  -- The object is in use.
  abbrev pub Live : Memory → Object → Type 0
  Live mem o = mem.links (entry o) ≡ alloc_sentinel

  -- The objects of a free list are those of bag set item `j`, the bump pointer has passed them, and
  -- their entries are in the mapping.
  abbrev pub ArePassed : ℕ → Object → List Object → Type 0
  ArePassed j bump [] = Unit
  ArePassed j bump (o ∷ os) =
      IsInBag o × (o.0 % 4 ≡ j) × Passed bump o × (o.0 < mapped_heaps) × ArePassed j bump os

  -- The bag is usable and laid out, its shadow entries lie above the two marks NULL and `ALLOC_SENTINEL`, and
  -- its last object ends with a page. The entries of the first heaps are in the mapping, and the guard
  -- of the bag ends within the bag, or within the bags that are not usable behind the last usable one.
  pub record IsPlaced : Type 0 where
    pub sized : IsSized h₀
    pub laid_out : IsLaidOut h₀ t b (h₀.thread_bag t b)
    pub usable : b < 19
    pub marks : 1 < h₀.shadow_mem_begin
    pub mapped : Mapped h₀ (h₀.thread_bag t b)
    pub guard :
        let bag = h₀.thread_bag t b in
        (bag.num_objects * bag.class_size + bag.guardsize ≤ h₀.bibop_bag_size)
        ⊎ ((b ≡ 18) × (bag.num_objects * bag.class_size + bag.guardsize ≤ 14 * h₀.bibop_bag_size))
    pub paged : (n : ℕ) → object (n, (h₀.thread_bag t b).num_objects) % 4096 ≡ 0

  -- An object that is in use, or freed, or that the bump pointer has not come to yet: one that the
  -- program has or may get.
  abbrev pub Kept : View → Memory → Object → Type 0
  Kept v mem o =
      Live mem o
      ⊎ ((contains (entry o) (map entry (v.free (o.0 % 4))) ≡ true) ⊎ Ahead (v.bump (o.0 % 4)) o)

  -- The bag as it serves the program, with the layout of `h₀`.
  pub record Served (v : View) (h : BibopHeap) (mem : Memory) : Type 0 where
    pub layout : KeepsLayout h₀ t b h
    pub queue : (j : ℕ) → IsQueue mem.links ((h.thread_bag t b).freelist j) (map entry (v.free j))
    pub passed : (j : ℕ) → ArePassed j (v.bump j) (v.free j)
    pub place : (j : ℕ) → AtObject h (h.thread_bag t b) j (v.bump j).0 (v.bump j).1
    pub turn : (j : ℕ) → (v.bump j).0 % 4 ≡ j % 4
    pub untouched :
        (o : Object) → IsInBag o → Ahead (v.bump (o.0 % 4)) o → mem.links (entry o) ≢ alloc_sentinel
    pub intact : Intact h (h.thread_bag t b) mem
    pub shown :
        (o : Object)
        → IsInBag o
        → Kept v mem o
        → (x : ℕ) → x < (h₀.thread_bag t b).class_size
        → is_guarded mem.guards (object o + x) ≡ false
