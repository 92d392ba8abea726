-- ===== src/Links/Seg.antt =====
-- Segments of linked nodes, and what a write leaves of them.
use free_guard.Base.{
  ℕ, ◌≡◌, ◌≢◌, refl, true, false, List, [], ◌∷◌, ◌++◌, arith, contains, IsDistinct, update,
  contains-append, ne→==_false, ap,
}
use free_guard.Links.{Ptr, null, Links}

-- From `p` the `next` fields lead through the nodes `xs` to `stop`.
abbrev pub Seg : Links → Ptr → Ptr → List Ptr → Type 0
Seg m p stop [] = p ≡ stop
Seg m p stop (x ∷ xs) = (p ≡ x) × (x ≢ null) × Seg m (m x) stop xs

-- The last node, NULL if there is none.
abbrev pub last : List Ptr → Ptr
last [] = null
last (x ∷ []) = x
last (x ∷ y ∷ r) = last (y ∷ r)

-- The two memories agree on the nodes `xs`.
abbrev pub Agree : List Ptr → Links → Links → Type 0
Agree xs m n = (a : Ptr) → contains a xs ≡ true → n a ≡ m a

pub Seg-frame :
    (m n : Links) (p stop : Ptr) (xs : List Ptr) → Agree xs m n → Seg m p stop xs → Seg n p stop xs
Seg-frame m n p stop [] same s = s
Seg-frame m n p stop (x ∷ xs) same s = (
  s.0,
  s.1,
  rw (same x (ground arith)) (Seg-frame m n (m x) stop xs (λ a i. same a (ground arith)) s.2),
)

pub Seg-update :
    (m : Links) (p stop a v : Ptr) (xs : List Ptr)
    → contains a xs ≡ false
    → Seg m p stop xs
    → Seg (update m a v) p stop xs
Seg-update m p stop a v xs out s = Seg-frame m (update m a v) p stop xs (λ b i. ground arith) s

pub ne_of_mem : (a b : Ptr) (xs : List Ptr) → contains a xs ≡ false → contains b xs ≡ true → a ≢ b
ne_of_mem a b xs out mem e = cc (ap (λ (t : ℕ). contains t xs) e)

pub last-mem : (x : Ptr) (xs : List Ptr) → contains (last (x ∷ xs)) (x ∷ xs) ≡ true
last-mem x [] = ground arith
last-mem x (y ∷ r) = ground (arith, last-mem y r)

-- A write to the last node gives the segment another end.
pub Seg-redirect :
    (m : Links) (p stop v x : Ptr) (xs : List Ptr)
    → IsDistinct (x ∷ xs)
    → Seg m p stop (x ∷ xs)
    → Seg (update m (last (x ∷ xs)) v) p v (x ∷ xs)
Seg-redirect m p stop v x [] d s = (s.0, s.1, ground arith)
Seg-redirect m p stop v x (y ∷ r) d s =
    let off =
      ne→==_false x (last (y ∷ r)) (ne_of_mem x (last (y ∷ r)) (y ∷ r) d.0 (last-mem y r)) in
    (s.0, s.1, rw off (Seg-redirect m (m x) stop v y r d.1 s.2))

pub Seg-append :
    (m : Links) (p mid stop : Ptr) (xs ys : List Ptr)
    → Seg m p mid xs
    → Seg m mid stop ys
    → Seg m p stop (xs ++ ys)
Seg-append m p mid stop [] ys s t = rw s t
Seg-append m p mid stop (x ∷ xs) ys s t = (s.0, s.1, Seg-append m (m x) mid stop xs ys s.2 t)

pub last-append : (xs : List Ptr) (x : Ptr) → last (xs ++ x ∷ []) ≡ x
last-append [] x = refl
last-append (y ∷ []) x = refl
last-append (y ∷ z ∷ r) x = last-append (z ∷ r) x

pub last-ne_null :
    (m : Links) (p stop x : Ptr) (xs : List Ptr) → Seg m p stop (x ∷ xs) → last (x ∷ xs) ≢ null
last-ne_null m p stop x [] s = s.1
last-ne_null m p stop x (y ∷ r) s = last-ne_null m (m x) stop y r s.2

pub IsDistinct-append :
    (xs : List Ptr) (x : Ptr) → IsDistinct xs → contains x xs ≡ false → IsDistinct (xs ++ x ∷ [])
IsDistinct-append [] x d out = (refl, tt)
IsDistinct-append (y ∷ r) x d out =
    (rw contains-append (ground arith), IsDistinct-append r x d.1 (ground arith))

-- The last node of a segment links to its end.
pub Seg-last :
    (m : Links) (p stop x : Ptr) (xs : List Ptr) → Seg m p stop (xs ++ x ∷ []) → m x ≡ stop
Seg-last m p stop x [] s = s.2
Seg-last m p stop x (y ∷ r) s = Seg-last m (m y) stop x r s.2
