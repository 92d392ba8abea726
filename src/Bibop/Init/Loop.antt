-- ===== src/Bibop/Init/Loop.antt =====
-- The loops of `initialize` in closed form: what each bag is given, and the totals.
use free_guard.Base.{
  ℕ, zero, suc, ◌+◌, ◌-◌, ◌*◌, ◌^◌, ◌≤◌, ◌<◌, ◌≡◌, ◌≢◌, ◌⊎◌, inl, inr, refl, sym, ap, ◌∙◌, arith,
  ◌==◌, ==_refl, ne→==_false, pow_suc, Bool-cases, ==_iff,
}
use free_guard.Xdefines.{log2}
use free_guard.Xdefines.Log.{log2_pow}
use free_guard.Bibop.{PerThreadBag, update_bag}
use free_guard.Bibop.Init.{
  Plan, Cursor, num_bag_objects, init_bag, step_bag, init_bags, skip_unusable, init_threads,
}

-- The objects of bag `b` and of `k` bags from `b` on.
unfoldable pub objects : ℕ → ℕ → ℕ
objects size b = num_bag_objects size (16 * 2 ^ b)

unfoldable pub sum_objects : ℕ → ℕ → ℕ → ℕ
sum_objects size b zero = 0
sum_objects size b (suc k) = objects size b + sum_objects size (suc b) k

-- The bags up to one of them hold no more than all of them.
pub sum_objects-le :
    (size b k n : ℕ) → k < n → sum_objects size b k + objects size (b + k) ≤ sum_objects size b n
unfolding sum_objects
sum_objects-le size b k zero h = absurd (omega arith)
sum_objects-le size b zero (suc n) h =
    let e : b + 0 ≡ b = omega arith in omega (arith, ap (objects size) e)
sum_objects-le size b (suc k) (suc n) h =
    let e : b + suc k ≡ suc b + k = omega arith in
    omega (arith, ap (objects size) e, sum_objects-le size (suc b) k n (omega arith))

update_bag_self :
    (f : ℕ → ℕ → PerThreadBag) (t b : ℕ) (v : PerThreadBag) → update_bag f t b v t b ≡ v
update_bag_self f t b v = rw (==_refl t, ==_refl b)

update_bag_other :
    (f : ℕ → ℕ → PerThreadBag) (t b t' b' : ℕ) (v : PerThreadBag)
    → (t' ≢ t) ⊎ (b' ≢ b)
    → update_bag f t b v t' b' ≡ f t' b'
update_bag_other f t b t' b' v (inl ne) = rw (ne→==_false t' t ne)
update_bag_other f t b t' b' v (inr ne) = elim (Bool-cases (t' == t)) [
  | inl e ↦ rw (e, ne→==_false b' b ne) (ap (λ k. f k b') (sym ((==_iff t' t).0 e)))
  | inr e ↦ rw e
]

pub init_bag_congr :
    (p : Plan) (t t' b b' cls cls' sh sh' o o' s s' : ℕ)
    → t ≡ t'
    → b ≡ b'
    → cls ≡ cls'
    → sh ≡ sh'
    → o ≡ o'
    → s ≡ s'
    → init_bag p t b cls sh o s ≡ init_bag p t' b' cls' sh' o' s'
init_bag_congr p t t' b b' cls cls' sh sh' o o' s s' d e f g i j = cc

module _ (p : Plan) (t : ℕ) where
  -- The totals after a run of the inner loop.
  pub init_bags-totals :
      (left b class_size shift : ℕ) (c : Cursor)
      → class_size ≡ 16 * 2 ^ b
      → let r = init_bags p t left b class_size shift c in
        (r.offset_bag ≡ c.offset_bag + left * p.bag_size)
        × (r.offset_shadow_mem ≡ c.offset_shadow_mem + sum_objects p.bag_size b left * 8)
        × (r.num_cum_objects ≡ c.num_cum_objects + sum_objects p.bag_size b left)
  unfolding init_bags step_bag init_bag sum_objects objects
  init_bags-totals zero b class_size shift c e = omega arith
  init_bags-totals (suc left) b class_size shift c e =
      let (x, y, z) =
        init_bags-totals left (suc b) (class_size * 2) (shift + 1)
          (step_bag p t b class_size shift c) (omega (arith, pow_suc b)) in
      let n = ap (num_bag_objects p.bag_size) e in
      (omega (arith, x), omega (arith, y, n), omega (arith, z, n))

  -- Bags of other threads, and the bags that the loop has passed, stay as they are.
  pub init_bags-frame :
      (left b class_size shift : ℕ) (c : Cursor) (t' b' : ℕ)
      → (t' ≢ t) ⊎ (b' < b)
      → (init_bags p t left b class_size shift c).table t' b' ≡ c.table t' b'
  unfolding init_bags step_bag
  init_bags-frame zero b class_size shift c t' b' h = refl
  init_bags-frame (suc left) b class_size shift c t' b' h =
      init_bags-frame left (suc b) (class_size * 2) (shift + 1) (step_bag p t b class_size shift c)
        t' b' (ground arith)
      ∙ update_bag_other c.table t b t' b' _ (ground arith)

  -- The `k`th bag of a run gets the class size and the offsets that its number calls for.
  pub init_bags-table :
      (left b class_size shift : ℕ) (c : Cursor) (k : ℕ)
      → class_size ≡ 16 * 2 ^ b
      → k < left
      → (init_bags p t left b class_size shift c).table t (b + k)
        ≡ init_bag p t
            (b + k)
            (16 * 2 ^ (b + k))
            (shift + k)
            (c.offset_bag + k * p.bag_size)
            (c.offset_shadow_mem + sum_objects p.bag_size b k * 8)
  unfolding init_bags step_bag init_bag sum_objects objects
  init_bags-table zero b class_size shift c k e h = absurd (omega arith)
  init_bags-table (suc left) b class_size shift c zero e h =
      let here : b + 0 ≡ b = omega arith in
      let pow : class_size ≡ 16 * 2 ^ (b + 0) = rw here e in
      ap (λ k. (init_bags p t (suc left) b class_size shift c).table t k) here
      ∙ init_bags-frame left (suc b) (class_size * 2) (shift + 1)
          (step_bag p t b class_size shift c) t b (inr (omega arith))
      ∙ update_bag_self c.table t b _
      ∙ init_bag_congr p t t b (b + 0) class_size _ shift _ c.offset_bag _ c.offset_shadow_mem _
          refl (sym here) pow (omega arith) (omega arith) (omega arith)
  init_bags-table (suc left) b class_size shift c (suc k) e h =
      let there : b + suc k ≡ suc b + k = omega arith in
      let n = ap (num_bag_objects p.bag_size) e in
      ap (λ j. (init_bags p t (suc left) b class_size shift c).table t j) there
      ∙ init_bags-table left (suc b) (class_size * 2) (shift + 1)
          (step_bag p t b class_size shift c) k (omega (arith, pow_suc b)) (omega arith)
      ∙ init_bag_congr p t t (suc b + k) (b + suc k) _ _ _ _ _ _ _ _ refl (sym there)
          (ap (λ j. 16 * 2 ^ j) (sym there)) (omega arith) (omega arith) (omega (arith, n))

-- The objects of one thread's bags, in one heap.
abbrev pub thread_share : Plan → ℕ
thread_share p = sum_objects p.bag_size 0 p.num_usable_bags

module _ (p : Plan) (fits : p.num_usable_bags ≤ 32) where
  round : ℕ → Cursor → Cursor
  round t c = skip_unusable p (init_bags p t p.num_usable_bags 0 16 (log2 16) c)

  round-totals :
      (t : ℕ) (c : Cursor)
      → ((round t c).offset_bag ≡ c.offset_bag + 32 * p.bag_size)
        × ((round t c).offset_shadow_mem ≡ c.offset_shadow_mem + thread_share p * 8)
        × ((round t c).num_cum_objects ≡ c.num_cum_objects + thread_share p)
  unfolding round skip_unusable
  round-totals t c =
      let (x, y, z) = init_bags-totals p t p.num_usable_bags 0 16 (log2 16) c refl in
      let rows : p.num_usable_bags * p.bag_size + (32 - p.num_usable_bags) * p.bag_size
          ≡ 32 * p.bag_size =
        let e : p.num_usable_bags + (32 - p.num_usable_bags) ≡ 32 = omega arith in
        omega arith ∙ ap (λ (k : ℕ). k * p.bag_size) e in
      (omega (arith, x, rows), y, z)

  pub init_threads-total :
      (left t : ℕ) (c : Cursor)
      → (init_threads p left t c).num_cum_objects ≡ c.num_cum_objects + left * thread_share p
  unfolding init_threads round
  init_threads-total zero t c = omega arith
  init_threads-total (suc left) t c =
      let (x, y, z) = round-totals t c in
      init_threads-total left (suc t) (round t c) ∙ omega (arith, z)

  init_threads-frame :
      (left t : ℕ) (c : Cursor) (t' b' : ℕ)
      → t' < t
      → (init_threads p left t c).table t' b' ≡ c.table t' b'
  unfolding init_threads round skip_unusable
  init_threads-frame zero t c t' b' h = refl
  init_threads-frame (suc left) t c t' b' h =
      init_threads-frame left (suc t) (round t c) t' b' (omega arith)
      ∙ init_bags-frame p t p.num_usable_bags 0 16 (log2 16) c t' b' (inl (omega arith))

  -- What `initialize` gives to bag `b` of the `k`th thread from `t` on.
  pub init_threads-table :
      (left t : ℕ) (c : Cursor) (k b : ℕ)
      → k < left
      → b < p.num_usable_bags
      → (init_threads p left t c).table (t + k) b
        ≡ init_bag p
            (t + k)
            b
            (16 * 2 ^ b)
            (4 + b)
            (c.offset_bag + (k * 32 + b) * p.bag_size)
            (c.offset_shadow_mem + (k * thread_share p + sum_objects p.bag_size 0 b) * 8)
  unfolding init_threads round skip_unusable
  init_threads-table zero t c k b h g = absurd (omega arith)
  init_threads-table (suc left) t c zero b h g =
      let here : t + 0 ≡ t = omega arith in
      let same : 0 + b ≡ b = omega arith in
      ap (λ j. (init_threads p (suc left) t c).table j b) here
      ∙ init_threads-frame left (suc t) (round t c) t b (omega arith)
      ∙ ap (λ j. (round t c).table t j) (sym same)
      ∙ init_bags-table p t p.num_usable_bags 0 16 (log2 16) c b refl g
      ∙ init_bag_congr p t (t + 0) (0 + b) b _ _ _ _ _ _ _ _ (sym here) same
          (ap (λ j. 16 * 2 ^ j) same) (omega (arith, log2_pow 4 (omega arith))) (omega arith)
          (omega arith)
  init_threads-table (suc left) t c (suc k) b h g =
      let there : t + suc k ≡ suc t + k = omega arith in
      let (x, y, z) = round-totals t c in
      ap (λ j. (init_threads p (suc left) t c).table j b) there
      ∙ init_threads-table left (suc t) (round t c) k b (omega arith) g
      ∙ init_bag_congr p (suc t + k) (t + suc k) b b _ _ _ _ _ _ _ _ (sym there) refl refl refl
          (omega (arith, x)) (omega (arith, y))
