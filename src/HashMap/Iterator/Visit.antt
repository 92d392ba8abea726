-- ===== src/HashMap/Iterator/Visit.antt =====
-- hashmap.hh: the entries that an iteration visits.
use free_guard.Base.{
  ◌≤◌, ◌^◌, ℕ, zero, suc, ◌+◌, ◌-◌, ◌<◌, ◌≡◌, refl, sym, ap, ◌∙◌, subst, false, List, [], ◌∷◌, ◌++◌,
  map, Bool-cases, inl, inr, arith, length, length-append, contains, ◌==◌, ==_refl, ne→==_false, ok,
}
use free_guard.Ring.{is_list_tail}
use free_guard.Ring.Chain.{Chain, IsRing}
use free_guard.HashMap.{HashMap, through_int_lem, header}
use free_guard.HashMap.Content.{IsTable, get_hash_entry-header}
use free_guard.HashMap.Find.{header-ne_null}
use free_guard.HashMap.Iterator.{
  end_of, is_same, begin_loop, begin, advance_loop, advance, get_data, get_key, visit,
}

-- The entries of `left` buckets from bucket `pos` on, bucket by bucket.
abbrev pub in_order : (ℕ → List ℕ) → ℕ → ℕ → List ℕ
in_order content zero pos = []
in_order content (suc left) pos = content pos ++ in_order content left (suc pos)

module _ {ℓ} {V : Type ℓ} (m : HashMap V) (content : ℕ → List ℕ) (table : IsTable m content) where
  abbrev pub binding_of : ℕ → ℕ × V
  binding_of entry = (m.key entry, m.value entry)

  -- From entry `e` of bucket `pos`, of which the entries `zs` are behind it, the iteration goes
  -- through `e`, `zs` and the later buckets.
  walk :
      (left pos : ℕ) (rest : List (ℕ × V))
      → pos + suc left ≡ m.buckets
      → ((fuel : ℕ) → length rest < fuel → visit fuel m (advance_loop m left (suc pos)) ≡ ok rest)
      → (zs : List ℕ) (e fuel : ℕ) → Chain m.nodes e zs (header m pos)
      → contains 0 (e ∷ zs) ≡ false
      → contains (header m pos) (e ∷ zs) ≡ false
      → length zs + length rest + 1 < fuel
      → visit fuel m (record { entry = e; pos = pos }) ≡ ok (map binding_of (e ∷ zs) ++ rest)
  unfolding visit is_same get_key get_data advance is_list_tail
  walk left pos rest range later zs e zero c nonnull out enough = absurd (omega arith)
  walk left pos rest range later [] e (suc fuel) c nonnull out enough =
      let ne : (e == 0) ≡ false = ground (arith, nonnull) in
      let remaining : m.buckets - suc pos ≡ left = omega arith in
      rw
        (
          ne,
          get_hash_entry-header m pos (omega arith),
          c.0,
          ==_refl (header m pos),
          remaining,
          later fuel (omega arith),
        )
        refl
  walk left pos rest range later (z ∷ zs) e (suc fuel) c nonnull out enough =
      let ne : (e == 0) ≡ false = ground (arith, nonnull) in
      let on : (z == header m pos) ≡ false = ground (arith, out) in
      rw
        (
          ne,
          get_hash_entry-header m pos (omega arith),
          c.0,
          on,
          walk left pos rest range later zs z fuel c.2 (ground (arith, nonnull))
              (ground (arith, out)) (omega arith),
        )
        refl

  used :
      (pos e : ℕ) (zs : List ℕ)
      → pos < m.buckets
      → content pos ≡ e ∷ zs
      → (m.count (header m pos) ≡ suc (length zs))
        × (m.nodes.next (header m pos) ≡ e)
        × Chain m.nodes e zs (header m pos)
        × (contains 0 (e ∷ zs) ≡ false)
        × (contains (header m pos) (e ∷ zs) ≡ false)
  used pos e zs lt is =
      let ring : IsRing m.nodes (header m pos) (e ∷ zs) =
        subst (IsRing m.nodes (header m pos)) is (table.ring pos lt) in
      (
        table.counted pos lt ∙ ap length is,
        ring.chain.0,
        ring.chain.2,
        subst (λ xs. contains 0 xs ≡ false) is (table.nonnull pos lt),
        ring.distinct.0,
      )

  map-append_of :
      (xs ys : List ℕ) → map binding_of (xs ++ ys) ≡ map binding_of xs ++ map binding_of ys
  map-append_of [] ys = refl
  map-append_of (x ∷ xs) ys = ap (λ zs. binding_of x ∷ zs) (map-append_of xs ys)

  length-map_of : (xs : List ℕ) → length (map binding_of xs) ≡ length xs
  length-map_of [] = refl
  length-map_of (x ∷ xs) = ap suc (length-map_of xs)

  by_content :
      (left pos : ℕ) (xs : List ℕ)
      → content pos ≡ xs
      → pos + suc left ≡ m.buckets
      → (fuel : ℕ) → length (in_order content (suc left) pos) < fuel
      → ((fuel : ℕ)
          → length (in_order content left (suc pos)) < fuel
          → visit fuel m (advance_loop m left (suc pos))
            ≡ ok (map binding_of (in_order content left (suc pos))))
      → visit fuel m (advance_loop m (suc left) pos)
        ≡ ok (map binding_of (in_order content (suc left) pos))
  unfolding advance_loop
  by_content left pos [] is range fuel enough later =
      let below : pos < m.buckets = omega arith in
      let count : m.count (header m pos) ≡ 0 = table.counted pos below ∙ ap length is in
      rw
        (
          get_hash_entry-header m pos below,
          ne→==_false (header m pos) 0 (header-ne_null m content table pos),
          count,
          is,
        )
        (later fuel (subst (λ xs. length (xs ++ in_order content left (suc pos)) < fuel) is enough))
  by_content left pos (e ∷ zs) is range fuel enough later =
      let below : pos < m.buckets = omega arith in
      let (count, first, chain, nonnull, out) = used pos e zs below is in
      let rest = map binding_of (in_order content left (suc pos)) in
      let len = length-map_of (in_order content left (suc pos)) in
      let short : length (e ∷ zs ++ in_order content left (suc pos)) < fuel =
        subst (λ xs. length (xs ++ in_order content left (suc pos)) < fuel) is enough in
      rw
        (
          get_hash_entry-header m pos below,
          ne→==_false (header m pos) 0 (header-ne_null m content table pos),
          ne→==_false (m.count (header m pos)) 0 (λ e. absurd (omega (arith, e, count))),
          first,
          is,
        )
        (walk left pos rest range (λ f lt. later f (omega (arith, lt, len))) zs e fuel chain nonnull
            out (omega (arith, short, len, length-append zs (in_order content left (suc pos))))
          ∙ ap ok (sym (map-append_of (e ∷ zs) (in_order content left (suc pos)))))

  later_buckets :
      (left pos : ℕ)
      → pos + left ≡ m.buckets
      → (fuel : ℕ) → length (in_order content left pos) < fuel
      → visit fuel m (advance_loop m left pos) ≡ ok (map binding_of (in_order content left pos))
  unfolding visit is_same advance_loop
  later_buckets left pos range zero enough = absurd (omega arith)
  later_buckets zero pos range (suc fuel) enough = refl
  later_buckets (suc left) pos range (suc fuel) enough =
      by_content left pos (content pos) refl range (suc fuel) enough
        (later_buckets left (suc pos) (omega arith))

  -- `begin` stops where the loop of `operator++` from bucket 0 on does.
  begin_same :
      (left pos fuel : ℕ)
      → m.buckets ≤ 2 ^ 31
      → pos + left ≡ m.buckets
      → visit fuel m (begin_loop m left pos) ≡ visit fuel m (advance_loop m left pos)
  unfolding begin_loop end_of advance_loop visit is_same
  begin_same zero pos zero few range = refl
  begin_same zero pos (suc fuel) few range = refl
  begin_same (suc left) pos fuel few range =
      let below : pos < m.buckets = omega arith in
      let here = get_hash_entry-header m pos below in
      elim (Bool-cases (m.count (header m pos) == 0)) [
        | inl e ↦
            rw (here, ne→==_false (header m pos) 0 (header-ne_null m content table pos), e)
              (begin_same left (suc pos) fuel few (omega arith))
        | inr e ↦
            rw
              (
                here,
                ne→==_false (header m pos) 0 (header-ne_null m content table pos),
                e,
                through_int_lem pos (omega arith),
              )
              refl
      ]

  -- In a map that holds `content`, with at most 2^31 buckets, an iteration from `begin` to
  -- `end`, with more rounds than there are entries, comes to its end, and has got the key and
  -- the value of every entry, bucket by bucket and within a bucket in the order of insertion.
  pub visit-begin :
      (fuel : ℕ)
      → m.buckets ≤ 2 ^ 31
      → length (in_order content m.buckets 0) < fuel
      → visit fuel m (begin m) ≡ ok (map binding_of (in_order content m.buckets 0))
  unfolding begin
  visit-begin fuel few enough =
      begin_same m.buckets 0 fuel few (omega arith)
      ∙ later_buckets m.buckets 0 (omega arith) fuel enough
