-- ===== src/HashMap/Content.antt =====
-- hashmap.hh: what a map holds, the entries of each bucket in the order of their insertion.
use free_guard.Base.{
  ℕ, zero, suc, ◌^◌, ◌<◌, ◌≤◌, ◌≡◌, ◌≢◌, refl, ◌==◌, if◌then◌else◌, true, false, List, [], ◌∷◌,
  ◌++◌, arith, length, contains, Option, none, some, lt→ltb, ne→==_false, Bool-cases, inl, inr, ok,
}
use native.Mathlib.Nat.{mod-lt}
use free_guard.Ring.{Nodes}
use free_guard.Ring.Chain.{Chain, IsRing}
use free_guard.HashMap.{
  HashMap, header, hash_index, matches, rounds, get_hash_entry, entry_loop, get_entry,
}

-- The first `k` nodes.
abbrev pub take : ℕ → List ℕ → List ℕ
take zero xs = []
take (suc k) [] = []
take (suc k) (x ∷ xs) = x ∷ take k xs

pub take-all : (xs : List ℕ) → take (length xs) xs ≡ xs
take-all [] = refl
take-all (x ∷ xs) = rw (take-all xs)

pub take-front : (xs : List ℕ) (x : ℕ) → take (length xs) (xs ++ x ∷ []) ≡ xs
take-front [] x = refl
take-front (y ∷ xs) x = rw (take-front xs x)

pub rounds_small : (k : ℕ) → k < 2 ^ 31 → rounds k ≡ k
unfolding rounds
rounds_small k h = ground arith

module _ {ℓ} {V : Type ℓ} where
  -- The buckets hold the entries `content`: the rings are in order, the counts right, and no
  -- address serves twice.
  pub record IsTable (m : HashMap V) (content : ℕ → List ℕ) : Type ℓ where
    pub some_bucket : 0 < m.buckets
    pub allocated : m.entries ≢ 0
    pub ring : (i : ℕ) → i < m.buckets → IsRing m.nodes (header m i) (content i)
    pub counted : (i : ℕ) → i < m.buckets → m.count (header m i) ≡ length (content i)
    pub small : (i : ℕ) → i < m.buckets → length (content i) < 2 ^ 31
    pub nonnull : (i : ℕ) → i < m.buckets → contains 0 (content i) ≡ false
    pub apart :
        (i j a : ℕ)
        → i < m.buckets
        → j < m.buckets
        → contains a (header m i ∷ content i) ≡ true
        → contains a (header m j ∷ content j) ≡ true
        → i ≡ j

  -- The first of the entries that matches, NULL if none does.
  abbrev pub first_match : HashMap V → ℕ → ℕ → List ℕ → ℕ
  first_match m key keylen [] = 0
  first_match m key keylen (x ∷ xs) =
      if matches m key keylen x then x else first_match m key keylen xs

  -- The value of the first entry that matches.
  abbrev pub lookup : HashMap V → ℕ → ℕ → List ℕ → Option V
  lookup m key keylen [] = none
  lookup m key keylen (x ∷ xs) =
      if matches m key keylen x then some (m.value x) else lookup m key keylen xs

  -- The bucket of a key.
  pub hash_index-lt :
      (m : HashMap V) (key keylen : ℕ) → 0 < m.buckets → hash_index m key keylen < m.buckets
  unfolding hash_index
  hash_index-lt m key keylen h = mod-lt (m.hashfunc key keylen) h

  pub get_hash_entry-header :
      (m : HashMap V) (i : ℕ) → i < m.buckets → get_hash_entry m i ≡ header m i
  unfolding get_hash_entry
  get_hash_entry-header m i h = rw (lt→ltb i m.buckets h)

  -- A walk of `k` rounds looks at the first `k` entries.
  pub entry_loop_lem :
      (m : HashMap V) (key keylen p k : ℕ) (xs : List ℕ) (q : ℕ)
      → k ≤ length xs
      → Chain m.nodes p xs q
      → entry_loop m key keylen k (m.nodes.next p) ≡ first_match m key keylen (take k xs)
  unfolding entry_loop
  entry_loop_lem m key keylen p zero xs q h c = refl
  entry_loop_lem m key keylen p (suc k) [] q h c = absurd (omega arith)
  entry_loop_lem m key keylen p (suc k) (x ∷ xs) q h c =
      rw (c.0, entry_loop_lem m key keylen x k xs q (omega arith) c.2)

  -- `getEntry` in a bucket whose count is `k`, at most the number of its entries.
  pub get_entry_lem :
      (m : HashMap V) (head key keylen k : ℕ) (xs : List ℕ)
      → head ≢ 0
      → m.count head ≡ k
      → k ≤ length xs
      → k < 2 ^ 31
      → Chain m.nodes head xs head
      → get_entry m head key keylen ≡ ok (first_match m key keylen (take k xs))
  unfolding get_entry
  get_entry_lem m head key keylen k xs ne count le small c = rw (
    ne→==_false head 0 ne,
    count,
    rounds_small k small,
    entry_loop_lem m key keylen head k xs head le c,
  )

  pub first_match-lookup :
      (m : HashMap V) (key keylen : ℕ) (xs : List ℕ)
      → contains 0 xs ≡ false
      → (let e = first_match m key keylen xs in if e == 0 then none else some (m.value e))
        ≡ lookup m key keylen xs
  first_match-lookup m key keylen [] h = refl
  first_match-lookup m key keylen (x ∷ xs) h = elim (Bool-cases (matches m key keylen x)) [
    | inl e ↦ rw e (ground (arith, h))
    | inr e ↦ rw e (first_match-lookup m key keylen xs (ground (arith, h)))
  ]

  -- A search depends on the keys and values, not on the links and counts.
  pub lookup-nodes :
      (m : HashMap V) (nodes : Nodes) (count : ℕ → ℕ) (key keylen : ℕ) (xs : List ℕ)
      → lookup (record m { nodes = nodes; count = count }) key keylen xs ≡ lookup m key keylen xs
  unfolding matches
  lookup-nodes m nodes count key keylen [] = refl
  lookup-nodes m nodes count key keylen (x ∷ xs) = rw (lookup-nodes m nodes count key keylen xs)

  -- The entry behind others of which none matches.
  pub first_match-at :
      (m : HashMap V) (key keylen : ℕ) (xs : List ℕ) (x : ℕ) (ys : List ℕ)
      → lookup m key keylen xs ≡ none
      → matches m key keylen x ≡ true
      → first_match m key keylen (xs ++ x ∷ ys) ≡ x
  first_match-at m key keylen [] x ys h match = rw match
  first_match-at m key keylen (y ∷ xs) x ys h match = elim (Bool-cases (matches m key keylen y)) [
    | inl e ↦ absurd (ground (arith, e, h))
    | inr e ↦ rw e (first_match-at m key keylen xs x ys (ground (arith, e, h)) match)
  ]
