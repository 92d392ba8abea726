-- ===== src/HashMap/Iterator.antt =====
-- hashmap.hh: the iterator over the entries of a map.
pub mod Visit
use free_guard.Base.{
  ℕ, zero, suc, ◌+◌, ◌-◌, ◌==◌, if◌then◌else◌, Bool, List, [], ◌∷◌, Run, ok, fault, null_pointer,
  hang, ◌>>=◌, not,
}
use free_guard.Ring.{is_list_tail}
use free_guard.HashMap.{HashMap, get_hash_entry, through_int}

-- The entry that the iterator is at, NULL at the end, and the bucket that it is in.
pub record Iterator : Type 0 where
  pub entry : ℕ
  pub pos : ℕ

-- `end`
unfoldable pub end_of : Iterator
end_of = record { entry = 0; pos = 0 }

-- `operator==`, which compares the entries only.
unfoldable pub is_same : Iterator → Iterator → Bool
is_same a b = a.entry == b.entry

module _ {ℓ} {V : Type ℓ} where
  -- The bucket goes through the `int` of the iterator's constructor.
  -- The loop of `begin` from bucket `pos` on, with the number of buckets that are left.
  unfoldable pub begin_loop : HashMap V → ℕ → ℕ → Iterator
  unfolding end_of
  begin_loop m zero pos = end_of
  begin_loop m (suc left) pos =
      let head = get_hash_entry m pos in
      if not (m.count head == 0)
      then record { entry = m.nodes.next head; pos = through_int pos }
      else begin_loop m left (suc pos)

  unfoldable pub begin : HashMap V → Iterator
  unfolding begin_loop
  begin m = begin_loop m m.buckets 0

  -- The loop of `operator++` over the buckets from `pos` on, of which `left` are in range: it ends at
  -- the first bucket with an entry, or at the first index out of range, where `getHashEntry` is NULL.
  unfoldable pub advance_loop : HashMap V → ℕ → ℕ → Iterator
  advance_loop m zero pos = record { entry = 0; pos = pos }
  advance_loop m (suc left) pos =
      let head = get_hash_entry m pos in
      if head == 0
      then record { entry = 0; pos = pos }
      else if not (m.count head == 0)
      then record { entry = m.nodes.next head; pos = pos }
      else advance_loop m left (suc pos)

  -- `operator++`
  unfoldable pub advance : HashMap V → Iterator → Run Iterator
  unfolding advance_loop
  advance m it =
      if it.entry == 0
      then fault null_pointer
      else if not (is_list_tail it.entry (get_hash_entry m it.pos) m.nodes)
      then ok (record { entry = m.nodes.next it.entry; pos = it.pos })
      else ok (advance_loop m (m.buckets - suc it.pos) (suc it.pos))

  -- `getData`, `getkey`
  unfoldable pub get_data : HashMap V → Iterator → Run V
  get_data m it = if it.entry == 0 then fault null_pointer else ok (m.value it.entry)

  unfoldable pub get_key : HashMap V → Iterator → Run ℕ
  get_key m it = if it.entry == 0 then fault null_pointer else ok (m.key it.entry)

  -- The keys and values that a loop `for (; it != map.end(); it++)` gets, in at most `fuel` rounds.
  unfoldable pub visit : ℕ → HashMap V → Iterator → Run (List (ℕ × V))
  unfolding is_same end_of
  visit zero m it = fault hang
  visit (suc fuel) m it = if is_same it end_of then ok [] else do
    key ← get_key m it
    value ← get_data m it
    next ← advance m it
    rest ← visit fuel m next
    ok ((key, value) ∷ rest)
