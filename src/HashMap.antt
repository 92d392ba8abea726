-- ===== src/HashMap.antt =====
-- hashmap.hh: the hash map. A `HashEntry` (24 bytes) heads the ring of the entries of one bucket; it
-- and each `Entry` start with their `list_t`, so that an address names the node and the entry at once.
-- The build defines NDEBUG: the assertions on `_initialized` are not compiled.
pub mod Content
pub mod Change
pub mod Start
pub mod Find
pub mod Insert
pub mod Erase
pub mod RoundTrip
pub mod Absent
pub mod Assoc
pub mod Iterator
use free_guard.Base.{
  ℕ, zero, suc, ◌+◌, ◌-◌, ◌*◌, ◌<◌, ◌≡◌, arith, ◌%◌, ◌^◌, ◌==◌, ◌&&◌, if◌then◌else◌, ltb, Bool,
  true, false, update, add64, sub64, Option, none, some, Run, ok, fault, null_pointer, aborted,
  ◌>>=◌, ◌>>◌,
}
use free_guard.Ring.{Nodes, node_init, list_insert_tail, list_remove_node}

-- The map's fields, and the fields of the entries and of the buckets' headers by their address.
pub record HashMap {ℓ} (V : Type ℓ) : Type ℓ where
  pub initialized : Bool
  pub entries : ℕ
  pub buckets : ℕ
  pub keycmp : ℕ → ℕ → ℕ → Bool
  pub hashfunc : ℕ → ℕ → ℕ
  pub nodes : Nodes
  pub count : ℕ → ℕ
  pub key : ℕ → ℕ
  pub keylen : ℕ → ℕ
  pub value : ℕ → V

-- The number of rounds of `int count = first->count; while (count > 0)`: an int keeps the low 32
-- bits, and is negative from 2^31 on.
unfoldable pub rounds : ℕ → ℕ
rounds count = let low = count % 2 ^ 32 in if ltb low (2 ^ 31) then low else 0

-- A `size_t` that is passed as an `int` and stored as a `size_t` again: the low 32 bits, with the
-- sign extended.
unfoldable pub through_int : ℕ → ℕ
through_int x = let low = x % 2 ^ 32 in if ltb low (2 ^ 31) then low else low + (2 ^ 64 - 2 ^ 32)

pub through_int_lem : (x : ℕ) → x < 2 ^ 31 → through_int x ≡ x
unfolding through_int
through_int_lem x h = ground arith

module _ {ℓ} {V : Type ℓ} where
  -- The address of the header `index`, where it is in range.
  unfoldable pub header : HashMap V → ℕ → ℕ
  header m index = m.entries + index * 24

  -- `getHashEntry`
  unfoldable pub get_hash_entry : HashMap V → ℕ → ℕ
  get_hash_entry m index = if ltb index m.buckets then header m index else 0

  -- `hashIndex`
  unfoldable pub hash_index : HashMap V → ℕ → ℕ → ℕ
  hash_index m key keylen = m.hashfunc key keylen % m.buckets

  -- The loop of `initialize` over the headers below `size`.
  unfoldable pub init_headers : ℕ → HashMap V → HashMap V
  init_headers zero m = m
  init_headers (suc i) m =
      let r = init_headers i m in
      let entry = get_hash_entry r i in
      record r { nodes = node_init entry r.nodes; count = update r.count entry 0 }

  -- `initialize`, at the memory that `SourceHeap::allocate` gives, which is written to unchecked. A function that is not given is a
  -- NULL pointer, on which the code aborts.
  unfoldable pub initialize :
      Option (ℕ → ℕ → ℕ) → Option (ℕ → ℕ → ℕ → Bool) → ℕ → ℕ → HashMap V → Run (HashMap V)
  initialize none kcmp size memory m = fault aborted
  initialize (some hfunc) none size memory m = fault aborted
  initialize (some hfunc) (some kcmp) size memory m =
      let r =
        init_headers size
          (record m { entries = memory; buckets = size; hashfunc = hfunc; keycmp = kcmp }) in
      if ltb 0 size && memory == 0 then fault null_pointer else ok (record r { initialized = true })

  unfoldable pub matches : HashMap V → ℕ → ℕ → ℕ → Bool
  matches m key keylen entry = (m.keylen entry == keylen) && m.keycmp (m.key entry) key keylen

  -- The loop of `getEntry`; the result is NULL where no entry matches.
  unfoldable pub entry_loop : HashMap V → ℕ → ℕ → ℕ → ℕ → ℕ
  entry_loop m key keylen zero entry = 0
  entry_loop m key keylen (suc count) entry =
      if matches m key keylen entry
      then entry
      else entry_loop m key keylen count (m.nodes.next entry)

  -- `getEntry`
  unfoldable pub get_entry : HashMap V → ℕ → ℕ → ℕ → Run ℕ
  get_entry m first key keylen =
      if first == 0
      then fault null_pointer
      else ok (entry_loop m key keylen (rounds (m.count first)) (m.nodes.next first))

  unfoldable pub find : HashMap V → ℕ → ℕ → Run (Option V)
  find m key keylen = do
    entry ← get_entry m (get_hash_entry m (hash_index m key keylen)) key keylen
    ok (if entry == 0 then none else some (m.value entry))

  -- `insertEntry` with `createNewEntry`, which gets `entry` from `SourceHeap::allocate`. The length
  -- goes through the `int` of `Entry::initialize`.
  unfoldable pub insert_entry : HashMap V → ℕ → ℕ → ℕ → V → ℕ → Run (HashMap V)
  insert_entry m head key keylen value entry =
      if entry == 0
      then fault null_pointer
      else ok (record m {
        nodes = list_insert_tail entry head (node_init entry m.nodes);
        count = update m.count head (add64 (m.count head) 1);
        key = update m.key entry key;
        keylen = update m.keylen entry (through_int keylen);
        value = update m.value entry value;
      })

  unfoldable pub insert : HashMap V → ℕ → ℕ → V → ℕ → Run (HashMap V)
  insert m key keylen value entry =
      insert_entry m (get_hash_entry m (hash_index m key keylen)) key keylen value entry

  unfoldable pub insert_if_absent : HashMap V → ℕ → ℕ → V → ℕ → Run (Bool × HashMap V)
  insert_if_absent m key keylen value node = do
    let first = get_hash_entry m (hash_index m key keylen)
    entry ← get_entry m first key keylen
    if entry == 0
        then (insert_entry m first key keylen value node >>= λ r. ok (false, r))
        else ok (true, m)

  -- `erase`. The count goes down whether or not an entry was found.
  unfoldable pub erase : HashMap V → ℕ → ℕ → Run (Bool × HashMap V)
  erase m key keylen = do
    let first = get_hash_entry m (hash_index m key keylen)
    entry ← get_entry m first key keylen
    let r = if entry == 0 then m else record m { nodes = list_remove_node entry m.nodes }
    ok (
      if entry == 0 then false else true,
      record r { count = update r.count first (sub64 (r.count first) 1) },
    )
