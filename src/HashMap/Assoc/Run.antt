-- ===== src/HashMap/Assoc/Run.antt =====
-- hashmap.hh: sequences of calls, against a list of bindings.
use free_guard.Base.{
  ℕ, ◌+◌, ◌^◌, ◌<◌, ◌≡◌, refl, ap, Bool, true, false, List, [], ◌∷◌, ◌++◌, arith, length, Option,
  none, some, Run, ok, Returns, ◌>>=◌,
}
use free_guard.HashMap.{HashMap, find, insert, insert_if_absent, erase}
use free_guard.HashMap.Assoc.{Binding, find_binding, erase_binding, add_absent, Represents}
use free_guard.HashMap.Assoc.Step.{
  IsUnused, find-Represents, insert-Represents, insert_if_absent-Represents,
}
use free_guard.HashMap.Assoc.Erase.{erase-Represents}

-- A call of the map, with the entry that `SourceHeap::allocate` gives where it is asked for one.
pub data Call {ℓ} (V : Type ℓ) : Type ℓ where
  look_up : (key keylen : ℕ) → Call V
  add : Binding V → Call V
  add_if_absent : Binding V → Call V
  take_out : (key keylen : ℕ) → Call V

pub data Answer {ℓ} (V : Type ℓ) : Type ℓ where
  value_found : Option V → Answer V
  nothing : Answer V
  was_found : Bool → Answer V

module _ {ℓ} {V : Type ℓ} where
  -- What the map does on a call.
  unfoldable pub serve : Call V → HashMap V → Run (Answer V × HashMap V)
  serve (look_up key keylen) m = find m key keylen >>= λ v. ok (value_found v, m)
  serve (add b) m = insert m b.key b.keylen b.value b.entry >>= λ r. ok (nothing, r)
  serve (add_if_absent b) m =
      insert_if_absent m b.key b.keylen b.value b.entry >>= λ r. ok (was_found r.0, r.1)
  serve (take_out key keylen) m = erase m key keylen >>= λ r. ok (was_found r.0, r.1)

  unfoldable pub serve_all : List (Call V) → HashMap V → Run (List (Answer V) × HashMap V)
  serve_all [] m = ok ([], m)
  serve_all (c ∷ cs) m = do r ← serve c m; rest ← serve_all cs r.1; ok (r.0 ∷ rest.0, rest.1)

  -- What the list of bindings does on it.
  abbrev pub answer : (ℕ → ℕ → ℕ → Bool) → Call V → List (Binding V) → Answer V × List (Binding V)
  answer keycmp (look_up key keylen) xs = (value_found (find_binding keycmp key keylen xs), xs)
  answer keycmp (add b) xs = (nothing, xs ++ b ∷ [])
  answer keycmp (add_if_absent b) xs = let r = add_absent keycmp b xs in (was_found r.0, r.1)
  answer keycmp (take_out key keylen) xs = (was_found true, erase_binding keycmp key keylen xs)

  abbrev pub answers :
      (ℕ → ℕ → ℕ → Bool) → List (Call V) → List (Binding V) → List (Answer V) × List (Binding V)
  answers keycmp [] xs = ([], xs)
  answers keycmp (c ∷ cs) xs =
      let r = answer keycmp c xs in let rest = answers keycmp cs r.1 in (r.0 ∷ rest.0, rest.1)

  abbrev pub is_there : Option V → Bool
  is_there none = false
  is_there (some v) = true

  there : (o : Option V) → is_there o ≡ true → (v : V) × (o ≡ some v)
  there none h = absurd (ground (arith, h))
  there (some v) h = (v, refl)

  -- An insertion gets an unused entry and a key length below 2^31, and does not exceed 2^31 - 1 bindings, and an erasure is of a
  -- key that is there.
  abbrev pub Allowed : HashMap V → Call V → List (Binding V) → Type 0
  Allowed base (look_up key keylen) xs = Unit
  Allowed base (add b) xs =
      IsUnused base xs b.entry × (length xs + 1 < 2 ^ 31) × (b.keylen < 2 ^ 31)
  Allowed base (add_if_absent b) xs =
      IsUnused base xs b.entry × (length xs + 1 < 2 ^ 31) × (b.keylen < 2 ^ 31)
  Allowed base (take_out key keylen) xs = is_there (find_binding base.keycmp key keylen xs) ≡ true

  abbrev pub AllAllowed : HashMap V → List (Call V) → List (Binding V) → Type 0
  AllAllowed base [] xs = Unit
  AllAllowed base (c ∷ cs) xs = Allowed base c xs × AllAllowed base cs (answer base.keycmp c xs).1

  serve-Represents :
      (base m : HashMap V) (c : Call V) (xs : List (Binding V))
      → Represents base m xs
      → Allowed base c xs
      → let r = answer base.keycmp c xs in
        Returns (serve c m) (λ s. (s.0 ≡ r.0) × Represents base s.1 r.1)
  unfolding serve
  serve-Represents base m (look_up key keylen) xs r h =
      ((_, m), rw (find-Represents base m xs r key keylen) refl, (refl, r))
  serve-Represents base m (add b) xs r h =
      let (m', run, after) =
        insert-Represents base m xs r b.key b.keylen b.value b.entry h.0 h.1 h.2 in
      ((nothing, m'), rw run refl, (refl, after))
  serve-Represents base m (add_if_absent b) xs r h =
      let (s, run, (same, after)) =
        insert_if_absent-Represents base m xs r b.key b.keylen b.value b.entry h.0 h.1 h.2 in
      ((was_found s.0, s.1), rw run refl, (ap was_found same, after))
  serve-Represents base m (take_out key keylen) xs r h =
      let (v, found) = there (find_binding base.keycmp key keylen xs) h in
      let (s, run, (same, after)) = erase-Represents base m xs r key keylen v found in
      ((was_found s.0, s.1), rw run refl, (ap was_found same, after))

  -- A map that represents a list of bindings answers every sequence of allowed calls just as
  -- the list does: every call returns, all answers are those of the list, and at the end the
  -- map represents the list's bindings. A search gives the value of the oldest binding for the
  -- key, an insertion puts a binding behind the others, `insertIfAbsent` only if there is none
  -- for the key, and an erasure takes the oldest one for its key out. Allowed is an insertion
  -- of a key length below 2^31 with an entry that is not in use, up to 2^31 - 1 bindings, and
  -- an erasure of a key that is there.
  pub serve_all-Represents :
      (base m : HashMap V) (cs : List (Call V)) (xs : List (Binding V))
      → Represents base m xs
      → AllAllowed base cs xs
      → let r = answers base.keycmp cs xs in
        Returns (serve_all cs m) (λ s. (s.0 ≡ r.0) × Represents base s.1 r.1)
  unfolding serve_all
  serve_all-Represents base m [] xs r h = (([], m), refl, (refl, r))
  serve_all-Represents base m (c ∷ cs) xs r h =
      let (s, run, (same, after)) = serve-Represents base m c xs r h.0 in
      let (rest, run', (same', after')) = serve_all-Represents base s.1 cs _ after h.1 in
      ((s.0 ∷ rest.0, rest.1), rw (run, run') refl, (rw (same, same') refl, after'))
