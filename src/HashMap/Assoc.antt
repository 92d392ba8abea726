-- ===== src/HashMap/Assoc.antt =====
-- hashmap.hh: the map as a list of the bindings that were inserted and not erased, the oldest first.
pub mod Step
pub mod Erase
pub mod Run
use free_guard.Base.{
  ℕ, ◌+◌, ◌%◌, ◌<◌, ◌≡◌, ◌≢◌, refl, sym, ap, ◌∙◌, subst, fun_ext, true, false, Bool, ◌&&◌,
  if◌then◌else◌, List, [], ◌∷◌, ◌++◌, arith, contains, ◌==◌, Bool-cases, inl, inr, Option, none,
  some, update, ne→==_false, ==_refl,
}
use free_guard.HashMap.{HashMap, hash_index, matches}
use free_guard.HashMap.Content.{IsTable, lookup}
use free_guard.HashMap.Insert.{IsLawful}

-- A key with its value, and the entry that holds them.
pub record Binding {ℓ} (V : Type ℓ) : Type ℓ where
  pub key : ℕ
  pub keylen : ℕ
  pub value : V
  pub entry : ℕ

module _ {ℓ} {V : Type ℓ} where
  -- Whether a binding is for the key, by the map's comparison.
  abbrev pub binds : (ℕ → ℕ → ℕ → Bool) → ℕ → ℕ → Binding V → Bool
  binds keycmp key keylen x = (x.keylen == keylen) && keycmp x.key key keylen

  -- The value of the oldest binding for a key.
  abbrev pub find_binding : (ℕ → ℕ → ℕ → Bool) → ℕ → ℕ → List (Binding V) → Option V
  find_binding keycmp key keylen [] = none
  find_binding keycmp key keylen (x ∷ xs) =
      if binds keycmp key keylen x then some x.value else find_binding keycmp key keylen xs

  -- The bindings without the oldest one for a key.
  abbrev pub erase_binding : (ℕ → ℕ → ℕ → Bool) → ℕ → ℕ → List (Binding V) → List (Binding V)
  erase_binding keycmp key keylen [] = []
  erase_binding keycmp key keylen (x ∷ xs) =
      if binds keycmp key keylen x then xs else x ∷ erase_binding keycmp key keylen xs

  -- A binding is put behind the others unless its key is there: whether it was, and the bindings.
  abbrev pub add_absent :
      (ℕ → ℕ → ℕ → Bool) → Binding V → List (Binding V) → Bool × List (Binding V)
  add_absent keycmp x xs = elim (find_binding keycmp x.key x.keylen xs) [
    | none ↦ (false, xs ++ x ∷ [])
    | some old ↦ (true, xs)
  ]

  -- The entries of the bindings whose key belongs to bucket `i`.
  abbrev pub bucket : HashMap V → List (Binding V) → ℕ → List ℕ
  bucket m [] i = []
  bucket m (x ∷ xs) i =
      if hash_index m x.key x.keylen == i then x.entry ∷ bucket m xs i else bucket m xs i

  abbrev pub entries_of : List (Binding V) → List ℕ
  entries_of [] = []
  entries_of (x ∷ xs) = x.entry ∷ entries_of xs

  -- The entries hold their bindings.
  abbrev pub Holds : HashMap V → Binding V → Type ℓ
  Holds m x = (m.key x.entry ≡ x.key) × (m.keylen x.entry ≡ x.keylen) × (m.value x.entry ≡ x.value)

  abbrev pub HoldsAll : HashMap V → List (Binding V) → Type ℓ
  HoldsAll m [] = Unit
  HoldsAll m (x ∷ xs) = Holds m x × HoldsAll m xs

  -- The map, which has the buckets and the comparison of `base`, represents the bindings.
  pub record Represents (base m : HashMap V) (xs : List (Binding V)) : Type ℓ where
    pub table : IsTable m (bucket m xs)
    pub held : HoldsAll m xs
    pub lawful : IsLawful m
    pub compare : m.keycmp ≡ base.keycmp
    pub start : m.entries ≡ base.entries
    pub size : m.buckets ≡ base.buckets

  pub bucket-append :
      (m : HashMap V) (xs ys : List (Binding V)) (i : ℕ)
      → bucket m (xs ++ ys) i ≡ bucket m xs i ++ bucket m ys i
  bucket-append m [] ys i = refl
  bucket-append m (x ∷ xs) ys i = elim (Bool-cases (hash_index m x.key x.keylen == i)) [
    | inl e ↦ rw e (ap (λ v. x.entry ∷ v) (bucket-append m xs ys i))
    | inr e ↦ rw e (bucket-append m xs ys i)
  ]

  -- Bindings of equal keys are in the same bucket.
  pub binds-same :
      (m : HashMap V) (key keylen : ℕ) (x : Binding V)
      → IsLawful m
      → binds m.keycmp key keylen x ≡ true
      → hash_index m x.key x.keylen ≡ hash_index m key keylen
  unfolding hash_index
  binds-same m key keylen x lawful e =
      let len : x.keylen ≡ keylen = ground (arith, e) in
      let eq : m.keycmp x.key key keylen ≡ true = ground (arith, e) in
      ap (λ h. h % m.buckets) (ap (m.hashfunc x.key) len ∙ lawful x.key key keylen eq)

  pub matches-held :
      (m : HashMap V) (key keylen : ℕ) (x : Binding V)
      → Holds m x
      → matches m key keylen x.entry ≡ binds m.keycmp key keylen x
  unfolding matches
  matches-held m key keylen x h = rw (h.0, h.1) refl

  -- A search in the key's bucket finds the oldest binding for the key.
  pub lookup-bucket :
      (m : HashMap V) (key keylen : ℕ) (xs : List (Binding V))
      → IsLawful m
      → HoldsAll m xs
      → lookup m key keylen (bucket m xs (hash_index m key keylen))
        ≡ find_binding m.keycmp key keylen xs
  lookup-bucket m key keylen [] lawful h = refl
  lookup-bucket m key keylen (x ∷ xs) lawful h = elim (Bool-cases (binds m.keycmp key keylen x)) [
    | inl e ↦
        rw
          (
            binds-same m key keylen x lawful e,
            ==_refl (hash_index m key keylen),
            matches-held m key keylen x h.0,
            e,
            h.0.2,
          )
          refl
    | inr e ↦ elim (Bool-cases (hash_index m x.key x.keylen == hash_index m key keylen)) [
      | inl here ↦
          rw (here, matches-held m key keylen x h.0, e) (lookup-bucket m key keylen xs lawful h.1)
      | inr away ↦ rw (e, away) (lookup-bucket m key keylen xs lawful h.1)
    ]
  ]

  pub IsTable-same :
      (m : HashMap V) (f g : ℕ → List ℕ) → ((i : ℕ) → f i ≡ g i) → IsTable m f → IsTable m g
  IsTable-same m f g same table = subst (IsTable m) (fun_ext same) table
