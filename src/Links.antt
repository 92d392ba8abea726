-- ===== src/Links.antt =====
-- The memory that the intrusive lists of slist.h and dlist.h link through: the `next` field of the
-- `slist_t` at each address. Reading or writing a field through NULL is undefined behaviour.
pub mod Seg
use free_guard.Base.{
  ℕ, ◌==◌, if◌then◌else◌, update, Run, ok, fault, null_pointer, ◌≡◌, ◌≢◌, ne→==_false,
}

abbrev pub Ptr : Type 0
Ptr = ℕ

abbrev pub null : Ptr
null = 0

abbrev pub Links : Type 0
Links = Ptr → Ptr

abbrev pub Cmd : Type 0 → Type 0
Cmd A = Links → Run (A × Links)

abbrev pub pure : {A : Type 0} → A → Cmd A
pure a m = ok (a, m)

abbrev pub and_then : {A B : Type 0} → Run (A × Links) → (A → Cmd B) → Run (B × Links)
and_then (ok (a, m)) k = k a m
and_then (fault e) k = fault e

infixl 5 ◌>>=◌ ◌>>◌
abbrev pub ◌>>=◌ : {A B : Type 0} → Cmd A → (A → Cmd B) → Cmd B
c >>= k = λ m. and_then (c m) k

abbrev pub ◌>>◌ : {B : Type 0} → Cmd (Unit {0}) → Cmd B → Cmd B
c >> k = c >>= λ _. k

-- `p->next`
unfoldable pub load : Ptr → Cmd Ptr
load p m = if p == null then fault null_pointer else ok (m p, m)

-- `p->next = q`
unfoldable pub store : Ptr → Ptr → Cmd (Unit {0})
store p q m = if p == null then fault null_pointer else ok (tt, update m p q)

pub load-ok : (p : Ptr) (m : Links) → p ≢ null → load p m ≡ ok (m p, m)
unfolding load
load-ok p m h = rw (ne→==_false p null h)

pub store-ok : (p q : Ptr) (m : Links) → p ≢ null → store p q m ≡ ok (tt, update m p q)
unfolding store
store-ok p q m h = rw (ne→==_false p null h)
