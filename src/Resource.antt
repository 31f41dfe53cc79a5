-- ===== src/Resource.antt =====
-- kernel/resource.h: objects with a reference count. An object is named by its address, 0 is nullptr;
-- the heap of objects is a partial map, from which `delete` removes one.
use p12_group.Base.{
  ℕ, ◌+◌, ◌-◌, ◌^◌, ◌%◌, ◌==◌, if◌then◌else◌, Option, none, some, update, Bool, true, false,
}

pub data ResourceType : Type 0 where
  process semaphore file directory table other : ResourceType

abbrev pub same_type : ResourceType → ResourceType → Bool
same_type process process = true
same_type semaphore semaphore = true
same_type file file = true
same_type directory directory = true
same_type table table = true
same_type other other = true
same_type _ _ = false

-- `count` is the `Atomic32` of the class, whose `getThenAdd` is one indivisible step.
pub record Resource : Type 0 where
  pub type : ResourceType
  pub count : ℕ

abbrev pub Store : Type 0
Store = ℕ → Option Resource

-- A member of nullptr or of a deleted object is accessed: undefined in C++.
pub data Run (A : Type 0) : Type 0 where
  ok : A → Store → Run A
  fault : Run A

abbrev pub M : Type 0 → Type 0
M A = Store → Run A

module _ {A B : Type 0} where
  abbrev pub and_then : Run A → (A → M B) → Run B
  and_then (ok a h) f = f a h
  and_then fault f = fault

  infixl 5 ◌>>=◌
  abbrev pub ◌>>=◌ : M A → (A → M B) → M B
  m >>= f = λ h. and_then (m h) f

infixl 5 ◌>>◌
abbrev pub ◌>>◌ : {A B : Type 0} → M A → M B → M B
m >> n = m >>= λ _. n

abbrev pub pure : {A : Type 0} → A → M A
pure = ok

-- `p->...`
unfoldable pub deref : ℕ → M Resource
deref p h = if p == 0 then fault else elim (h p) [ none ↦ fault | some r ↦ ok r h ]

-- `Resource::ref`: nullptr stays nullptr.
unfoldable pub ref : ℕ → M ℕ
unfolding deref
ref p = if p == 0 then pure 0 else do
  r ← deref p
  (λ h. ok p (update h p (some (record r { count = (r.count + 1) % 2 ^ 32 }))))

-- `Resource::unref`: the last reference deletes the object and returns nullptr.
unfoldable pub unref : ℕ → M ℕ
unfolding deref
unref p = if p == 0 then pure 0 else do
  r ← deref p
  (λ h.
      if r.count == 1
      then ok 0 (update h p none)
      else ok p (update h p (some (record r { count = (r.count + 2 ^ 32 - 1) % 2 ^ 32 }))))
