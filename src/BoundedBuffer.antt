-- ===== src/BoundedBuffer.antt =====
-- kernel/bb.h: the bounded buffer, an array with two indices behind three semaphores. Each `down` may
-- end in a switch to another process, so `put` and `get` are cut there: the flag tells whether the
-- caller runs on, and `put_counted`, `put_locked` (`get_counted`, `get_locked`) are what it still does.
pub mod Ring
pub mod Queue
mod Tests
use p12_group.Base.{ℕ, ◌+◌, ◌==◌, if◌then◌else◌, Bool, true, false, List, get_or, set, replicate}
use p12_group.Process.{Kernel, M, ok, and_then, ◌>>=◌, pure}
use p12_group.Semaphore.{Semaphore, semaphore, down, up}

pub record BoundedBuffer (A : Type 0) : Type 0 where
  pub arr : List A
  pub n : ℕ
  pub head : ℕ
  pub tail : ℕ
  pub n_full : Semaphore
  pub n_empty : Semaphore
  pub mutex : Semaphore

module _ {A : Type 0} where
  -- `new T[n]` leaves the array as it finds it: a stands for what is there.
  unfoldable pub bounded_buffer : ℕ → A → BoundedBuffer A
  bounded_buffer n a = record {
    arr = replicate n a;
    n = n;
    head = 0;
    tail = 0;
    n_full = semaphore 0;
    n_empty = semaphore n;
    mutex = semaphore 1;
  }

  -- `arr[tail++] = v; if (tail == n) tail = 0;`
  unfoldable pub store : BoundedBuffer A → A → BoundedBuffer A
  store b v = record b {
    arr = set b.arr b.tail v;
    tail = if b.tail + 1 == b.n then 0 else b.tail + 1;
  }

  -- `v = arr[head++]; if (head == n) head = 0;` d stands for a read outside of the array.
  unfoldable pub load : A → BoundedBuffer A → A × BoundedBuffer A
  load d b =
      (get_or b.arr b.head d, record b { head = if b.head + 1 == b.n then 0 else b.head + 1 })

  unfoldable pub put_locked : A → BoundedBuffer A → M (Bool × BoundedBuffer A)
  put_locked v b = do
    let b' = store b v
    m ← up b'.mutex
    f ← up b'.n_full
    pure (true, record b' { mutex = m; n_full = f })

  unfoldable pub put_counted : A → BoundedBuffer A → M (Bool × BoundedBuffer A)
  unfolding put_locked
  put_counted v b = do
    (runs, m) ← down b.mutex
    let b' = record b { mutex = m }
    if runs then put_locked v b' else pure (false, b')

  unfoldable pub put : A → BoundedBuffer A → M (Bool × BoundedBuffer A)
  unfolding put_counted
  put v b = do
    (runs, e) ← down b.n_empty
    let b' = record b { n_empty = e }
    if runs then put_counted v b' else pure (false, b')

  -- The value that `get` returns is that of `load`; a blocked caller has none yet, and d is returned.
  unfoldable pub get_locked : A → BoundedBuffer A → M (Bool × A × BoundedBuffer A)
  get_locked d b = do
    let (v, b') = load d b
    m ← up b'.mutex
    e ← up b'.n_empty
    pure (true, v, record b' { mutex = m; n_empty = e })

  unfoldable pub get_counted : A → BoundedBuffer A → M (Bool × A × BoundedBuffer A)
  unfolding get_locked
  get_counted d b = do
    (runs, m) ← down b.mutex
    let b' = record b { mutex = m }
    if runs then get_locked d b' else pure (false, d, b')

  unfoldable pub get : A → BoundedBuffer A → M (Bool × A × BoundedBuffer A)
  unfolding get_counted
  get d b = do
    (runs, f) ← down b.n_full
    let b' = record b { n_full = f }
    if runs then get_counted d b' else pure (false, d, b')
