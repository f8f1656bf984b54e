-- ===== src/Gpool/IdleQueue.antt =====
-- gpool/idle_queue.go: the fixed-capacity ring of idle connections. A slot is an `Option`, with
-- `none` for Go's nil pointer.
pub mod Ring
pub mod Deque
use lgobase.Base.{
  ℕ, ◌+◌, ◌-◌, Bool, true, false, List, Option, none, some, length, get_elem?, set, replicate, ◌==◌,
  if◌then◌else◌,
}
use lgobase.Base.Int.{ℤ, pos, ltb_ℤ, pos_part}

pub record IdleQueue {ℓ} (A : Type ℓ) : Type ℓ where
  pub items : List (Option A)
  pub head : ℕ
  pub tail : ℕ
  pub size : ℕ

module _ {ℓ} {A : Type ℓ} where
  unfoldable pub new_idle_queue : ℤ → IdleQueue A
  new_idle_queue capacity =
      let capacity' = if ltb_ℤ capacity (pos 0) then pos 0 else capacity in
      record { items = replicate (pos_part capacity') none; head = 0; tail = 0; size = 0 }

  abbrev pub len : IdleQueue A → ℕ
  len q = q.size

  abbrev pub capacity_of : IdleQueue A → ℕ
  capacity_of q = length q.items

  -- The element of a slice; the ring reads no index out of range while it is well formed.
  abbrev slot : List (Option A) → ℕ → Option A
  slot items i = elim (get_elem? items i) [ none ↦ none | some v ↦ v ]

  push_some : IdleQueue A → A → IdleQueue A × Bool
  push_some q pc =
      if q.size == length q.items
      then (q, false)
      else let items' = set q.items q.tail (some pc) in
        let tail' = if q.tail + 1 == length items' then 0 else q.tail + 1 in
        (record q { items = items'; tail = tail'; size = q.size + 1 }, true)

  unfoldable pub push : IdleQueue A → Option A → IdleQueue A × Bool
  unfolding push_some
  push q none = (q, false)
  push q (some pc) = push_some q pc

  unfoldable pub pop : IdleQueue A → IdleQueue A × Option A
  pop q =
      if q.size == 0
      then (q, none)
      else let pc = slot q.items q.head in
        let items' = set q.items q.head none in
        let head' = if q.head + 1 == length items' then 0 else q.head + 1 in
        (record q { items = items'; head = head'; size = q.size - 1 }, pc)

  unfoldable pub pop_newest : IdleQueue A → IdleQueue A × Option A
  pop_newest q =
      if q.size == 0
      then (q, none)
      else let tail' = (if q.tail == 0 then length q.items else q.tail) - 1 in
        let pc = slot q.items tail' in
        (record q { items = set q.items tail' none; tail = tail'; size = q.size - 1 }, pc)
