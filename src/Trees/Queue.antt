-- ===== src/Trees/Queue.antt =====
-- messaging/trees/queue.py: a deque with a set of its items.
pub mod Laws
use design.Common.{
  ℕ, Bool, true, false, not, Option, none, some, List, [], ◌∷◌, ◌++◌, Key, ◌==◌, if◌then◌else◌,
  contains, filter, length,
}

pub record Queue : Type 0 where
  pub deque : List Key
  pub index : List Key

abbrev pub empty : Queue
empty = record { deque = []; index = [] }

unfoldable pub discard : Key → List Key → List Key
unfolding filter
discard item items = filter (λ x. not (x == item)) items

unfoldable pub put : Queue → Key → Queue × Bool
unfolding contains
put q item =
    if contains item q.index
    then (q, false)
    else (record { deque = q.deque ++ item ∷ []; index = item ∷ q.index }, true)

-- `__init__(items)`.
unfoldable pub put_all : Queue → List Key → Queue
unfolding put
put_all q [] = q
put_all q (x ∷ xs) = put_all (put q x).0 xs

unfoldable pub pop_from : List Key → List Key → Queue × Option Key
unfolding discard
pop_from [] index = (record { deque = []; index = index }, none)
pop_from (x ∷ xs) index = (record { deque = xs; index = discard x index }, some x)

unfoldable pub pop : Queue → Queue × Option Key
unfolding pop_from
pop q = pop_from q.deque q.index

abbrev pub qsize : Queue → ℕ
qsize q = length q.deque

abbrev pub items : Queue → List Key
items q = q.deque

unfoldable pub remove : Queue → Key → Queue × Bool
unfolding contains discard filter
remove q item =
    if contains item q.index
    then (
      record { deque = filter (λ x. not (x == item)) q.deque; index = discard item q.index },
      true,
    )
    else (q, false)

unfoldable pub drain : Queue → Queue × List Key
drain q = (empty, q.deque)
