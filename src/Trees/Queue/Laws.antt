-- ===== src/Trees/Queue/Laws.antt =====
-- The queue refines a list without duplicates: the set always has the deque's items.
use design.Common.{
  ◌≡◌, refl, Bool, false, not, ◌||◌, Option, none, some, List, [], ◌∷◌, ◌++◌, Key, ◌==◌,
  if◌then◌else◌, if_cases, contains, filter, arith,
}
use design.Trees.Queue.{Queue, empty, discard, put, pop, pop_from, items, remove, drain}

-- No item occurs twice.
abbrev pub IsDistinct : List Key → Type 0
IsDistinct [] = Unit
IsDistinct (x ∷ xs) = (contains x xs ≡ false) × IsDistinct xs

pub record IsValid (q : Queue) : Type 0 where
  pub indexed : (k : Key) → contains k q.index ≡ contains k q.deque
  pub distinct : IsDistinct q.deque

contains-snoc : (k x : Key) (xs : List Key) → contains k (xs ++ x ∷ []) ≡ (contains k xs || x == k)
unfolding contains
contains-snoc k x [] = ground arith
contains-snoc k x (y ∷ ys) = ground (arith, contains-snoc k x ys)

pub contains-discard :
    (k x : Key) (xs : List Key)
    → contains k (discard x xs) ≡ (if x == k then false else contains k xs)
unfolding contains discard filter
contains-discard k x [] = ground arith
contains-discard k x (y ∷ ys) = ground (arith, contains-discard k x ys)

discard_absent : (x : Key) (xs : List Key) → contains x xs ≡ false → discard x xs ≡ xs
unfolding contains discard filter
discard_absent x [] h = refl
discard_absent x (y ∷ ys) h = ground (arith, discard_absent x ys)

IsDistinct-snoc :
    (x : Key) (xs : List Key) → IsDistinct xs → contains x xs ≡ false → IsDistinct (xs ++ x ∷ [])
unfolding contains
IsDistinct-snoc x [] d h = ground arith
IsDistinct-snoc x (y ∷ ys) d h = ground (arith, IsDistinct-snoc x ys d.1, contains-snoc y x ys)

pub discard-IsDistinct : (x : Key) (xs : List Key) → IsDistinct xs → IsDistinct (discard x xs)
unfolding contains discard filter
discard-IsDistinct x [] d = tt
discard-IsDistinct x (y ∷ ys) d =
    ground (arith, discard-IsDistinct x ys d.1, contains-discard y x ys)

pub pop_from-IsValid :
    (xs index : List Key)
    → ((k : Key) → contains k index ≡ contains k xs)
    → IsDistinct xs
    → IsValid (pop_from xs index).0
unfolding pop_from
pop_from-IsValid [] index same d = record { indexed = same; distinct = tt }
pop_from-IsValid (x ∷ xs) index same d = record {
  indexed = λ k. unfold contains in ground (arith, same k, contains-discard k x index, d.0);
  distinct = d.1;
}

module _ (q : Queue) (v : IsValid q) where
  put-IsValid : (k : Key) → IsValid (put q k).0
  unfolding put
  put-IsValid k =
      if_cases (λ (r : Queue × Bool). IsValid r.0) (contains k q.index) (λ _. v)
        λ new. record {
          indexed = λ j. unfold contains in ground (arith, v.indexed j, contains-snoc j k q.deque);
          distinct = ground (arith, v.indexed k, IsDistinct-snoc k q.deque v.distinct);
        }

  remove-IsValid : (k : Key) → IsValid (remove q k).0
  unfolding remove
  remove-IsValid k =
      if_cases (λ (r : Queue × Bool). IsValid r.0) (contains k q.index)
        (λ _. record {
          indexed = λ j.
              ground
                (arith, v.indexed j, contains-discard j k q.deque, contains-discard j k q.index);
          distinct = discard-IsDistinct k q.deque v.distinct;
        })
        (λ _. v)

drain-IsValid : IsValid empty
drain-IsValid = record { indexed = λ k. refl; distinct = tt }

abbrev front : List Key → Option Key
front [] = none
front (x ∷ _) = some x

abbrev behind : List Key → List Key
behind [] = []
behind (_ ∷ xs) = xs

-- What each method promises, in terms of the list of items.
pub record Promises (q : Queue) : Type 0 where
  pub after_put :
      (k : Key)
      → IsValid (put q k).0
        × ((put q k).1 ≡ not (contains k (items q)))
        × (items (put q k).0 ≡ (if contains k (items q) then items q else items q ++ k ∷ []))
  pub after_pop :
      IsValid (pop q).0 × ((pop q).1 ≡ front (items q)) × (items (pop q).0 ≡ behind (items q))
  pub after_remove :
      (k : Key)
      → IsValid (remove q k).0
        × ((remove q k).1 ≡ contains k (items q))
        × (items (remove q k).0 ≡ discard k (items q))
  pub after_drain : IsValid (drain q).0 × ((drain q).1 ≡ items q) × (items (drain q).0 ≡ [])

-- If the set has the deque's items and no item is twice in the deque, the two implement a list without duplicates: `put` appends a new item and
-- refuses one that is queued, `pop` takes the oldest, `remove` takes out exactly the given item and
-- says whether it was queued, `drain` hands over all items; and each keeps the set in step.
pub Queue-Promises : (q : Queue) → IsValid q → Promises q
unfolding put pop pop_from remove drain
Queue-Promises q v = record {
  after_put = λ k. (put-IsValid q v k, ground (arith, v.indexed k), ground (arith, v.indexed k));
  after_pop = (pop_from-IsValid q.deque q.index v.indexed v.distinct, ground arith, ground arith);
  after_remove = λ k. (
    remove-IsValid q v k,
    ground (arith, v.indexed k),
    ground (arith, v.indexed k, discard_absent k q.deque),
  );
  after_drain = (drain-IsValid, refl, refl);
}
