-- ===== src/Stream/Linked.antt =====
-- The tools of the Responses adapter and the tool states of its ledger belong together.
use design.Common.{
  suc, ◌<◌, ◌≡◌, refl, Bool, true, false, ◌||◌, none, some, is_some, from_option, List, [], ◌∷◌,
  Key, ◌==◌, if◌then◌else◌, lookup, insert, keys, contains, length, lookup-insert, Bool-cases, inl,
  inr, arith,
}
use design.Stream.Ledger.{ToolBlockState}
use design.Stream.Responses.{ToolState}
use design.Trees.Queue.Laws.{IsDistinct}

module _ {V : Type 0} where
  length-insert :
      (k : Key) (v : V) (m : List (Key × V))
      → lookup k m ≡ none
      → length (insert k v m) ≡ suc (length m)
  unfolding lookup insert
  length-insert k v [] h = omega arith
  length-insert k v (e ∷ m) h = ground (arith, length-insert k v m)

  length-update :
      (k : Key) (v : V) (m : List (Key × V))
      → is_some (lookup k m) ≡ true
      → length (insert k v m) ≡ length m
  unfolding lookup insert
  length-update k v [] h = ground arith
  length-update k v (e ∷ m) h = ground (arith, length-update k v m)

  contains-keys-insert :
      (j k : Key) (v : V) (m : List (Key × V))
      → contains j (keys (insert k v m)) ≡ ((k == j) || contains j (keys m))
  unfolding insert contains
  contains-keys-insert j k v [] = ground arith
  contains-keys-insert j k v (e ∷ m) = ground (arith, contains-keys-insert j k v m)

  insert-IsDistinct :
      (k : Key) (v : V) (m : List (Key × V))
      → IsDistinct (keys m)
      → IsDistinct (keys (insert k v m))
  unfolding insert contains
  insert-IsDistinct k v [] d = ground arith
  insert-IsDistinct k v ((j, w) ∷ m) (new, d) = elim (Bool-cases (j == k)) [
    | inl e ↦ rw e (new, d)
    | inr e ↦ rw e (ground (arith, contains-keys-insert j k v m), insert-IsDistinct k v m d)
  ]

abbrev pub Tools : Type 0
Tools = List (Key × ToolState)

abbrev pub States : Type 0
States = List (Key × ToolBlockState)

-- The tool at this index has an open block.
abbrev pub running : Key → States → Bool
running i states = from_option (lookup i states) false (λ t. t.started)

-- `seen` are the ids of the tools, `done` those whose item is done.
pub record Linked (seen done : List Key) (tools : Tools) (states : States) : Type 0 where
  pub known : (k : Key) → contains k seen ≡ is_some (lookup k tools)
  pub below : (k : Key) (s : ToolState) → lookup k tools ≡ some s → s.tool_index < length tools
  pub below_states : (i : Key) → is_some (lookup i states) ≡ true → i < length tools
  pub apart :
      (j k : Key) (s t : ToolState)
      → lookup j tools ≡ some s
      → lookup k tools ≡ some t
      → s.tool_index ≡ t.tool_index
      → j ≡ k
  pub idle :
      (k : Key) (s : ToolState)
      → lookup k tools ≡ some s
      → s.started ≡ false
      → lookup s.tool_index states ≡ none
  pub runs :
      (k : Key) (s : ToolState)
      → lookup k tools ≡ some s
      → contains k done ≡ false
      → s.started ≡ true
      → running s.tool_index states ≡ true
  pub unstopped :
      (k : Key) (s : ToolState)
      → lookup k tools ≡ some s
      → contains k done ≡ false
      → s.stopped ≡ false
  pub distinct : IsDistinct (keys states)

pub Linked-new : Linked [] [] [] []
unfolding lookup contains
Linked-new = record {
  known = λ k. refl;
  below = λ k s h. absurd (ground (arith));
  below_states = λ i h. absurd (ground (arith));
  apart = λ j k s t h g e. absurd (ground (arith));
  idle = λ k s h e. absurd (ground (arith));
  runs = λ k s h e f. absurd (ground (arith));
  unstopped = λ k s h e. absurd (ground (arith));
  distinct = tt;
}

module _ (seen done : List Key) (tools : Tools) (states : States)
    (v : Linked seen done tools states) where
  -- A tool that was not seen is added with the next index.
  pub Linked-add :
      (k : Key) (s : ToolState)
      → contains k seen ≡ false
      → s.tool_index ≡ length tools
      → s.started ≡ false
      → s.stopped ≡ false
      → Linked (k ∷ seen) done (insert k s tools) states
  unfolding contains
  Linked-add k s new index idle' live =
      let at : (j : Key)
          → lookup j (insert k s tools) ≡ (if k == j then some s else lookup j tools) =
        λ j. lookup-insert k j s tools in
      let more = length-insert k s tools (ground (arith, v.known k)) in
      record {
        known = λ j. ground (arith, v.known j, at j);
        below = λ j t h. ground (arith, v.below j t, at j, more);
        below_states = λ i h. ground (arith, v.below_states i, more);
        apart =
            λ i j t u h g e. ground (arith, v.apart i j t u, v.below i t, v.below j u, at i, at j);
        idle = λ j t h e. ground (arith, v.idle j t, at j, v.below_states t.tool_index);
        runs = λ j t h e f. ground (arith, v.runs j t, at j);
        unstopped = λ j t h e. ground (arith, v.unstopped j t, at j);
        distinct = v.distinct;
      }

  -- A tool's state changes in what the invariant does not read.
  pub Linked-set :
      (k : Key) (s s' : ToolState)
      → lookup k tools ≡ some s
      → s'.tool_index ≡ s.tool_index
      → s'.started ≡ s.started
      → s'.stopped ≡ s.stopped
      → Linked seen done (insert k s' tools) states
  Linked-set k s s' here index same same' =
      let at : (j : Key)
          → lookup j (insert k s' tools) ≡ (if k == j then some s' else lookup j tools) =
        λ j. lookup-insert k j s' tools in
      let more = length-update k s' tools (ground (arith)) in
      record {
        known = λ j. ground (arith, v.known j, at j);
        below = λ j t h. ground (arith, v.below j t, v.below k s here, at j, more);
        below_states = λ i h. ground (arith, v.below_states i, more);
        apart = λ i j t u h g e.
            ground (arith, v.apart i j t u, v.apart k j s u here, v.apart i k t s, at i, at j);
        idle = λ j t h e. ground (arith, v.idle j t, v.idle k s here, at j);
        runs = λ j t h e f. ground (arith, v.runs j t, v.runs k s here, at j);
        unstopped = λ j t h e. ground (arith, v.unstopped j t, v.unstopped k s here, at j);
        distinct = v.distinct;
      }

  -- A tool starts, and has a state from then on.
  pub Linked-start :
      (k : Key) (s s' : ToolState) (b : ToolBlockState)
      → lookup k tools ≡ some s
      → s'.tool_index ≡ s.tool_index
      → s'.stopped ≡ s.stopped
      → s'.started ≡ true
      → b.started ≡ true
      → Linked seen done (insert k s' tools) (insert s.tool_index b states)
  Linked-start k s s' b here index same on running' =
      let i = s.tool_index in
      let at : (j : Key)
          → lookup j (insert k s' tools) ≡ (if k == j then some s' else lookup j tools) =
        λ j. lookup-insert k j s' tools in
      let in_ : (j : Key)
          → lookup j (insert i b states) ≡ (if i == j then some b else lookup j states) =
        λ j. lookup-insert i j b states in
      let more = length-update k s' tools (ground (arith)) in
      record {
        known = λ j. ground (arith, v.known j, at j);
        below = λ j t h. ground (arith, v.below j t, v.below k s here, at j, more);
        below_states = λ j h. ground (arith, v.below_states j, v.below k s here, in_ j, more);
        apart = λ h j t u p q e.
            ground (arith, v.apart h j t u, v.apart k j s u here, v.apart h k t s, at h, at j);
        idle = λ j t h e. ground (arith, v.idle j t, v.apart k j s t here, in_ t.tool_index, at j);
        runs = λ j t h e f. ground (arith, v.runs j t, in_ t.tool_index, at j);
        unstopped = λ j t h e. ground (arith, v.unstopped j t, v.unstopped k s here, at j);
        distinct = insert-IsDistinct i b states v.distinct;
      }

  -- A tool stops, and is done.
  pub Linked-stop :
      (k : Key) (s s' : ToolState) (b : ToolBlockState)
      → lookup k tools ≡ some s
      → s'.tool_index ≡ s.tool_index
      → s'.started ≡ true
      → is_some (lookup s.tool_index states) ≡ true
      → Linked seen (k ∷ done) (insert k s' tools) (insert s.tool_index b states)
  unfolding contains
  Linked-stop k s s' b here index on some' =
      let i = s.tool_index in
      let at : (j : Key)
          → lookup j (insert k s' tools) ≡ (if k == j then some s' else lookup j tools) =
        λ j. lookup-insert k j s' tools in
      let in_ : (j : Key)
          → lookup j (insert i b states) ≡ (if i == j then some b else lookup j states) =
        λ j. lookup-insert i j b states in
      let more = length-update k s' tools (ground (arith)) in
      record {
        known = λ j. ground (arith, v.known j, at j);
        below = λ j t h. ground (arith, v.below j t, v.below k s here, at j, more);
        below_states = λ j h. ground (arith, v.below_states j, v.below k s here, in_ j, more);
        apart = λ h j t u p q e.
            ground (arith, v.apart h j t u, v.apart k j s u here, v.apart h k t s, at h, at j);
        idle = λ j t h e. ground (arith, v.idle j t, v.apart k j s t here, in_ t.tool_index, at j);
        runs =
            λ j t h e f. ground (arith, v.runs j t, v.apart k j s t here, in_ t.tool_index, at j);
        unstopped = λ j t h e. ground (arith, v.unstopped j t, at j);
        distinct = insert-IsDistinct i b states v.distinct;
      }
