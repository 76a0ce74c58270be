-- ===== src/Stream/Stepping.antt =====
-- Every event in order keeps the adapter's invariant, and what it writes is accepted.
use design.Common.{
  ℕ, ◌≡◌, refl, ◌⊎◌, Bool, true, false, ◌&&◌, Option, none, some, from_option, List, [], ◌∷◌, Key,
  if_cases, lookup, is_text, lookup-insert, Option-cases, Bool-cases, inl, inr, arith,
}
use design.Stream.Events.{Text, is_empty}
use design.Stream.Responses.{
  Adapter, Context, Fed, Item, ItemType, function_call, reasoning, other_item, ResponseEvent,
  item_added, item_done, reasoning_delta, text_delta, arguments_delta, finish, failure, unknown,
  set_tool, new_tool, call_id_of, added_item, on_item_added, on_item_done, on_tool_done,
  on_reasoning_delta, on_text_delta, on_arguments_delta, on_text, named, feed_open,
}
use design.Stream.Contract.{Open}
use design.Stream.Passing.{State, Passes, fed-Passes, tool_delta-Passes}
use design.Stream.Stopping.{finish_tool-Passes}
use design.Stream.Orderly.{
  seen_after, done_after, in_order, is_end, State-add, State-again, State-set, on_text_delta-Passes,
  on_reasoning_delta-Passes, on_reasoning_done-Passes,
}

pub ItemType-cases : (t : ItemType) → (t ≡ function_call) ⊎ (t ≡ reasoning) ⊎ (t ≡ other_item)
ItemType-cases function_call = inl refl
ItemType-cases reasoning = inr (inl refl)
ItemType-cases other_item = inr (inr refl)

module _ (is_space : ℕ → Bool) (allow_error : Bool) (x : Context) (seen done : List Key) where
  on_item_added-Passes :
      (a : Adapter) (o : Open) (item : Option Item)
      → State seen done a o
      → in_order seen done (item_added item) ≡ true
      → Passes is_space allow_error o
          (on_item_added x a item)
          (State (seen_after seen (item_added item)) done)
  unfolding on_item_added
  on_item_added-Passes a o none v h = fed-Passes is_space allow_error (State seen done) o a v
  on_item_added-Passes a o (some item) v h =
      fed-Passes is_space allow_error (State (seen_after seen (item_added (some item))) done) o
        (added_item x a item)
        (unfold added_item in
          elim (ItemType-cases item.type) [
            | inl e ↦ rw e (elim (Bool-cases (is_text item.id)) [
              | inl f ↦ rw f (
                  State-add seen done a o v item.id
                    (new_tool a (call_id_of item) (x.decode item.name)) (ground (arith, rw e at h))
                    refl refl refl)
              | inr f ↦ rw f v
            ])
            | inr (inl e) ↦ rw e (
                if_cases (λ b. State seen done b o)
                  (is_text item.id && is_text item.encrypted_content)
                  (λ _. record { agrees = v.agrees; linked = v.linked; unfinished = v.unfinished })
                  (λ _. v))
            | inr (inr e) ↦ rw e v
          ])

  -- The tool of a done item is there, with the name of the item if it had none.
  named-State :
      (a : Adapter) (o : Open) (item : Item)
      → State seen done a o
      → let state = named x item (
          from_option
            (lookup item.id a.tools)
            (new_tool a (call_id_of item) (x.decode item.name))
            (λ s. s)) in
        State (item.id ∷ seen) done (set_tool a item.id state) o
  named-State a o item v = elim (Option-cases (lookup item.id a.tools)) [
    | inl e ↦ rw e (
        State-add seen done a o v item.id _ (ground (arith, v.linked.known item.id))
          (ground (arith)) (ground (arith)) (ground (arith)))
    | inr (s, e) ↦ rw e (
        State-again seen done _ o
          (State-set seen done a o v item.id s _ e (ground (arith)) (ground (arith))
            (ground (arith)))
          item.id (ground (arith, lookup-insert item.id item.id (named x item s) a.tools)))
  ]

  on_item_done-Passes :
      (a : Adapter) (o : Open) (item : Option Item)
      → State seen done a o
      → in_order seen done (item_done item) ≡ true
      → Passes is_space allow_error o
          (on_item_done x a item)
          (State (seen_after seen (item_done item)) (done_after done (item_done item)))
  unfolding on_item_done on_tool_done
  on_item_done-Passes a o none v h = fed-Passes is_space allow_error (State seen done) o a v
  on_item_done-Passes a o (some item) v h = elim (ItemType-cases item.type) [
    | inl e ↦ rw e (
        let state = named x item (
          from_option (lookup item.id a.tools) (new_tool a (call_id_of item) (x.decode item.name))
            (λ s. s)) in
        finish_tool-Passes is_space allow_error (item.id ∷ seen) done (set_tool a item.id state) o
          item state (named-State a o item v) (ground (arith, rw e at h))
          (ground (arith, lookup-insert item.id item.id state a.tools)))
    | inr (inl e) ↦ rw e (on_reasoning_done-Passes is_space allow_error seen done a o item v)
    | inr (inr e) ↦ rw e (fed-Passes is_space allow_error (State seen done) o a v)
  ]

  on_arguments_delta-Passes :
      (a : Adapter) (o : Open) (id : Key) (delta : Option Text)
      → State seen done a o
      → in_order seen done (arguments_delta id delta) ≡ true
      → Passes is_space allow_error o
          (on_arguments_delta a id delta)
          (State (seen_after seen (arguments_delta id delta)) done)
  unfolding on_arguments_delta
  on_arguments_delta-Passes a o id none v h =
      fed-Passes is_space allow_error (State seen done) o a v
  on_arguments_delta-Passes a o id (some delta) v h = elim (Bool-cases (is_text id)) [
    | inr f ↦ rw f (fed-Passes is_space allow_error (State seen done) o a v)
    | inl f ↦ rw f (elim (Option-cases (lookup id a.tools)) [
      | inl e ↦ rw e (
          let state = new_tool a id [] in
          tool_delta-Passes is_space allow_error (id ∷ seen) done (set_tool a id state) o id state
            delta
            (State-add seen done a o v id state (ground (arith, v.linked.known id)) refl refl refl)
            (ground (arith)) (ground (arith, lookup-insert id id state a.tools)))
      | inr (state, e) ↦ rw e (
          tool_delta-Passes is_space allow_error (id ∷ seen) done a o id state delta
            (State-again seen done a o v id (ground (arith))) (ground (arith)) e)
    ])
  ]

  on_text-Passes :
      (f : Adapter → Text → Fed) (a : Adapter) (o : Open) (delta : Option Text)
      → State seen done a o
      → ((d : Text) → Passes is_space allow_error o (f a d) (State seen done))
      → Passes is_space allow_error o (on_text f a delta) (State seen done)
  on_text-Passes f a o none v h = fed-Passes is_space allow_error (State seen done) o a v
  on_text-Passes f a o (some delta) v h =
      if_cases (λ r. Passes is_space allow_error o r (State seen done)) (is_empty delta)
        (λ _. fed-Passes is_space allow_error (State seen done) o a v) (λ _. h delta)

  pub feed_open-Passes :
      (a : Adapter) (o : Open) (e : ResponseEvent)
      → State seen done a o
      → in_order seen done e ≡ true
      → is_end e ≡ false
      → Passes is_space allow_error o
          (feed_open x a e)
          (State (seen_after seen e) (done_after done e))
  unfolding feed_open
  feed_open-Passes a o (item_added item) v h g = on_item_added-Passes a o item v h
  feed_open-Passes a o (item_done item) v h g = on_item_done-Passes a o item v h
  feed_open-Passes a o (reasoning_delta delta) v h g =
      on_text-Passes on_reasoning_delta a o delta v
        (λ d. on_reasoning_delta-Passes is_space allow_error seen done a o d v)
  feed_open-Passes a o (text_delta delta) v h g =
      on_text-Passes on_text_delta a o delta v
        (λ d. on_text_delta-Passes is_space allow_error seen done a o d v)
  feed_open-Passes a o (arguments_delta id delta) v h g = on_arguments_delta-Passes a o id delta v h
  feed_open-Passes a o (finish incomplete usage) v h g = absurd (ground (arith))
  feed_open-Passes a o (failure message) v h g = absurd (ground (arith))
  feed_open-Passes a o unknown v h g = fed-Passes is_space allow_error (State seen done) o a v
