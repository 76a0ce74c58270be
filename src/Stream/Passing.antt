-- ===== src/Stream/Passing.antt =====
-- The Responses adapter's tool operations pass the checker of the stream contract.
use design.Common.{
  ℕ, ◌≡◌, refl, ◌∙◌, Bool, true, false, none, some, List, [], Key, if◌then◌else◌, if_cases, lookup,
  insert, contains, lookup-insert, Option-cases, inl, inr, arith,
}
use design.Stream.Events.{Text, Event, tool_use, input_json_delta, is_empty}
use design.Stream.Ledger.{
  Ledger, Written, ToolBlockState, new_tool_state, emit_tool_delta, block_delta,
  close_content_blocks, start_tool_block,
}
use design.Stream.Responses.{
  Adapter, Fed, fed, key_error, stream_failure, and_fed, writes, may_write, generated, ToolState,
  set_tool, receive, ensure_tool_started, tool_delta,
}
use design.Stream.Contract.{Open, fine, check_events}
use design.Stream.Accepted.{Agrees, Accepts, check_events-append, block_delta-Accepts}
use design.Stream.Writers.{
  Same, Closed, all_live, close_content_blocks-Accepts, start_tool_block-Accepts,
}
use design.Stream.Linked.{Linked, States, running, Linked-set, Linked-start}

-- The adapter, its ledger and the checker agree, and no `finish` has come.
pub record State (seen done : List Key) (a : Adapter) (o : Open) : Type 0 where
  pub agrees : Agrees all_live a.ledger o
  pub linked : Linked seen done a.tools a.ledger.blocks.tool_states
  pub unfinished : a.completed ≡ false

-- The adapter has this tool, whose block is open.
abbrev pub Started : Key → ToolState → Adapter → Type 0
Started id state a =
    (s : ToolState) × (lookup id a.tools ≡ some s)
    × (s.tool_index ≡ state.tool_index)
    × (s.started ≡ true)
    × (s.received_delta ≡ state.received_delta)

pub running-cases :
    (i : Key) (states : States)
    → running i states ≡ true
    → (t : ToolBlockState) × (lookup i states ≡ some t) × (t.started ≡ true)
running-cases i states h = elim (Option-cases (lookup i states)) [
  | inl e ↦ absurd (ground (arith))
  | inr (t, e) ↦ (t, e, ground (arith))
]

module _ (is_space : ℕ → Bool) (allow_error : Bool) where
  abbrev pub Passes : Open → Fed → (Adapter → Open → Type 0) → Type 0
  Passes o (fed a es) P = (p : Open) × (check_events is_space allow_error o es ≡ fine p) × P a p
  Passes o key_error P = ⊥
  Passes o (stream_failure message written) P = ⊥

  prepend-Passes :
      (P : Adapter → Open → Type 0) (o p : Open) (a : Adapter) (es : List Event) (r : Fed)
      → check_events is_space allow_error o es ≡ fine p
      → Passes p r P
      → Passes o (and_fed (fed a es) (λ _. r)) P
  prepend-Passes P o p a es (fed b fs) h (q, g, v) =
      (q, check_events-append is_space allow_error o p es fs h ∙ g, v)
  prepend-Passes P o p a es key_error h v = absurd v
  prepend-Passes P o p a es (stream_failure message written) h v = absurd v

  pub and_fed-Passes :
      (P Q : Adapter → Open → Type 0) (o : Open) (r : Fed) (f : Adapter → Fed)
      → Passes o r P
      → ((a : Adapter) (p : Open) → P a p → Passes p (f a) Q)
      → Passes o (and_fed r f) Q
  and_fed-Passes P Q o (fed a es) f (p, h, v) g = prepend-Passes Q o p a es (f a) h (g a p v)
  and_fed-Passes P Q o key_error f v g = absurd v
  and_fed-Passes P Q o (stream_failure message written) f v g = absurd v

  pub writes-Passes :
      (P : Ledger → Open → Type 0) (Q : Adapter → Open → Type 0) (o : Open) (a : Adapter)
      (w : Written)
      → Accepts is_space allow_error o w P
      → ((l : Ledger) (p : Open) → P l p → Q (record a { ledger = l }) p)
      → Passes o (writes a w) Q
  writes-Passes P Q o a (l, es) (p, h, v) f = (p, h, f l p v)

  pub fed-Passes :
      (P : Adapter → Open → Type 0) (o : Open) (a : Adapter) → P a o → Passes o (fed a []) P
  unfolding check_events
  fed-Passes P o a h = (o, refl, h)

module _ (is_space : ℕ → Bool) (allow_error : Bool) (seen done : List Key) where
  -- `close_content_blocks` under the adapter keeps the tools.
  pub close-Passes :
      (a : Adapter) (o : Open)
      → State seen done a o
      → Passes is_space allow_error o
          (writes a (close_content_blocks a.ledger))
          (λ b p. State seen done b p × (b.tools ≡ a.tools))
  close-Passes a o v =
      writes-Passes is_space allow_error (λ m p. Same all_live a.ledger m p × Closed m)
        (λ b p. State seen done b p × (b.tools ≡ a.tools)) o a (close_content_blocks a.ledger)
        (close_content_blocks-Accepts is_space allow_error all_live a.ledger o v.agrees)
        (λ l p ((w, tools), _).
          (record { agrees = w; linked = rw tools v.linked; unfinished = v.unfinished }, refl))

  pub ensure_tool_started-Passes :
      (a : Adapter) (o : Open) (id : Key) (state : ToolState)
      → State seen done a o
      → lookup id a.tools ≡ some state
      → Passes is_space allow_error o
          (ensure_tool_started a id state)
          (λ b p. State seen done b p × Started id state b)
  unfolding ensure_tool_started
  ensure_tool_started-Passes a o id state v here =
      let ends : Adapter → Open → Type 0 = λ b p. State seen done b p × Started id state b in
      let s' : ToolState = record state { started = true } in
      let i = state.tool_index in
      if_cases (λ r. Passes is_space allow_error o r ends) state.started
        (λ on. fed-Passes is_space allow_error ends o a (v, (state, here, refl, on, refl)))
        (λ off.
          let b = record (set_tool a id s') { generated_output = true } in
          and_fed-Passes is_space allow_error (λ c p. (c ≡ b) × (p ≡ o)) ends o
            (generated (set_tool a id s'))
            (λ c. writes c (start_tool_block c.ledger i state.call_id state.name none))
            (fed-Passes is_space allow_error (λ c p. (c ≡ b) × (p ≡ o)) o b (refl, refl))
            (λ c p (e, f).
              rw (e, f)
                (writes-Passes is_space allow_error
                  (λ m p.
                    Agrees all_live m p
                    × (m.blocks.tool_states
                        ≡ insert i
                            (new_tool_state a.ledger.blocks.next_index state.call_id state.name none
                              none)
                            a.ledger.blocks.tool_states))
                  ends o b (start_tool_block a.ledger i state.call_id state.name none)
                  (start_tool_block-Accepts is_space allow_error all_live a.ledger o i state.call_id
                    state.name none v.agrees (v.linked.idle id state here off) refl)
                  (λ l p (w, tools). (
                    record {
                      agrees = w;
                      linked = rw tools (
                          Linked-start seen done a.tools a.ledger.blocks.tool_states v.linked id
                            state s'
                            (new_tool_state a.ledger.blocks.next_index state.call_id state.name none
                              none)
                            here refl refl refl refl);
                      unfinished = v.unfinished;
                    },
                    (s', ground (arith, lookup-insert id id s' a.tools), refl, refl, refl),
                  )))))

  -- Arguments go to the open block of their tool.
  pub emit-Passes :
      (a : Adapter) (o : Open) (id : Key) (s : ToolState) (delta : Text)
      → State seen done a o
      → contains id done ≡ false
      → lookup id a.tools ≡ some s
      → s.started ≡ true
      → Passes is_space allow_error o
          (may_write a (emit_tool_delta a.ledger s.tool_index delta))
          (λ b p. State seen done b p × (b.tools ≡ a.tools))
  unfolding emit_tool_delta
  emit-Passes a o id s delta v live here on =
      let l = a.ledger in
      let (t, e, runs) =
        running-cases s.tool_index l.blocks.tool_states (v.linked.runs id s here live on) in
      rw e (
        writes-Passes is_space allow_error (λ m p. Agrees all_live m p × (m.blocks ≡ l.blocks))
          (λ b p. State seen done b p × (b.tools ≡ a.tools)) o a
          (block_delta l t.block_index input_json_delta delta)
          (block_delta-Accepts is_space allow_error all_live l o t.block_index tool_use
            input_json_delta delta v.agrees
            (v.agrees.active.tools_open s.tool_index t (e, runs, refl)) refl)
          (λ m p (w, same).
            (record { agrees = w; linked = rw same v.linked; unfinished = v.unfinished }, refl)))

  receive-Passes :
      (a : Adapter) (o : Open) (id : Key) (s : ToolState)
      → State seen done a o
      → lookup id a.tools ≡ some s
      → Passes is_space allow_error o (receive a id) (State seen done)
  receive-Passes a o id s v here = rw here (
      fed-Passes is_space allow_error (State seen done) o
        (record (set_tool a id (record s { received_delta = true })) { generated_output = true })
        (record {
          agrees = v.agrees;
          linked =
              Linked-set seen done a.tools a.ledger.blocks.tool_states v.linked id s _ here refl
                refl refl;
          unfinished = v.unfinished;
        }))

  pub tool_delta-Passes :
      (a : Adapter) (o : Open) (id : Key) (state : ToolState) (delta : Text)
      → State seen done a o
      → contains id done ≡ false
      → lookup id a.tools ≡ some state
      → Passes is_space allow_error o (tool_delta a id state delta) (State seen done)
  unfolding tool_delta
  tool_delta-Passes a o id state delta v live here =
      let rest : Adapter → Fed = λ c.
        if is_empty delta
        then fed c []
        else and_fed (may_write c (emit_tool_delta c.ledger state.tool_index delta))
            (λ d. receive d id) in
      and_fed-Passes is_space allow_error (λ b p. State seen done b p × (b.tools ≡ a.tools))
        (State seen done) o (writes a (close_content_blocks a.ledger))
        (λ b. and_fed (ensure_tool_started b id state) rest) (close-Passes a o v)
        (λ b p (w, tools).
          and_fed-Passes is_space allow_error (λ c p. State seen done c p × Started id state c)
            (State seen done) p (ensure_tool_started b id state) rest
            (ensure_tool_started-Passes b p id state w (rw tools here))
            (λ c q (x, (s, at, index, on, _)).
              if_cases (λ r. Passes is_space allow_error q r (State seen done)) (is_empty delta)
                (λ _. fed-Passes is_space allow_error (State seen done) q c x)
                (λ _.
                  and_fed-Passes is_space allow_error
                    (λ d p. State seen done d p × (d.tools ≡ c.tools)) (State seen done) q
                    (may_write c (emit_tool_delta c.ledger state.tool_index delta))
                    (λ d. receive d id) (rw (← index) (emit-Passes c q id s delta x live at on))
                    (λ d u (y, same). receive-Passes d u id s y (rw same at)))))
