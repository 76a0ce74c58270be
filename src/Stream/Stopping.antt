-- ===== src/Stream/Stopping.antt =====
-- A tool of the Responses adapter whose item is done: its block is closed.
use design.Common.{
  ℕ, ◌≡◌, refl, Bool, true, false, ◌||◌, Option, none, some, List, [], ◌∷◌, Key, ◌==◌,
  if◌then◌else◌, if_cases, lookup, insert, contains, lookup-insert, arith,
}
use design.Stream.Events.{Text, is_empty}
use design.Stream.Ledger.{
  Ledger, ToolBlockState, stop_tool_block, block_stop, close_content_blocks, emit_tool_delta,
}
use design.Stream.Responses.{
  Adapter, Fed, fed, and_fed, writes, may_write, generated, ToolState, Item, ensure_tool_started,
  all_arguments, stopped_tool, forget_tool, finish_tool,
}
use design.Stream.Contract.{Open}
use design.Stream.Tracks.{Tracks, Tracks-blocks, stopped_open}
use design.Stream.Active.{Runs, Active-stop_tool}
use design.Stream.Accepted.{Agrees}
use design.Stream.Writers.{all_live, stop_tool-Accepts}
use design.Stream.Linked.{Linked-stop}
use design.Stream.Passing.{
  State, Started, Passes, and_fed-Passes, writes-Passes, fed-Passes, close-Passes,
  ensure_tool_started-Passes, emit-Passes, running-cases,
}

-- `started = False` takes the closed block off the tools that run.
forget_tool-Agrees :
    (l m : Ledger) (o : Open) (i : Key) (t : ToolBlockState)
    → Agrees all_live l o
    → Runs all_live l.blocks i t
    → Tracks m (stopped_open o t.block_index)
    → m.blocks ≡ l.blocks
    → Agrees all_live (forget_tool m i) (stopped_open o t.block_index)
unfolding forget_tool
forget_tool-Agrees l m o i t v runs tracks same =
    let t' : ToolBlockState = record t { started = false } in
    let at : (j : Key)
        → lookup j (insert i t' l.blocks.tool_states)
          ≡ (if i == j then some t' else lookup j l.blocks.tool_states) =
      λ j. lookup-insert i j t' l.blocks.tool_states in
    rw (same, runs.0)
      (record {
        tracks =
            Tracks-blocks m _ (stopped_open o t.block_index) refl (ground (arith, same)) tracks;
        active =
            Active-stop_tool all_live l.blocks _ o v.active all_live i t runs
              (λ j s (p, q, r). ((ground (arith, at j, p), q, r), ground (arith, at j, p, q)))
              (λ j s (p, q, r) f. (ground (arith, at j, p, f), q, r)) refl refl refl refl;
      })

forget_tool-states :
    (l m : Ledger) (i : Key) (t : ToolBlockState)
    → lookup i l.blocks.tool_states ≡ some t
    → m.blocks ≡ l.blocks
    → (forget_tool m i).blocks.tool_states
      ≡ insert i (record t { started = false }) l.blocks.tool_states
unfolding forget_tool
forget_tool-states l m i t here same = rw (same, here) refl

module _ (is_space : ℕ → Bool) (allow_error : Bool) (seen done : List Key) where
  stop-Passes :
      (a : Adapter) (o : Open) (id : Key) (s : ToolState)
      → State seen done a o
      → contains id done ≡ false
      → lookup id a.tools ≡ some s
      → s.started ≡ true
      → Passes is_space allow_error o
          (and_fed
            (may_write a (stop_tool_block a.ledger s.tool_index))
            (λ e. fed (stopped_tool e id s) []))
          (State seen (id ∷ done))
  unfolding stop_tool_block
  stop-Passes a o id s v live here on =
      let l = a.ledger in
      let i = s.tool_index in
      let states = l.blocks.tool_states in
      let (t, e, on') = running-cases i states (v.linked.runs id s here live on) in
      let runs : Runs all_live l.blocks i t = (e, on', refl) in
      let stop : Ledger → Open → Type 0 =
        λ m p. Tracks m p × (m.blocks ≡ l.blocks) × (p ≡ stopped_open o t.block_index) in
      let ends : Adapter → Open → Type 0 =
        λ b p. stop b.ledger p × (b.tools ≡ a.tools) × (b.completed ≡ false) in
      rw e (
        and_fed-Passes is_space allow_error ends (State seen (id ∷ done)) o
          (writes a (block_stop l t.block_index)) (λ b. fed (stopped_tool b id s) [])
          (writes-Passes is_space allow_error stop ends o a (block_stop l t.block_index)
            (stop_tool-Accepts is_space allow_error all_live l o i t v.agrees runs)
            (λ m p w. (w, refl, v.unfinished)))
          (λ b p ((tracks, same, closed), tools, open_).
            rw (closed, tools, here)
              (fed-Passes is_space allow_error (State seen (id ∷ done))
                (stopped_open o t.block_index) _
                (record {
                  agrees =
                      forget_tool-Agrees l b.ledger o i t v.agrees runs (rw closed at tracks) same;
                  linked = rw (forget_tool-states l b.ledger i t e same) (
                      Linked-stop seen done a.tools states v.linked id s
                        (record s { stopped = true }) (record t { started = false }) here refl on
                        (ground (arith, e)));
                  unfinished = open_;
                }))))

  -- Arguments that came with the item, when no delta did.
  all_arguments-Passes :
      (a : Adapter) (o : Open) (id : Key) (state s : ToolState) (arguments : Option Text)
      → State seen done a o
      → contains id done ≡ false
      → lookup id a.tools ≡ some s
      → s.started ≡ true
      → s.tool_index ≡ state.tool_index
      → Passes is_space allow_error o
          (all_arguments a state arguments)
          (λ b p. State seen done b p × (b.tools ≡ a.tools))
  all_arguments-Passes a o id state s none v live here on index =
      fed-Passes is_space allow_error (λ b p. State seen done b p × (b.tools ≡ a.tools)) o a
        (v, refl)
  all_arguments-Passes a o id state s (some arguments) v live here on index =
      let ends : Adapter → Open → Type 0 = λ b p. State seen done b p × (b.tools ≡ a.tools) in
      if_cases (λ r. Passes is_space allow_error o r ends)
        (state.received_delta || is_empty arguments)
        (λ _. fed-Passes is_space allow_error ends o a (v, refl))
        (λ _.
          and_fed-Passes is_space allow_error ends ends o
            (may_write a (emit_tool_delta a.ledger state.tool_index arguments)) generated
            (rw (← index)
              (emit-Passes is_space allow_error seen done a o id s arguments v live here on))
            (λ b p (w, same).
              fed-Passes is_space allow_error ends p (record b { generated_output = true })
                (record { agrees = w.agrees; linked = w.linked; unfinished = w.unfinished }, same)))

  pub finish_tool-Passes :
      (a : Adapter) (o : Open) (item : Item) (state : ToolState)
      → State seen done a o
      → contains item.id done ≡ false
      → lookup item.id a.tools ≡ some state
      → Passes is_space allow_error o (finish_tool a item state) (State seen (item.id ∷ done))
  unfolding finish_tool
  finish_tool-Passes a o item state v live here =
      let id = item.id in
      let kept : Adapter → Adapter → Open → Type 0 =
        λ c b p. State seen done b p × (b.tools ≡ c.tools) in
      let ends = State seen (id ∷ done) in
      let stop : Adapter → Fed = λ d.
        if state.stopped
        then fed d []
        else and_fed (may_write d (stop_tool_block d.ledger state.tool_index))
            (λ e. fed (stopped_tool e id state) []) in
      and_fed-Passes is_space allow_error (kept a) ends o (writes a (close_content_blocks a.ledger))
        (λ b.
          and_fed (ensure_tool_started b id state)
            (λ c. and_fed (all_arguments c state item.arguments) stop))
        (close-Passes is_space allow_error seen done a o v)
        (λ b p (w, tools).
          and_fed-Passes is_space allow_error (λ c q. State seen done c q × Started id state c) ends
            p (ensure_tool_started b id state)
            (λ c. and_fed (all_arguments c state item.arguments) stop)
            (ensure_tool_started-Passes is_space allow_error seen done b p id state w
              (rw tools here))
            (λ c q (x, (s, at, index, on, _)).
              and_fed-Passes is_space allow_error (kept c) ends q
                (all_arguments c state item.arguments) stop
                (all_arguments-Passes c q id state s item.arguments x live at on index)
                (λ d u (y, same).
                  rw (v.linked.unstopped id state here live, ← index)
                    (stop-Passes d u id s y live (rw same at) on))))
