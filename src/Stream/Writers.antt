-- ===== src/Stream/Writers.antt =====
-- The ledger's compound operations pass the checker of the stream contract.
use design.Common.{
  ℕ, suc, ◌≡◌, refl, ◌∙◌, Bool, true, false, Option, none, [], Key, if◌then◌else◌, if_cases, lookup,
  insert, arith,
}
use design.Stream.Events.{Text, text, thinking, tool_use, text_delta, thinking_delta}
use design.Stream.Ledger.{
  ToolBlockState, Ledger, record_block_start, block_start, block_stop, tool_block, new_tool_state,
  stop_text_block, start_text_block, start_thinking_block, start_tool_block, ensure_text_block,
  ensure_thinking_block, close_content_blocks, emit_text_delta, emit_thinking_delta,
}
use design.Stream.Contract.{Open}
use design.Stream.Tracks.{
  Tracks, started_open, stopped_open, Tracks-start, Tracks-stop, Tracks-closed,
}
use design.Stream.Active.{Runs, Active-start_tool}
use design.Stream.Accepted.{
  Agrees, Accepts, and_then-Accepts, nothing-Accepts, block_delta-Accepts, block_start-passes,
  block_stop-passes, record_block_stop-blocks, start_text_block-Accepts,
  start_thinking_block-Accepts, stop_text_block-Accepts, stop_thinking_block-Accepts,
}

-- The ledger agrees with the checker, and the tools are as they were.
abbrev pub Same : (live : Key → Bool) → Ledger → Ledger → Open → Type 0
Same live l m p = Agrees live m p × (m.blocks.tool_states ≡ l.blocks.tool_states)

-- Neither a text nor a thinking block is started.
abbrev pub Closed : Ledger → Type 0
Closed m = (m.blocks.text_started ≡ false) × (m.blocks.thinking_started ≡ false)

module _ (is_space : ℕ → Bool) (allow_error : Bool) (live : Key → Bool) where
  pub ensure_text_block-Accepts :
      (l : Ledger) (o : Open)
      → Agrees live l o
      → Accepts is_space allow_error o
          (ensure_text_block l)
          (λ m p. Same live l m p × (m.blocks.text_started ≡ true))
  unfolding ensure_text_block
  ensure_text_block-Accepts l o v =
      let ends : Ledger → Open → Type 0 = λ m p. Same live l m p × (m.blocks.text_started ≡ true) in
      and_then-Accepts is_space allow_error (Same live l) ends o _
        (λ m. if m.blocks.text_started then (m, []) else start_text_block m)
        (if_cases (λ w. Accepts is_space allow_error o w (Same live l)) l.blocks.thinking_started
          (λ on.
            let (p, e, (w, _, _, tools)) =
              stop_thinking_block-Accepts is_space allow_error live l o v on in
            (p, e, (w, tools)))
          (λ _. nothing-Accepts is_space allow_error (Same live l) l o (v, refl)))
        (λ m p (w, tools).
          if_cases (λ x. Accepts is_space allow_error p x ends) m.blocks.text_started
            (λ on. nothing-Accepts is_space allow_error ends m p ((w, tools), on))
            (λ off.
              let (q, e, (x, on, tools')) =
                start_text_block-Accepts is_space allow_error live m p w off in
              (q, e, ((x, tools' ∙ tools), on))))

  pub ensure_thinking_block-Accepts :
      (l : Ledger) (o : Open)
      → Agrees live l o
      → Accepts is_space allow_error o
          (ensure_thinking_block l)
          (λ m p. Same live l m p × (m.blocks.thinking_started ≡ true))
  unfolding ensure_thinking_block
  ensure_thinking_block-Accepts l o v =
      let ends : Ledger → Open → Type 0 =
        λ m p. Same live l m p × (m.blocks.thinking_started ≡ true) in
      and_then-Accepts is_space allow_error (Same live l) ends o _
        (λ m. if m.blocks.thinking_started then (m, []) else start_thinking_block m)
        (if_cases (λ w. Accepts is_space allow_error o w (Same live l)) l.blocks.text_started
          (λ on.
            let (p, e, (w, _, _, tools)) =
              stop_text_block-Accepts is_space allow_error live l o v on in
            (p, e, (w, tools)))
          (λ _. nothing-Accepts is_space allow_error (Same live l) l o (v, refl)))
        (λ m p (w, tools).
          if_cases (λ x. Accepts is_space allow_error p x ends) m.blocks.thinking_started
            (λ on. nothing-Accepts is_space allow_error ends m p ((w, tools), on))
            (λ off.
              let (q, e, (x, on, tools')) =
                start_thinking_block-Accepts is_space allow_error live m p w off in
              (q, e, ((x, tools' ∙ tools), on))))

  pub close_content_blocks-Accepts :
      (l : Ledger) (o : Open)
      → Agrees live l o
      → Accepts is_space allow_error o (close_content_blocks l) (λ m p. Same live l m p × Closed m)
  unfolding close_content_blocks
  close_content_blocks-Accepts l o v =
      let first : Ledger → Open → Type 0 =
        λ m p. Same live l m p × (m.blocks.thinking_started ≡ false) in
      let ends : Ledger → Open → Type 0 = λ m p. Same live l m p × Closed m in
      and_then-Accepts is_space allow_error first ends o _
        (λ m. if m.blocks.text_started then stop_text_block m else (m, []))
        (if_cases (λ w. Accepts is_space allow_error o w first) l.blocks.thinking_started
          (λ on.
            let (p, e, (w, off, _, tools)) =
              stop_thinking_block-Accepts is_space allow_error live l o v on in
            (p, e, ((w, tools), off)))
          (λ off. nothing-Accepts is_space allow_error first l o ((v, refl), off)))
        (λ m p ((w, tools), still).
          if_cases (λ x. Accepts is_space allow_error p x ends) m.blocks.text_started
            (λ on.
              let (q, e, (x, off, kept, tools')) =
                stop_text_block-Accepts is_space allow_error live m p w on in
              (q, e, ((x, tools' ∙ tools), (off, kept ∙ still))))
            (λ off. nothing-Accepts is_space allow_error ends m p ((w, tools), (off, still))))

  pub emit_text_delta-Accepts :
      (l : Ledger) (o : Open) (content : Text)
      → Agrees live l o
      → l.blocks.text_started ≡ true
      → Accepts is_space allow_error o
          (emit_text_delta l content)
          (λ m p. Same live l m p × (m.blocks ≡ l.blocks))
  emit_text_delta-Accepts l o content v on =
      let (p, e, (w, same)) =
        block_delta-Accepts is_space allow_error live l o l.blocks.text_index text text_delta
          content v (v.active.text_open on) refl in
      (p, e, ((w, rw same), same))

  pub emit_thinking_delta-Accepts :
      (l : Ledger) (o : Open) (content : Text)
      → Agrees live l o
      → l.blocks.thinking_started ≡ true
      → Accepts is_space allow_error o
          (emit_thinking_delta l content)
          (λ m p. Same live l m p × (m.blocks ≡ l.blocks))
  emit_thinking_delta-Accepts l o content v on =
      let (p, e, (w, same)) =
        block_delta-Accepts is_space allow_error live l o l.blocks.thinking_index thinking
          thinking_delta content v (v.active.thinking_open on) refl in
      (p, e, ((w, rw same), same))

  pub start_tool_block-Accepts :
      (l : Ledger) (o : Open) (i tool_id : Key) (name : Text) (extra : Option Key)
      → Agrees live l o
      → lookup i l.blocks.tool_states ≡ none
      → live i ≡ true
      → Accepts is_space allow_error o (start_tool_block l i tool_id name extra) (λ m p.
        Agrees live m p
        × (m.blocks.tool_states
            ≡ insert i
                (new_tool_state l.blocks.next_index tool_id name extra none)
                l.blocks.tool_states))
  unfolding start_tool_block block_start record_block_start
  start_tool_block-Accepts l o i tool_id name extra v absent counts =
      let k = l.blocks.next_index in
      let state = new_tool_state k tool_id name extra none in
      let b = record l.blocks {
        next_index = suc k;
        tool_states = insert i state l.blocks.tool_states;
      } in
      let block = tool_block tool_id name extra in
      rw absent (
        started_open o k tool_use,
        block_start-passes is_space allow_error l o b block v.tracks refl refl,
        (
          record {
            tracks = Tracks-start l o b block v.tracks;
            active =
                Active-start_tool live l.blocks _ o v.active k i state absent
                  (Tracks-closed l o v.tracks) refl refl counts refl refl refl refl refl;
          },
          refl,
        ),
      )

  -- A tool's block is stopped, and then the tool is taken off those that count.
  pub stop_tool-Accepts :
      (l : Ledger) (o : Open) (i : Key) (state : ToolBlockState)
      → Agrees live l o
      → Runs live l.blocks i state
      → Accepts is_space allow_error o
          (block_stop l state.block_index)
          (λ m p. Tracks m p × (m.blocks ≡ l.blocks) × (p ≡ stopped_open o state.block_index))
  unfolding block_stop
  stop_tool-Accepts l o i state v runs =
      let k = state.block_index in
      let here = v.active.tools_open i state runs in
      (
        stopped_open o k,
        block_stop-passes is_space allow_error l o k (ground (arith, here)),
        (Tracks-stop l o k v.tracks, record_block_stop-blocks l o k tool_use v.tracks here, refl),
      )

abbrev pub none_live : Key → Bool
none_live i = false

abbrev pub all_live : Key → Bool
all_live i = true
