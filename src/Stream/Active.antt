-- ===== src/Stream/Active.antt =====
-- The blocks that the ledger writes to are open, and no others are.
use design.Common.{
  ℕ, ◌≡◌, ◌≢◌, Bool, true, false, none, some, is_some, Key, ◌==◌, lookup, insert, lookup-insert,
  lookup-remove, Bool-cases, inl, inr, arith,
}
use design.Stream.Events.{text, thinking, tool_use}
use design.Stream.Ledger.{Blocks, ToolBlockState}
use design.Stream.Contract.{Open, plain}
use design.Stream.Tracks.{started_open, stopped_open}

-- A tool that has started and that the predicate counts.
abbrev pub Runs : (live : Key → Bool) → Blocks → Key → ToolBlockState → Type 0
Runs live b i s = (lookup i b.tool_states ≡ some s) × (s.started ≡ true) × (live i ≡ true)

pub data Owner (live : Key → Bool) (b : Blocks) (k : ℕ) : Type 0 where
  text_block : b.text_started ≡ true → b.text_index ≡ k → Owner live b k
  thinking_block : b.thinking_started ≡ true → b.thinking_index ≡ k → Owner live b k
  tool : (i : Key) (s : ToolBlockState) → Runs live b i s → s.block_index ≡ k → Owner live b k

pub record Active (live : Key → Bool) (b : Blocks) (o : Open) : Type 0 where
  pub text_open : b.text_started ≡ true → lookup b.text_index o.open_blocks ≡ some (plain text)
  pub thinking_open :
      b.thinking_started ≡ true → lookup b.thinking_index o.open_blocks ≡ some (plain thinking)
  pub tools_open :
      (i : Key) (s : ToolBlockState)
      → Runs live b i s
      → lookup s.block_index o.open_blocks ≡ some (plain tool_use)
  pub distinct :
      (i j : Key) (s t : ToolBlockState)
      → Runs live b i s
      → Runs live b j t
      → s.block_index ≡ t.block_index
      → i ≡ j
  pub covered : (k : ℕ) → is_some (lookup k o.open_blocks) ≡ true → Owner live b k

module _ (live : Key → Bool) (b b' : Blocks) (o : Open) (v : Active live b o) where
  pub Active-stop_thinking :
      b.thinking_started ≡ true
      → b'.thinking_started ≡ false
      → b'.text_started ≡ b.text_started
      → b'.text_index ≡ b.text_index
      → b'.tool_states ≡ b.tool_states
      → Active live b' (stopped_open o b.thinking_index)
  Active-stop_thinking was now same index tools = record {
    text_open = λ h. ground (
      arith,
      v.text_open,
      v.thinking_open,
      lookup-remove b.thinking_index b.text_index o.open_blocks,
    );
    thinking_open = λ h. absurd (ground (arith));
    tools_open = λ i s (p, q, r). ground (
      arith,
      v.tools_open i s (rw tools at p, q, r),
      v.thinking_open,
      lookup-remove b.thinking_index s.block_index o.open_blocks,
    );
    distinct = λ i j s t (p, q, r) (p', q', r') e.
        v.distinct i j s t (rw tools at p, q, r) (rw tools at p', q', r') e;
    covered = λ k h.
        let before : is_some (lookup k o.open_blocks) ≡ true =
          ground (arith, lookup-remove b.thinking_index k o.open_blocks) in
        elim (v.covered k before) [
          | text_block p q ↦ text_block (ground (arith)) (ground (arith))
          | thinking_block p q ↦
              absurd (ground (arith, lookup-remove b.thinking_index k o.open_blocks))
          | tool i s (p, q, r) e ↦ tool i s (rw (← tools) at p, q, r) e
        ];
  }

  pub Active-stop_text :
      b.text_started ≡ true
      → b'.text_started ≡ false
      → b'.thinking_started ≡ b.thinking_started
      → b'.thinking_index ≡ b.thinking_index
      → b'.tool_states ≡ b.tool_states
      → Active live b' (stopped_open o b.text_index)
  Active-stop_text was now same index tools = record {
    text_open = λ h. absurd (ground (arith));
    thinking_open = λ h. ground (
      arith,
      v.text_open,
      v.thinking_open,
      lookup-remove b.text_index b.thinking_index o.open_blocks,
    );
    tools_open = λ i s (p, q, r). ground (
      arith,
      v.tools_open i s (rw tools at p, q, r),
      v.text_open,
      lookup-remove b.text_index s.block_index o.open_blocks,
    );
    distinct = λ i j s t (p, q, r) (p', q', r') e.
        v.distinct i j s t (rw tools at p, q, r) (rw tools at p', q', r') e;
    covered = λ k h.
        let before : is_some (lookup k o.open_blocks) ≡ true =
          ground (arith, lookup-remove b.text_index k o.open_blocks) in
        elim (v.covered k before) [
          | thinking_block p q ↦ thinking_block (ground (arith)) (ground (arith))
          | text_block p q ↦ absurd (ground (arith, lookup-remove b.text_index k o.open_blocks))
          | tool i s (p, q, r) e ↦ tool i s (rw (← tools) at p, q, r) e
        ];
  }

  pub Active-start_text :
      (k : ℕ)
      → b.text_started ≡ false
      → lookup k o.open_blocks ≡ none
      → b'.text_started ≡ true
      → b'.text_index ≡ k
      → b'.thinking_started ≡ b.thinking_started
      → b'.thinking_index ≡ b.thinking_index
      → b'.tool_states ≡ b.tool_states
      → Active live b' (started_open o k text)
  Active-start_text k was new now here same index tools = record {
    text_open = λ h. ground (arith, lookup-insert k b'.text_index (plain text) o.open_blocks);
    thinking_open = λ h.
        ground
          (arith, v.thinking_open, lookup-insert k b'.thinking_index (plain text) o.open_blocks);
    tools_open = λ i s (p, q, r). ground (
      arith,
      v.tools_open i s (rw tools at p, q, r),
      lookup-insert k s.block_index (plain text) o.open_blocks,
    );
    distinct = λ i j s t (p, q, r) (p', q', r') e.
        v.distinct i j s t (rw tools at p, q, r) (rw tools at p', q', r') e;
    covered = λ j h. elim (Bool-cases (k == j)) [
      | inl e ↦ text_block now (ground (arith))
      | inr e ↦ elim (v.covered j (ground (arith, lookup-insert k j (plain text) o.open_blocks))) [
        | text_block p q ↦ absurd (ground (arith))
        | thinking_block p q ↦ thinking_block (ground (arith)) (ground (arith))
        | tool i s (p, q, r) f ↦ tool i s (rw (← tools) at p, q, r) f
      ]
    ];
  }

  pub Active-start_thinking :
      (k : ℕ)
      → b.thinking_started ≡ false
      → lookup k o.open_blocks ≡ none
      → b'.thinking_started ≡ true
      → b'.thinking_index ≡ k
      → b'.text_started ≡ b.text_started
      → b'.text_index ≡ b.text_index
      → b'.tool_states ≡ b.tool_states
      → Active live b' (started_open o k thinking)
  Active-start_thinking k was new now here same index tools = record {
    thinking_open =
        λ h. ground (arith, lookup-insert k b'.thinking_index (plain thinking) o.open_blocks);
    text_open = λ h.
        ground (arith, v.text_open, lookup-insert k b'.text_index (plain thinking) o.open_blocks);
    tools_open = λ i s (p, q, r). ground (
      arith,
      v.tools_open i s (rw tools at p, q, r),
      lookup-insert k s.block_index (plain thinking) o.open_blocks,
    );
    distinct = λ i j s t (p, q, r) (p', q', r') e.
        v.distinct i j s t (rw tools at p, q, r) (rw tools at p', q', r') e;
    covered = λ j h. elim (Bool-cases (k == j)) [
      | inl e ↦ thinking_block now (ground (arith))
      | inr e ↦
          elim (v.covered j (ground (arith, lookup-insert k j (plain thinking) o.open_blocks))) [
            | thinking_block p q ↦ absurd (ground (arith))
            | text_block p q ↦ text_block (ground (arith)) (ground (arith))
            | tool i s (p, q, r) f ↦ tool i s (rw (← tools) at p, q, r) f
          ]
    ];
  }

  -- A tool that has no state yet starts.
  pub Active-start_tool :
      (k : ℕ) (i : Key) (new : ToolBlockState)
      → lookup i b.tool_states ≡ none
      → lookup k o.open_blocks ≡ none
      → new.block_index ≡ k
      → new.started ≡ true
      → live i ≡ true
      → b'.text_started ≡ b.text_started
      → b'.text_index ≡ b.text_index
      → b'.thinking_started ≡ b.thinking_started
      → b'.thinking_index ≡ b.thinking_index
      → b'.tool_states ≡ insert i new b.tool_states
      → Active live b' (started_open o k tool_use)
  Active-start_tool k i new absent closed at on counts same index same' index' tools = record {
    thinking_open = λ h.
        ground (
          arith,
          v.thinking_open,
          lookup-insert k b'.thinking_index (plain tool_use) o.open_blocks,
        );
    text_open = λ h.
        ground (arith, v.text_open, lookup-insert k b'.text_index (plain tool_use) o.open_blocks);
    tools_open = λ j s (p, q, r). ground (
      arith,
      rw tools at p,
      lookup-insert i j new b.tool_states,
      v.tools_open j s,
      q,
      r,
      lookup-insert k s.block_index (plain tool_use) o.open_blocks,
    );
    distinct = λ j h s t (p, q, r) (p', q', r') e. ground (
      arith,
      rw tools at p,
      rw tools at p',
      lookup-insert i j new b.tool_states,
      lookup-insert i h new b.tool_states,
      v.tools_open j s,
      v.tools_open h t,
      v.distinct j h s t,
      q,
      r,
      q',
      r',
    );
    covered = λ j h. elim (Bool-cases (k == j)) [
      | inl e ↦
          tool i new (ground (arith, tools, lookup-insert i i new b.tool_states), on, counts)
            (ground (arith))
      | inr e ↦
          elim (v.covered j (ground (arith, lookup-insert k j (plain tool_use) o.open_blocks))) [
            | thinking_block p q ↦ thinking_block (ground (arith)) (ground (arith))
            | text_block p q ↦ text_block (ground (arith)) (ground (arith))
            | tool g s (p, q, r) f ↦
                tool g s (ground (arith, tools, p, lookup-insert i g new b.tool_states), q, r) f
          ]
    ];
  }

  -- A tool's block is stopped, and the tool counts no more.
  pub Active-stop_tool :
      (live' : Key → Bool) (i : Key) (state : ToolBlockState)
      → Runs live b i state
      → ((j : Key) (s : ToolBlockState) → Runs live' b' j s → Runs live b j s × (j ≢ i))
      → ((j : Key) (s : ToolBlockState) → Runs live b j s → j ≢ i → Runs live' b' j s)
      → b'.text_started ≡ b.text_started
      → b'.text_index ≡ b.text_index
      → b'.thinking_started ≡ b.thinking_started
      → b'.thinking_index ≡ b.thinking_index
      → Active live' b' (stopped_open o state.block_index)
  Active-stop_tool live' i state runs back forth same index same' index' = record {
    thinking_open = λ h. ground (
      arith,
      v.thinking_open,
      v.tools_open i state runs,
      lookup-remove state.block_index b'.thinking_index o.open_blocks,
    );
    text_open = λ h. ground (
      arith,
      v.text_open,
      v.tools_open i state runs,
      lookup-remove state.block_index b'.text_index o.open_blocks,
    );
    tools_open = λ j s r.
        let (before, other) = back j s r in
        ground (
          arith,
          other,
          v.tools_open j s before,
          v.distinct j i s state before runs,
          lookup-remove state.block_index s.block_index o.open_blocks,
        );
    distinct = λ j h s t r r' e. v.distinct j h s t (back j s r).0 (back h t r').0 e;
    covered = λ j h.
        let before : is_some (lookup j o.open_blocks) ≡ true =
          ground (arith, lookup-remove state.block_index j o.open_blocks) in
        elim (v.covered j before) [
          | thinking_block p q ↦ thinking_block (ground (arith)) (ground (arith))
          | text_block p q ↦ text_block (ground (arith)) (ground (arith))
          | tool g s r f ↦
              tool g s
                (forth g s r (λ e. absurd (
                  ground (
                    arith,
                    lookup-remove state.block_index j o.open_blocks,
                    rw e at (r.0),
                    runs.0,
                  ))))
                f
        ];
  }

pub Active-live :
    (live live' : Key → Bool) (b : Blocks) (o : Open)
    → ((i : Key) (s : ToolBlockState) → Runs live b i s → live' i ≡ true)
    → ((i : Key) (s : ToolBlockState) → Runs live' b i s → live i ≡ true)
    → Active live b o
    → Active live' b o
Active-live live live' b o forth back v = record {
  text_open = v.text_open;
  thinking_open = v.thinking_open;
  tools_open = λ i s r. v.tools_open i s (r.0, r.1, back i s r);
  distinct = λ i j s t r q e. v.distinct i j s t (r.0, r.1, back i s r) (q.0, q.1, back j t q) e;
  covered = λ k h. elim (v.covered k h) [
    | text_block p q ↦ text_block p q
    | thinking_block p q ↦ thinking_block p q
    | tool i s r e ↦ tool i s (r.0, r.1, forth i s r) e
  ];
}
