-- ===== src/Stream/Redacted.antt =====
-- Encrypted reasoning becomes a block of its own, which the checker accepts.
use design.Common.{
  ℕ, suc, ◌≡◌, refl, ◌∙◌, Bool, some, Key, lookup, lookup-insert, lookup-remove, arith,
}
use design.Stream.Events.{redacted_thinking}
use design.Stream.Ledger.{
  Ledger, Blocks, with_blocks, and_then, block_start, block_stop, record_block_start,
  close_content_blocks,
}
use design.Stream.Responses.{write_redacted, redacted}
use design.Stream.Contract.{Open, plain}
use design.Stream.Tracks.{Tracks-start, Tracks-stop, Tracks-closed, started_open, stopped_open}
use design.Stream.Active.{Active, text_block, thinking_block, tool}
use design.Stream.Accepted.{
  Agrees, Accepts, and_then-Accepts, block_start-passes, block_stop-passes,
  record_block_stop-blocks,
}
use design.Stream.Writers.{Same, Closed, all_live, close_content_blocks-Accepts}

-- The same blocks are open, and the ledger writes to the same ones.
Active-same :
    (live : Key → Bool) (b b' : Blocks) (o o' : Open)
    → Active live b o
    → ((k : ℕ) → lookup k o'.open_blocks ≡ lookup k o.open_blocks)
    → b'.text_started ≡ b.text_started
    → b'.text_index ≡ b.text_index
    → b'.thinking_started ≡ b.thinking_started
    → b'.thinking_index ≡ b.thinking_index
    → b'.tool_states ≡ b.tool_states
    → Active live b' o'
Active-same live b b' o o' v same text text' thinking thinking' tools = record {
  text_open = λ h. ground (arith, v.text_open, same b'.text_index);
  thinking_open = λ h. ground (arith, v.thinking_open, same b'.thinking_index);
  tools_open = λ i s (p, q, r). same s.block_index ∙ v.tools_open i s (rw tools at p, q, r);
  distinct = λ i j s t (p, q, r) (p', q', r') e.
      v.distinct i j s t (rw tools at p, q, r) (rw tools at p', q', r') e;
  covered = λ k h. elim (v.covered k (rw (same k) at h)) [
    | text_block p q ↦ text_block (text ∙ p) (text' ∙ q)
    | thinking_block p q ↦ thinking_block (thinking ∙ p) (thinking' ∙ q)
    | tool i s (p, q, r) e ↦ tool i s (rw (← tools) at p, q, r) e
  ];
}

module _ (is_space : ℕ → Bool) (allow_error : Bool) where
  redacted-Accepts :
      (l : Ledger) (o : Open) (encrypted : Key)
      → Agrees all_live l o
      → Accepts is_space allow_error o
          (and_then
            (block_start
              (with_blocks l (record l.blocks { next_index = suc l.blocks.next_index }))
              l.blocks.next_index
              (redacted encrypted))
            (λ n. block_stop n l.blocks.next_index))
          (λ m p. Same all_live l m p)
  unfolding block_start block_stop record_block_start
  redacted-Accepts l o encrypted v =
      let k = l.blocks.next_index in
      let b = record l.blocks { next_index = suc k } in
      let block = redacted encrypted in
      let m = record_block_start (with_blocks l b) k block in
      let p = started_open o k redacted_thinking in
      let tracks = Tracks-start l o b block v.tracks in
      let here : lookup k p.open_blocks ≡ some (plain redacted_thinking) =
        ground (arith, lookup-insert k k (plain redacted_thinking) o.open_blocks) in
      let same = record_block_stop-blocks m p k redacted_thinking tracks here in
      let ends : Ledger → Open → Type 0 = Same all_live l in
      and_then-Accepts is_space allow_error (λ n q. (n ≡ m) × (q ≡ p)) ends o
        (block_start (with_blocks l b) k block) (λ n. block_stop n k)
        (p, block_start-passes is_space allow_error l o b block v.tracks refl refl, (refl, refl))
        (λ n q (e, f).
          rw (e, f)
            (
              stopped_open p k,
              block_stop-passes is_space allow_error m p k (ground (arith, here)),
              (
                record {
                  tracks = Tracks-stop m p k tracks;
                  active = rw same (
                      Active-same all_live l.blocks _ o (stopped_open p k) v.active
                        (λ j. ground (
                          arith,
                          lookup-remove k j p.open_blocks,
                          lookup-insert k j (plain redacted_thinking) o.open_blocks,
                          Tracks-closed l o v.tracks,
                        ))
                        refl refl refl refl refl);
                },
                rw same refl,
              ),
            ))

  pub write_redacted-Accepts :
      (l : Ledger) (o : Open) (encrypted : Key)
      → Agrees all_live l o
      → Accepts is_space allow_error o (write_redacted l encrypted) (Same all_live l)
  unfolding write_redacted
  write_redacted-Accepts l o encrypted v =
      and_then-Accepts is_space allow_error (λ m p. Same all_live l m p × Closed m)
        (Same all_live l) o (close_content_blocks l)
        (λ m.
          and_then
            (block_start (with_blocks m (record m.blocks { next_index = suc m.blocks.next_index }))
              m.blocks.next_index (redacted encrypted))
            (λ n. block_stop n m.blocks.next_index))
        (close_content_blocks-Accepts is_space allow_error all_live l o v)
        (λ m p ((w, tools), _).
          let (q, e, (x, tools')) = redacted-Accepts m p encrypted w in (q, e, (x, tools' ∙ tools)))
