-- ===== src/Stream/Accepted.antt =====
-- What the ledger writes passes the checker of the stream contract.
use design.Common.{
  ℕ, suc, ◌≡◌, refl, ◌∙◌, ◌⊎◌, Bool, true, false, some, is_some, List, [], ◌∷◌, ◌++◌, Key, ◌==◌,
  if◌then◌else◌, lookup, Option-cases, inl, inr, arith,
}
use design.Stream.Events.{Text, BlockType, text, thinking, Block, Delta, DeltaType, Event}
use design.Stream.Ledger.{
  Blocks, Ledger, Written, and_then, with_blocks, record_block_start, record_block_delta,
  record_block_stop, block_start, block_delta, block_stop, empty_block, start_text_block,
  start_thinking_block, stop_text_block, stop_thinking_block, close_state,
}
use design.Stream.Contract.{
  Open, Violation, plain, Checked, fine, fails, check_start, check_event, check_events, is_listed,
  is_blank, delta_fits,
}
use design.Stream.Tracks.{
  Tracks, started_open, stopped_open, Tracks-start, Tracks-delta, Tracks-stop, Tracks-new,
  Tracks-closed, Tracks-blocks,
}
use design.Stream.Active.{
  Active, Active-stop_thinking, Active-stop_text, Active-start_text, Active-start_thinking,
}

-- The ledger and a checker that has read all its events.
pub record Agrees (live : Key → Bool) (l : Ledger) (o : Open) : Type 0 where
  pub tracks : Tracks l o
  pub active : Active live l.blocks o

record_block_delta-blocks :
    (l : Ledger) (i : ℕ) (d : Delta) → (record_block_delta l i d).blocks ≡ l.blocks
unfolding record_block_delta
record_block_delta-blocks l i d = ground arith

-- The flag of the text or thinking block at this index is cleared.
abbrev pub cleared : BlockType → ℕ → Blocks → Blocks
cleared type k b = elim type [
  | text ↦ if b.text_index == k then record b { text_started = false } else b
  | thinking ↦ if b.thinking_index == k then record b { thinking_started = false } else b
  | _ ↦ b
]

pub record_block_stop-blocks :
    (l : Ledger) (o : Open) (k : ℕ) (type : BlockType)
    → Tracks l o
    → lookup k o.open_blocks ≡ some (plain type)
    → (record_block_stop l k).blocks ≡ cleared type k l.blocks
unfolding record_block_stop close_state
record_block_stop-blocks l o k type v h = elim (Option-cases (lookup k l.content_blocks)) [
  | inl e ↦ absurd (ground (arith, v.seen k, v.opened k))
  | inr (s, e) ↦ rw e (ground (arith, v.indexed k s e, v.kinds k s (plain type) e h))
]

pub Checked-cases :
    {A : Type 0} (c : Checked A) → ((a : A) × (c ≡ fine a)) ⊎ ((v : Violation) × (c ≡ fails v))
Checked-cases (fine a) = inl (a, refl)
Checked-cases (fails v) = inr (v, refl)

module _ (is_space : ℕ → Bool) (allow_error : Bool) where
  abbrev pub Accepts : Open → Written → (Ledger → Open → Type 0) → Type 0
  Accepts o w P = (o' : Open) × (check_events is_space allow_error o w.1 ≡ fine o') × P w.0 o'

  pub check_events-append :
      (o p : Open) (es fs : List Event)
      → check_events is_space allow_error o es ≡ fine p
      → check_events is_space allow_error o (es ++ fs) ≡ check_events is_space allow_error p fs
  unfolding check_events
  check_events-append o p [] fs h = ground arith
  check_events-append o p (e ∷ es) fs h =
      elim (Checked-cases (check_event is_space allow_error o e)) [
        | inl (q, g) ↦ rw g (check_events-append q p es fs (rw g at h))
        | inr (x, g) ↦ absurd (ground (arith, rw g at h))
      ]

  pub and_then-Accepts :
      (P Q : Ledger → Open → Type 0) (o : Open) (w : Written) (f : Ledger → Written)
      → Accepts o w P
      → ((l : Ledger) (p : Open) → P l p → Accepts p (f l) Q)
      → Accepts o (and_then w f) Q
  and_then-Accepts P Q o (l, es) f (p, e, h) g =
      let (q, e', h') = g l p h in (q, check_events-append o p es (f l).1 e ∙ e', h')

  pub nothing-Accepts :
      (P : Ledger → Open → Type 0) (l : Ledger) (o : Open) → P l o → Accepts o (l, []) P
  unfolding check_events
  nothing-Accepts P l o h = (o, refl, h)

  pub block_start-passes :
      (l : Ledger) (o : Open) (b : Blocks) (block : Block)
      → Tracks l o
      → block.content ≡ []
      → is_listed block.type ≡ true
      → check_events is_space allow_error o
          (block_start (with_blocks l b) l.blocks.next_index block).1
        ≡ fine (started_open o l.blocks.next_index block.type)
  unfolding block_start check_events check_start is_blank
  block_start-passes l o b block v nil listed =
      ground (arith, Tracks-new l o v, Tracks-closed l o v)

  pub block_stop-passes :
      (l : Ledger) (o : Open) (k : ℕ)
      → is_some (lookup k o.open_blocks) ≡ true
      → check_events is_space allow_error o (block_stop l k).1 ≡ fine (stopped_open o k)
  unfolding block_stop check_events check_event
  block_stop-passes l o k h = ground (arith)

  pub block_delta-Accepts :
      (live : Key → Bool) (l : Ledger) (o : Open) (k : ℕ) (type : BlockType) (delta : DeltaType)
      (content : Text)
      → Agrees live l o
      → lookup k o.open_blocks ≡ some (plain type)
      → delta_fits (plain type) delta ≡ fine true
      → Accepts o (block_delta l k delta content) (λ m p. Agrees live m p × (m.blocks ≡ l.blocks))
  unfolding block_delta check_events check_event
  block_delta-Accepts live l o k type delta content v h fits =
      let same = record_block_delta-blocks l k (record { type = delta; content = content }) in
      (
        o,
        ground (arith),
        (record { tracks = Tracks-delta l o k _ v.tracks; active = rw same v.active }, same),
      )

  module _ (live : Key → Bool) (l : Ledger) (o : Open) (v : Agrees live l o) where
    pub stop_thinking_block-Accepts :
        l.blocks.thinking_started ≡ true
        → Accepts o (stop_thinking_block l) (λ m p.
          Agrees live m p
          × (m.blocks.thinking_started ≡ false)
          × (m.blocks.text_started ≡ l.blocks.text_started)
          × (m.blocks.tool_states ≡ l.blocks.tool_states))
    unfolding stop_thinking_block block_stop
    stop_thinking_block-Accepts on =
        let k = l.blocks.thinking_index in
        let b = record l.blocks { thinking_started = false } in
        let m = with_blocks l b in
        let t : Tracks m o = Tracks-blocks l m o refl (omega arith) v.tracks in
        let here = v.active.thinking_open on in
        let same : (record_block_stop m k).blocks ≡ b =
          record_block_stop-blocks m o k thinking t here ∙ ground (arith) in
        (
          stopped_open o k,
          block_stop-passes m o k (ground (arith, here)),
          (
            record {
              tracks = Tracks-stop m o k t;
              active =
                  rw same (Active-stop_thinking live l.blocks b o v.active on refl refl refl refl);
            },
            ground (arith, same),
            ground (arith, same),
            ground (arith, same),
          ),
        )

    pub stop_text_block-Accepts :
        l.blocks.text_started ≡ true
        → Accepts o (stop_text_block l) (λ m p.
          Agrees live m p
          × (m.blocks.text_started ≡ false)
          × (m.blocks.thinking_started ≡ l.blocks.thinking_started)
          × (m.blocks.tool_states ≡ l.blocks.tool_states))
    unfolding stop_text_block block_stop
    stop_text_block-Accepts on =
        let k = l.blocks.text_index in
        let b = record l.blocks { text_started = false } in
        let m = with_blocks l b in
        let t : Tracks m o = Tracks-blocks l m o refl (omega arith) v.tracks in
        let here = v.active.text_open on in
        let same : (record_block_stop m k).blocks ≡ b =
          record_block_stop-blocks m o k text t here ∙ ground (arith) in
        (
          stopped_open o k,
          block_stop-passes m o k (ground (arith, here)),
          (
            record {
              tracks = Tracks-stop m o k t;
              active = rw same (Active-stop_text live l.blocks b o v.active on refl refl refl refl);
            },
            ground (arith, same),
            ground (arith, same),
            ground (arith, same),
          ),
        )

    pub start_text_block-Accepts :
        l.blocks.text_started ≡ false
        → Accepts o (start_text_block l) (λ m p.
          Agrees live m p
          × (m.blocks.text_started ≡ true)
          × (m.blocks.tool_states ≡ l.blocks.tool_states))
    unfolding start_text_block block_start record_block_start
    start_text_block-Accepts off =
        let k = l.blocks.next_index in
        let b = record l.blocks { next_index = suc k; text_index = k; text_started = true } in
        (
          started_open o k text,
          block_start-passes l o b (empty_block text) v.tracks refl refl,
          (
            record {
              tracks = Tracks-start l o b (empty_block text) v.tracks;
              active =
                  Active-start_text live l.blocks _ o v.active k off (Tracks-closed l o v.tracks)
                    refl refl refl refl refl;
            },
            refl,
            refl,
          ),
        )

    pub start_thinking_block-Accepts :
        l.blocks.thinking_started ≡ false
        → Accepts o (start_thinking_block l) (λ m p.
          Agrees live m p
          × (m.blocks.thinking_started ≡ true)
          × (m.blocks.tool_states ≡ l.blocks.tool_states))
    unfolding start_thinking_block block_start record_block_start
    start_thinking_block-Accepts off =
        let k = l.blocks.next_index in
        let b = record l.blocks {
          next_index = suc k;
          thinking_index = k;
          thinking_started = true;
        } in
        (
          started_open o k thinking,
          block_start-passes l o b (empty_block thinking) v.tracks refl refl,
          (
            record {
              tracks = Tracks-start l o b (empty_block thinking) v.tracks;
              active =
                  Active-start_thinking live l.blocks _ o v.active k off
                    (Tracks-closed l o v.tracks) refl refl refl refl refl;
            },
            refl,
            refl,
          ),
        )
