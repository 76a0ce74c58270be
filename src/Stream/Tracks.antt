-- ===== src/Stream/Tracks.antt =====
-- The ledger's blocks agree with what a checker of the stream has open.
use design.Common.{
  ℕ, suc, ◌<◌, ◌≤◌, max, ◌≡◌, refl, true, false, none, some, is_some, ◌∷◌, ◌++◌, lookup, insert,
  remove, contains, lookup-insert, lookup-remove, Option-cases, inl, inr, arith,
}
use design.Stream.Events.{
  BlockType, text, thinking, tool_use, redacted_thinking, server_tool, unlisted, Block, Delta,
}
use design.Stream.Ledger.{
  Blocks, StreamBlockState, Ledger, with_blocks, block_state, started_blocks, reserve_index,
  record_block_start, record_block_delta, record_block_stop, close_state,
  clear_active_content_block, popped, addition,
}
use design.Stream.Contract.{Open, Storage, plain}

-- A block is seen if the ledger has a state for it, an open one is stored by its type, and every
-- index that was seen is below the next one.
pub record Tracks (l : Ledger) (o : Open) : Type 0 where
  pub fresh : (k : ℕ) → contains k o.seen_blocks ≡ true → k < l.blocks.next_index
  pub opened : (k : ℕ) → is_some (lookup k o.open_blocks) ≡ true → contains k o.seen_blocks ≡ true
  pub seen : (k : ℕ) → is_some (lookup k l.content_blocks) ≡ contains k o.seen_blocks
  pub indexed : (k : ℕ) (s : StreamBlockState) → lookup k l.content_blocks ≡ some s → s.index ≡ k
  pub kinds :
      (k : ℕ) (s : StreamBlockState) (t : Storage)
      → lookup k l.content_blocks ≡ some s
      → lookup k o.open_blocks ≡ some t
      → t ≡ plain s.block_type

abbrev pub started_open : Open → ℕ → BlockType → Open
started_open o k type = record {
  open_blocks = insert k (plain type) o.open_blocks;
  seen_blocks = k ∷ o.seen_blocks;
}

abbrev pub stopped_open : Open → ℕ → Open
stopped_open o k = record o { open_blocks = remove k o.open_blocks }

pub Tracks-blocks :
    (l m : Ledger) (o : Open)
    → m.content_blocks ≡ l.content_blocks
    → l.blocks.next_index ≤ m.blocks.next_index
    → Tracks l o
    → Tracks m o
Tracks-blocks l m o same more v = record {
  fresh = λ k h. ground (arith, v.fresh k h);
  opened = v.opened;
  seen = λ k. rw same (v.seen k);
  indexed = λ k s h. v.indexed k s (rw (← same) h);
  kinds = λ k s t h g. v.kinds k s t (rw (← same) h) g;
}

-- An index that is not below the next one was not seen.
pub Tracks-new :
    (l : Ledger) (o : Open) → Tracks l o → contains l.blocks.next_index o.seen_blocks ≡ false
Tracks-new l o v = ground (arith, v.fresh l.blocks.next_index)

pub Tracks-closed :
    (l : Ledger) (o : Open) → Tracks l o → lookup l.blocks.next_index o.open_blocks ≡ none
Tracks-closed l o v = ground (arith, v.opened l.blocks.next_index, Tracks-new l o v)

reserved :
    (b : Blocks) (k : ℕ) (type : BlockType)
    → (started_blocks (reserve_index b k) k type).next_index ≡ max b.next_index (suc k)
reserved b k text = refl
reserved b k thinking = refl
reserved b k tool_use = refl
reserved b k redacted_thinking = refl
reserved b k server_tool = refl
reserved b k unlisted = refl

pub Tracks-start :
    (l : Ledger) (o : Open) (b : Blocks) (block : Block)
    → Tracks l o
    → Tracks
        (record_block_start (with_blocks l b) l.blocks.next_index block)
        (started_open o l.blocks.next_index block.type)
unfolding record_block_start
Tracks-start l o b block v =
    let i = l.blocks.next_index in
    let state = block_state i block in
    record {
      fresh = λ k h. unfold contains in ground (arith, v.fresh k, reserved b i block.type);
      opened = λ k h.
          unfold contains in
          ground (arith, v.opened k, lookup-insert i k (plain block.type) o.open_blocks);
      seen = λ k.
          unfold contains in ground (arith, v.seen k, lookup-insert i k state l.content_blocks);
      indexed = λ k s h. ground (arith, v.indexed k s, lookup-insert i k state l.content_blocks);
      kinds = λ k s t h g. ground (
        arith,
        v.kinds k s t,
        lookup-insert i k state l.content_blocks,
        lookup-insert i k (plain block.type) o.open_blocks,
      );
    }

-- A block's state changes, but for its index and its type.
Tracks-set :
    (l m : Ledger) (o : Open) (i : ℕ) (s s' : StreamBlockState)
    → lookup i l.content_blocks ≡ some s
    → m.content_blocks ≡ insert i s' l.content_blocks
    → m.blocks.next_index ≡ l.blocks.next_index
    → s'.index ≡ s.index
    → s'.block_type ≡ s.block_type
    → Tracks l o
    → Tracks m o
Tracks-set l m o i s s' here same next index type v = record {
  fresh = λ k h. ground (arith, v.fresh k h);
  opened = v.opened;
  seen = λ k. rw same (ground (arith, v.seen k, lookup-insert i k s' l.content_blocks, here));
  indexed = λ k r h. ground (
    arith,
    v.indexed k r,
    v.indexed i s here,
    lookup-insert i k s' l.content_blocks,
    rw same at h,
  );
  kinds = λ k r t h g. ground (
    arith,
    v.kinds k r t,
    v.kinds i s t here,
    lookup-insert i k s' l.content_blocks,
    rw same at h,
  );
}

pub Tracks-delta :
    (l : Ledger) (o : Open) (i : ℕ) (delta : Delta)
    → Tracks l o
    → Tracks (record_block_delta l i delta) o
unfolding record_block_delta
Tracks-delta l o i delta v = elim (Option-cases (lookup i l.content_blocks)) [
  | inl e ↦ rw e v
  | inr (s, e) ↦ rw e (
      Tracks-set l _ o i s (record s { parts = s.parts ++ addition s.block_type delta }) e refl refl
        refl refl v)
]

clear_active-next :
    (b : Blocks) (s : StreamBlockState) → (clear_active_content_block b s).next_index ≡ b.next_index
clear_active-next b s = ground arith

Tracks-close_state : (l : Ledger) (o : Open) (i : ℕ) → Tracks l o → Tracks (close_state l i) o
unfolding close_state
Tracks-close_state l o i v = elim (Option-cases (lookup i l.content_blocks)) [
  | inl e ↦ rw e v
  | inr (s, e) ↦ rw e (
      Tracks-set l _ o i s (record s { open_ = false }) e refl (clear_active-next l.blocks s) refl
        refl v)
]

pub Tracks-remove : (l : Ledger) (o : Open) (i : ℕ) → Tracks l o → Tracks l (stopped_open o i)
Tracks-remove l o i v = record {
  fresh = v.fresh;
  opened = λ k h. ground (arith, v.opened k, lookup-remove i k o.open_blocks);
  seen = v.seen;
  indexed = v.indexed;
  kinds = λ k s t h g. ground (arith, v.kinds k s t h, lookup-remove i k o.open_blocks);
}

pub Tracks-stop :
    (l : Ledger) (o : Open) (i : ℕ) → Tracks l o → Tracks (record_block_stop l i) (stopped_open o i)
unfolding record_block_stop
Tracks-stop l o i v =
    let m = record l { open_stack = popped i l.open_stack } in
    Tracks-remove (close_state m i) o i
      (Tracks-close_state m o i (Tracks-blocks l m o refl (omega arith) v))
