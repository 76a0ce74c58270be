-- ===== src/Stream/Content.antt =====
-- The text and the thinking that the client reads are those that the upstream sent.
use design.Common.{
  append_assoc, ℕ, ◌≡◌, refl, ap, sym, ◌∙◌, Option, none, some, from_option, List, [], ◌∷◌, ◌++◌,
  Key, if◌then◌else◌, if_cases, lookup, keys,
}
use design.Stream.Events.{Text, Event}
use design.Stream.Ledger.{
  Ledger, Written, and_then, ToolBlockState, block_delta, block_start, block_stop, emit_text_delta,
  emit_thinking_delta, ensure_text_block, ensure_thinking_block, start_text_block,
  start_thinking_block, stop_text_block, stop_thinking_block, start_tool_block,
  close_content_blocks, close_all_blocks, stop_tools,
}
use design.Stream.Contract.{text_of, text_content, thinking_of, thinking_content}

text_content-append :
    (es fs : List Event) → text_content (es ++ fs) ≡ text_content es ++ text_content fs
unfolding text_content
text_content-append [] fs = refl
text_content-append (e ∷ es) fs =
    ap (λ s. text_of e ++ s) (text_content-append es fs)
    ∙ sym (append_assoc (text_of e) (text_content es) (text_content fs))

thinking_content-append :
    (es fs : List Event) → thinking_content (es ++ fs) ≡ thinking_content es ++ thinking_content fs
unfolding thinking_content
thinking_content-append [] fs = refl
thinking_content-append (e ∷ es) fs =
    ap (λ s. thinking_of e ++ s) (thinking_content-append es fs)
    ∙ sym (append_assoc (thinking_of e) (thinking_content es) (thinking_content fs))

-- What these events say to the client.
abbrev pub Says : (said thought : Text) → List Event → Type 0
Says said thought es = (text_content es ≡ said) × (thinking_content es ≡ thought)

pub append-Says :
    (s t u v : Text) (es fs : List Event)
    → Says s t es
    → Says u v fs
    → Says (s ++ u) (t ++ v) (es ++ fs)
append-Says s t u v es fs (p, q) (p', q') =
    (text_content-append es fs ∙ rw (p, p') refl, thinking_content-append es fs ∙ rw (q, q') refl)

-- Operations that only open and close blocks say nothing.
abbrev pub Quiet : Written → Type 0
Quiet w = Says [] [] w.1

pub and_then-Quiet :
    (w : Written) (f : Ledger → Written)
    → Quiet w
    → ((l : Ledger) → Quiet (f l))
    → Quiet (and_then w f)
and_then-Quiet (l, es) f h g = append-Says [] [] [] [] es (f l).1 h (g l)

pub nothing-Quiet : (l : Ledger) → Quiet (l, [])
unfolding text_content thinking_content
nothing-Quiet l = (refl, refl)

block_stop-Quiet : (l : Ledger) (k : ℕ) → Quiet (block_stop l k)
unfolding block_stop text_content thinking_content
block_stop-Quiet l k = (refl, refl)

start_text_block-Quiet : (l : Ledger) → Quiet (start_text_block l)
unfolding start_text_block block_start text_content thinking_content
start_text_block-Quiet l = (refl, refl)

start_thinking_block-Quiet : (l : Ledger) → Quiet (start_thinking_block l)
unfolding start_thinking_block block_start text_content thinking_content
start_thinking_block-Quiet l = (refl, refl)

pub stop_text_block-Quiet : (l : Ledger) → Quiet (stop_text_block l)
unfolding stop_text_block block_stop text_content thinking_content
stop_text_block-Quiet l = (refl, refl)

stop_thinking_block-Quiet : (l : Ledger) → Quiet (stop_thinking_block l)
unfolding stop_thinking_block block_stop text_content thinking_content
stop_thinking_block-Quiet l = (refl, refl)

pub start_tool_block-Quiet :
    (l : Ledger) (i tool_id : Key) (name : Text) (extra : Option Key)
    → Quiet (start_tool_block l i tool_id name extra)
unfolding start_tool_block block_start text_content thinking_content
start_tool_block-Quiet l i tool_id name extra = (refl, refl)

pub ensure_text_block-Quiet : (l : Ledger) → Quiet (ensure_text_block l)
unfolding ensure_text_block
ensure_text_block-Quiet l =
    and_then-Quiet (if l.blocks.thinking_started then stop_thinking_block l else (l, []))
      (λ m. if m.blocks.text_started then (m, []) else start_text_block m)
      (if_cases Quiet l.blocks.thinking_started (λ _. stop_thinking_block-Quiet l)
        (λ _. nothing-Quiet l))
      (λ m.
        if_cases Quiet m.blocks.text_started (λ _. nothing-Quiet m) (λ _. start_text_block-Quiet m))

pub ensure_thinking_block-Quiet : (l : Ledger) → Quiet (ensure_thinking_block l)
unfolding ensure_thinking_block
ensure_thinking_block-Quiet l =
    and_then-Quiet (if l.blocks.text_started then stop_text_block l else (l, []))
      (λ m. if m.blocks.thinking_started then (m, []) else start_thinking_block m)
      (if_cases Quiet l.blocks.text_started (λ _. stop_text_block-Quiet l) (λ _. nothing-Quiet l))
      (λ m.
        if_cases Quiet m.blocks.thinking_started (λ _. nothing-Quiet m)
          (λ _. start_thinking_block-Quiet m))

pub close_content_blocks-Quiet : (l : Ledger) → Quiet (close_content_blocks l)
unfolding close_content_blocks
close_content_blocks-Quiet l =
    and_then-Quiet (if l.blocks.thinking_started then stop_thinking_block l else (l, []))
      (λ m. if m.blocks.text_started then stop_text_block m else (m, []))
      (if_cases Quiet l.blocks.thinking_started (λ _. stop_thinking_block-Quiet l)
        (λ _. nothing-Quiet l))
      (λ m.
        if_cases Quiet m.blocks.text_started (λ _. stop_text_block-Quiet m) (λ _. nothing-Quiet m))

stop_started-Quiet :
    (l : Ledger) (o : Option ToolBlockState)
    → Quiet (
        from_option o
          (l, [])
          (λ state. if state.started then block_stop l state.block_index else (l, [])))
stop_started-Quiet l none = nothing-Quiet l
stop_started-Quiet l (some state) =
    if_cases Quiet state.started (λ _. block_stop-Quiet l state.block_index) (λ _. nothing-Quiet l)

stop_tools-Quiet : (ks : List Key) (l : Ledger) → Quiet (stop_tools l ks)
unfolding stop_tools
stop_tools-Quiet [] l = nothing-Quiet l
stop_tools-Quiet (i ∷ ks) l =
    and_then-Quiet
      (from_option (lookup i l.blocks.tool_states) (l, [])
        (λ state. if state.started then block_stop l state.block_index else (l, [])))
      (λ m. stop_tools m ks) (stop_started-Quiet l (lookup i l.blocks.tool_states))
      (λ m. stop_tools-Quiet ks m)

pub close_all_blocks-Quiet : (l : Ledger) → Quiet (close_all_blocks l)
unfolding close_all_blocks
close_all_blocks-Quiet l =
    and_then-Quiet (close_content_blocks l) (λ m. stop_tools m (keys m.blocks.tool_states))
      (close_content_blocks-Quiet l) (λ m. stop_tools-Quiet (keys m.blocks.tool_states) m)

pub emit_text_delta-Says :
    (l : Ledger) (delta : Text) → Says (delta ++ []) [] (emit_text_delta l delta).1
unfolding block_delta text_content thinking_content
emit_text_delta-Says l delta = (refl, refl)

pub emit_thinking_delta-Says :
    (l : Ledger) (delta : Text) → Says [] (delta ++ []) (emit_thinking_delta l delta).1
unfolding block_delta text_content thinking_content
emit_thinking_delta-Says l delta = (refl, refl)
