-- ===== src/Stream/Told.antt =====
-- The whole of what a response conveys, event by event.
use design.Common.{
  true, append_nil, ◌≡◌, refl, sym, subst, ◌∙◌, ◌⊎◌, Bool, false, Option, none, some, List, [], ◌∷◌,
  ◌++◌, if_cases, inl, inr, arith,
}
use design.Stream.Events.{Text, is_empty}
use design.Stream.Ledger.{
  Ledger, Written, and_then, emit_text_delta, emit_thinking_delta, ensure_text_block,
  ensure_thinking_block, close_all_blocks, has_content_block, stop_text_block, write_delta,
  write_stop,
}
use design.Stream.Contract.{Open, text_content, thinking_content}
use design.Stream.Responses.{
  Adapter, Context, Fed, writes, generated, ResponseUsage, ResponseEvent, item_added, item_done,
  reasoning_delta, text_delta, arguments_delta, finish, failure, unknown, on_reasoning_delta,
  on_text_delta, on_item_added, write_space, write_end, write_finish, feed_open,
}
use design.Stream.Content.{
  Says, append-Says, Quiet, ensure_text_block-Quiet, ensure_thinking_block-Quiet,
  close_all_blocks-Quiet, emit_text_delta-Says, emit_thinking_delta-Says, nothing-Quiet,
  stop_text_block-Quiet,
}
use design.Stream.Orderly.{is_end}
use design.Stream.Conveys.{
  Conveys, and_fed-Conveys, fed-Still, on_item_done-Still, on_arguments_delta-Still,
}

abbrev from_text : Option Text → Text
from_text none = []
from_text (some s) = s

-- The texts of an event of the upstream.
abbrev pub given : ResponseEvent → Text
given (text_delta delta) = from_text delta
given _ = []

abbrev pub given_thought : ResponseEvent → Text
given_thought (reasoning_delta delta) = from_text delta
given_thought _ = []

-- The texts up to the end of the response.
unfoldable pub given_text : List ResponseEvent → Text
given_text [] = []
given_text (finish incomplete usage ∷ es) = []
given_text (e ∷ es) = given e ++ given_text es

unfoldable pub given_thinking : List ResponseEvent → Text
given_thinking [] = []
given_thinking (finish incomplete usage ∷ es) = []
given_thinking (e ∷ es) = given_thought e ++ given_thinking es

on_text_delta-Conveys : (a : Adapter) (delta : Text) → Conveys delta [] (on_text_delta a delta)
unfolding on_text_delta
on_text_delta-Conveys a delta =
    let l = a.ledger in
    subst (λ s. Conveys s [] (on_text_delta a delta))
      (sym (append_nil delta ∙ append_nil (delta ++ [])))
      (and_fed-Conveys (delta ++ []) [] [] []
        (writes a (and_then (ensure_text_block l) (λ m. emit_text_delta m delta))) generated
        (append-Says [] [] (delta ++ []) [] (ensure_text_block l).1 _ (ensure_text_block-Quiet l)
          (emit_text_delta-Says (ensure_text_block l).0 delta))
        (λ b. fed-Still b))

on_reasoning_delta-Conveys :
    (a : Adapter) (delta : Text) → Conveys [] delta (on_reasoning_delta a delta)
unfolding on_reasoning_delta
on_reasoning_delta-Conveys a delta =
    let l = a.ledger in
    subst (λ s. Conveys [] s (on_reasoning_delta a delta))
      (sym (append_nil delta ∙ append_nil (delta ++ [])))
      (and_fed-Conveys [] (delta ++ []) [] []
        (writes a (and_then (ensure_thinking_block l) (λ m. emit_thinking_delta m delta))) generated
        (append-Says [] [] [] (delta ++ []) (ensure_thinking_block l).1 _
          (ensure_thinking_block-Quiet l)
          (emit_thinking_delta-Says (ensure_thinking_block l).0 delta))
        (λ b. fed-Still b))

-- A text, or the space that stands in for it when neither text nor thinking was sent.
abbrev pub Filled : (text thought told : Text) → Type 0
Filled text thought told = (told ≡ text) ⊎ ((text ≡ []) × (thought ≡ []) × (told ≡ 32 ∷ []))

-- The same, from a state on; the space needs that no block was seen before it.
abbrev pub FilledFrom : Open → (text thought told : Text) → Type 0
FilledFrom o text thought told =
    (told ≡ text)
    ⊎ ((is_empty o.seen_blocks ≡ true) × (text ≡ []) × (thought ≡ []) × (told ≡ 32 ∷ []))

-- What the rest of a response conveys.
abbrev pub Tells : Open → (text thought : Text) → Fed → Type 0
Tells o text thought r = (told : Text) × (FilledFrom o text thought told) × (Conveys told thought r)

write_space-Says : (l : Ledger) → Says (32 ∷ []) [] (write_space l).1
unfolding write_space
write_space-Says l =
    let m = (ensure_text_block l).0 in
    let n = (emit_text_delta m (32 ∷ [])).0 in
    append-Says (32 ∷ []) [] [] [] ((ensure_text_block l).1 ++ (emit_text_delta m (32 ∷ [])).1)
      (stop_text_block n).1
      (append-Says [] [] (32 ∷ []) [] (ensure_text_block l).1 (emit_text_delta m (32 ∷ [])).1
        (ensure_text_block-Quiet l) (emit_text_delta-Says m (32 ∷ [])))
      (stop_text_block-Quiet n)

write_end-Quiet :
    (x : Context) (l : Ledger) (incomplete : Bool) (usage : ResponseUsage)
    → Quiet (write_end x l incomplete usage)
unfolding write_end write_delta write_stop text_content thinking_content
write_end-Quiet x l incomplete usage = (refl, refl)

-- The end of a response says nothing, or a space if there is no block.
abbrev pub Finishes : Ledger → Text → Type 0
Finishes l told = (told ≡ []) ⊎ ((has_content_block l ≡ false) × (told ≡ 32 ∷ []))

pub write_finish-Says :
    (x : Context) (l : Ledger) (incomplete : Bool) (usage : ResponseUsage)
    → (told : Text) × Finishes (close_all_blocks l).0 told
      × Says told [] (write_finish x l incomplete usage).1
unfolding write_finish
write_finish-Says x l incomplete usage =
    let m = (close_all_blocks l).0 in
    let all : (w : Written) (t : Text)
        → Says t [] w.1
        → Says (t ++ []) []
            ((close_all_blocks l).1 ++ (w.1 ++ (write_end x w.0 incomplete usage).1)) =
      λ w t h.
        append-Says [] [] (t ++ []) [] (close_all_blocks l).1
          (w.1 ++ (write_end x w.0 incomplete usage).1) (close_all_blocks-Quiet l)
          (append-Says t [] [] [] w.1 (write_end x w.0 incomplete usage).1 h
            (write_end-Quiet x w.0 incomplete usage)) in
    if_cases
      (λ (w : Written).
        (told : Text) × Finishes m told
        × Says told [] ((close_all_blocks l).1 ++ (w.1 ++ (write_end x w.0 incomplete usage).1)))
      (has_content_block m) (λ _. ([], inl refl, all (m, []) [] (nothing-Quiet m)))
      (λ off. (32 ∷ [], inr (off, refl), all (write_space m) (32 ∷ []) (write_space-Says m)))

pub feed_open-Conveys :
    (x : Context) (a : Adapter) (e : ResponseEvent)
    → is_end e ≡ false
    → Conveys (given e) (given_thought e) (feed_open x a e)
unfolding feed_open on_item_added
feed_open-Conveys x a (item_added none) h = fed-Still a
feed_open-Conveys x a (item_added (some item)) h = fed-Still a
feed_open-Conveys x a (item_done item) h = on_item_done-Still x a item
feed_open-Conveys x a (reasoning_delta none) h = fed-Still a
feed_open-Conveys x a (reasoning_delta (some [])) h = fed-Still a
feed_open-Conveys x a (reasoning_delta (some (c ∷ s))) h = on_reasoning_delta-Conveys a (c ∷ s)
feed_open-Conveys x a (text_delta none) h = fed-Still a
feed_open-Conveys x a (text_delta (some [])) h = fed-Still a
feed_open-Conveys x a (text_delta (some (c ∷ s))) h = on_text_delta-Conveys a (c ∷ s)
feed_open-Conveys x a (arguments_delta id delta) h = on_arguments_delta-Still a id delta
feed_open-Conveys x a (finish incomplete usage) h = absurd (ground (arith))
feed_open-Conveys x a (failure message) h = tt
feed_open-Conveys x a unknown h = fed-Still a
