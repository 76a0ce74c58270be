-- ===== src/Stream/Closing.antt =====
-- The end of a response: no block is left open, and some block was there.
use design.Common.{
  ℕ, ◌≡◌, refl, ◌∙◌, ◌⊎◌, Bool, true, false, is_some, List, [], ◌∷◌, Key, lookup, contains,
  Option-cases, inl, inr, arith,
}
use design.Stream.Events.{
  Event, message_start, content_block_start, content_block_delta, content_block_stop, message_delta,
  message_stop, error, other, is_empty,
}
use design.Stream.Ledger.{
  Ledger, has_content_block, ensure_text_block, start_text_block, stop_text_block, emit_text_delta,
  block_start, record_block_start,
}
use design.Stream.Responses.{write_space}
use design.Stream.Contract.{Open, fine, check_start, check_event, check_events, delta_fits}
use design.Stream.Tracks.{Tracks}
use design.Stream.Active.{text_block, thinking_block, tool}
use design.Stream.Accepted.{
  Checked-cases, Agrees, Accepts, and_then-Accepts, stop_text_block-Accepts,
}
use design.Stream.Writers.{Closed, none_live, ensure_text_block-Accepts, emit_text_delta-Accepts}

dict-cases :
    {V : Type 0} (m : List (Key × V)) → (m ≡ []) ⊎ ((k : Key) × (is_some (lookup k m) ≡ true))
unfolding lookup
dict-cases [] = inl refl
dict-cases ((k, v) ∷ m) = inr (k, ground (arith))

-- All blocks are closed.
pub nothing_left : (l : Ledger) (o : Open) → Agrees none_live l o → Closed l → o.open_blocks ≡ []
unfolding lookup
nothing_left l o v (no_text, no_thinking) = elim (dict-cases o.open_blocks) [
  | inl e ↦ e
  | inr (k, e) ↦ elim (v.active.covered k e) [
    | text_block p q ↦ absurd (ground (arith))
    | thinking_block p q ↦ absurd (ground (arith))
    | tool i s (p, q, r) f ↦ absurd (ground (arith))
  ]
]

pub seen-has_content_block :
    (l : Ledger) (o : Open)
    → Tracks l o
    → has_content_block l ≡ true
    → is_empty o.seen_blocks ≡ false
unfolding lookup contains
seen-has_content_block l o v h = elim (dict-cases l.content_blocks) [
  | inl e ↦ absurd (ground (arith, rw e at h))
  | inr (k, e) ↦ ground (arith, v.seen k)
]

check_event-seen :
    (is_space : ℕ → Bool) (allow_error : Bool) (o p : Open) (e : Event)
    → check_event is_space allow_error o e ≡ fine p
    → is_empty o.seen_blocks ≡ false
    → is_empty p.seen_blocks ≡ false
unfolding check_event check_start
check_event-seen is_space allow_error o p (content_block_start index block) h s = ground (arith)
check_event-seen is_space allow_error o p (content_block_delta index delta) h s =
    elim (Option-cases (lookup index o.open_blocks)) [
      | inl f ↦ absurd (ground (arith, rw f at h))
      | inr (kind, f) ↦ elim (Checked-cases (delta_fits kind delta.type)) [
        | inl (b, g) ↦ ground (arith, rw (f, g) at h)
        | inr (v, g) ↦ absurd (ground (arith, rw (f, g) at h))
      ]
    ]
check_event-seen is_space allow_error o p (content_block_stop index) h s = ground (arith)
check_event-seen is_space allow_error o p error h s = ground (arith)
check_event-seen is_space allow_error o p (message_start i m t) h s = ground (arith)
check_event-seen is_space allow_error o p (message_delta r u) h s = ground (arith)
check_event-seen is_space allow_error o p message_stop h s = ground (arith)
check_event-seen is_space allow_error o p other h s = ground (arith)

-- Everything is closed, and some block was seen.
abbrev pub Over : Ledger → Open → Type 0
Over l o = (o.open_blocks ≡ []) × (is_empty o.seen_blocks ≡ false)

module _ (is_space : ℕ → Bool) (allow_error : Bool) where
  ensure_text_block-thinking :
      (l : Ledger)
      → l.blocks.thinking_started ≡ false
      → (ensure_text_block l).0.blocks.thinking_started ≡ false
  unfolding ensure_text_block start_text_block block_start record_block_start
  ensure_text_block-thinking l h = ground (arith)

  -- Once a block was seen, some block always was.
  pub check_events-seen :
      (o p : Open) (es : List Event)
      → check_events is_space allow_error o es ≡ fine p
      → is_empty o.seen_blocks ≡ false
      → is_empty p.seen_blocks ≡ false
  unfolding check_events
  check_events-seen o p [] h s = ground (arith)
  check_events-seen o p (e ∷ es) h s = elim (Checked-cases (check_event is_space allow_error o e)) [
    | inl (q, g) ↦
        check_events-seen q p es (rw g at h) (check_event-seen is_space allow_error o q e g s)
    | inr (v, g) ↦ absurd (ground (arith, rw g at h))
  ]

  opened-seen :
      (l : Ledger) (o : Open)
      → Agrees none_live l o
      → l.blocks.text_started ≡ true
      → is_empty o.seen_blocks ≡ false
  unfolding contains
  opened-seen l o v on = ground (arith, v.tracks.opened l.blocks.text_index, v.active.text_open on)

  pub write_space-Accepts :
      (l : Ledger) (o : Open)
      → Agrees none_live l o
      → Closed l
      → Accepts is_space allow_error o (write_space l) Over
  unfolding write_space
  write_space-Accepts l o v closed =
      let on : Ledger → Open → Type 0 = λ m p.
        Agrees none_live m p
        × (m.blocks.thinking_started ≡ false)
        × (m.blocks.text_started ≡ true) in
      let (q, e, ((w, _), started)) =
        ensure_text_block-Accepts is_space allow_error none_live l o v in
      and_then-Accepts is_space allow_error on Over o _ stop_text_block
        (and_then-Accepts is_space allow_error on on o (ensure_text_block l)
          (λ m. emit_text_delta m (32 ∷ []))
          (q, e, (w, ensure_text_block-thinking l closed.1, started))
          (λ m p (x, off, on').
            let (r, f, ((y, _), same)) =
              emit_text_delta-Accepts is_space allow_error none_live m p (32 ∷ []) x on' in
            (r, f, (y, ground (arith, same, off), ground (arith, same, on')))))
        (λ m p (x, off, on').
          let (r, f, (y, text_off, kept, _)) =
            stop_text_block-Accepts is_space allow_error none_live m p x on' in
          (
            r,
            f,
            (
              nothing_left _ r y (text_off, kept ∙ off),
              check_events-seen p r _ f (opened-seen m p x on'),
            ),
          ))
