-- ===== src/Stream/Spoken.antt =====
-- A stream that the checker accepts says nothing before its first block.
use design.Common.{
  ℕ, ◌≡◌, refl, Bool, true, false, is_some, List, [], ◌∷◌, lookup, Bool-cases, ◌⊎◌, inl, inr, arith,
  contains,
}
use design.Stream.Events.{
  Event, message_start, content_block_start, content_block_delta, content_block_stop, message_delta,
  message_stop, error, other, is_empty,
}
use design.Stream.Ledger.{Ledger, has_content_block}
use design.Stream.Contract.{
  Open, fine, check_start, check_event, check_events, text_of, text_content, thinking_of,
  thinking_content,
}
use design.Stream.Tracks.{Tracks}
use design.Stream.Accepted.{Checked-cases}
use design.Stream.Closing.{check_events-seen}
use design.Stream.Content.{Says}

-- A block that is open was seen.
abbrev pub OpenedSeen : Open → Type 0
OpenedSeen o = (k : ℕ) → is_some (lookup k o.open_blocks) ≡ true → is_empty o.seen_blocks ≡ false

pub Tracks-OpenedSeen : (l : Ledger) (o : Open) → Tracks l o → OpenedSeen o
unfolding contains
Tracks-OpenedSeen l o v k h = ground (arith, v.opened k h)

module _ (is_space : ℕ → Bool) (allow_error : Bool) where
  -- One event, when no block was seen up to it and none is seen after it.
  unseen-silent :
      (o p : Open) (e : Event)
      → OpenedSeen o
      → check_event is_space allow_error o e ≡ fine p
      → is_empty o.seen_blocks ≡ true
      → is_empty p.seen_blocks ≡ true
      → (text_of e ≡ []) × (thinking_of e ≡ []) × (p ≡ o)
  unfolding check_event check_start
  unseen-silent o p (content_block_start index block) v h none_o none_p = absurd (ground (arith))
  unseen-silent o p (content_block_delta index delta) v h none_o none_p =
      absurd (ground (arith, v index))
  unseen-silent o p (content_block_stop index) v h none_o none_p = absurd (ground (arith, v index))
  unseen-silent o p error v h none_o none_p = ground (arith)
  unseen-silent o p (message_start i m t) v h none_o none_p = ground (arith)
  unseen-silent o p (message_delta r u) v h none_o none_p = ground (arith)
  unseen-silent o p message_stop v h none_o none_p = ground (arith)
  unseen-silent o p other v h none_o none_p = ground (arith)

  silent-Says :
      (o p : Open) (es : List Event)
      → OpenedSeen o
      → check_events is_space allow_error o es ≡ fine p
      → is_empty o.seen_blocks ≡ true
      → is_empty p.seen_blocks ≡ true
      → Says [] [] es
  unfolding check_events text_content thinking_content
  silent-Says o p [] v h none_o none_p = (refl, refl)
  silent-Says o p (e ∷ es) v h none_o none_p =
      elim (Checked-cases (check_event is_space allow_error o e)) [
        | inr (x, f) ↦ absurd (ground (arith, rw f at h))
        | inl (q, f) ↦ elim (Bool-cases (is_empty q.seen_blocks)) [
          | inr s ↦
              absurd (ground (arith, check_events-seen is_space allow_error q p es (rw f at h) s))
          | inl s ↦
              let (said, thought, same) = unseen-silent o q e v f none_o s in
              let (x, y) = silent-Says o p es v (rw (f, same) at h) none_o none_p in
              (rw (said, x) refl, rw (thought, y) refl)
        ]
      ]

  -- A stream that leaves the checker without a block says nothing.
  pub unseen-Says :
      (o p : Open) (es : List Event)
      → OpenedSeen o
      → check_events is_space allow_error o es ≡ fine p
      → is_empty p.seen_blocks ≡ true
      → (is_empty o.seen_blocks ≡ true) × Says [] [] es
  unseen-Says o p es v h none_p = elim (Bool-cases (is_empty o.seen_blocks)) [
    | inr e ↦ absurd (ground (arith, check_events-seen is_space allow_error o p es h e))
    | inl e ↦ (e, silent-Says o p es v h e none_p)
  ]

seen_cases : (ks : List ℕ) → (is_empty ks ≡ true) ⊎ ((k : ℕ) × (contains k ks ≡ true))
unfolding contains
seen_cases [] = inl refl
seen_cases (k ∷ ks) = inr (k, ground (arith))

-- A ledger whose blocks the checker has seen.
pub unseen-has_content_block :
    (l : Ledger) (o : Open)
    → Tracks l o
    → has_content_block l ≡ false
    → is_empty o.seen_blocks ≡ true
unfolding contains lookup
unseen-has_content_block l o v h = elim (seen_cases o.seen_blocks) [
  | inl e ↦ e
  | inr (k, e) ↦ absurd (ground (arith, v.seen k))
]
