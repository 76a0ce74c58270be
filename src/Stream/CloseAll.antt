-- ===== src/Stream/CloseAll.antt =====
-- `close_all_blocks` closes every block that is open, and the checker accepts it.
use design.Common.{
  ℕ, ◌≡◌, refl, ◌∙◌, Bool, true, false, some, from_option, List, [], ◌∷◌, Key, ◌==◌, if◌then◌else◌,
  if_cases, lookup, contains, keys, Option-cases, Bool-cases, inl, inr, arith,
}
use design.Stream.Ledger.{
  ToolBlockState, Ledger, Written, block_stop, close_content_blocks, close_all_blocks, stop_tools,
}
use design.Stream.Contract.{Open}
use design.Stream.Active.{Runs, Active-live, Active-stop_tool}
use design.Trees.Queue.Laws.{IsDistinct}
use design.Stream.Accepted.{Agrees, Accepts, and_then-Accepts, nothing-Accepts}
use design.Stream.Writers.{
  Same, Closed, all_live, none_live, stop_tool-Accepts, close_content_blocks-Accepts,
}

abbrev pub among : List Key → Key → Bool
among ks i = contains i ks

module _ (is_space : ℕ → Bool) (allow_error : Bool) where
  skip-Agrees :
      (l : Ledger) (o : Open) (i : Key) (ks : List Key)
      → Agrees (among (i ∷ ks)) l o
      → ((s : ToolBlockState) → lookup i l.blocks.tool_states ≡ some s → s.started ≡ false)
      → Agrees (among ks) l o
  unfolding contains
  skip-Agrees l o i ks v idle = record {
    tracks = v.tracks;
    active =
        Active-live (among (i ∷ ks)) (among ks) l.blocks o
          (λ j s (p, q, r). elim (Bool-cases (i == j)) [
            | inl e ↦ absurd (ground (arith, idle s, e, p, q))
            | inr e ↦ ground (arith, e, r)
          ])
          (λ j s (p, q, r). ground (arith, r)) v.active;
  }

  stop_one : Ledger → Key → Written
  stop_one l i =
      from_option (lookup i l.blocks.tool_states) (l, [])
        (λ state. if state.started then block_stop l state.block_index else (l, []))

  stop_one-Accepts :
      (l : Ledger) (o : Open) (i : Key) (ks : List Key)
      → contains i ks ≡ false
      → Agrees (among (i ∷ ks)) l o
      → Accepts is_space allow_error o
          (stop_one l i)
          (λ m p. Agrees (among ks) m p × (m.blocks ≡ l.blocks))
  unfolding stop_one contains
  stop_one-Accepts l o i ks new v =
      let ends : Ledger → Open → Type 0 = λ m p. Agrees (among ks) m p × (m.blocks ≡ l.blocks) in
      elim (Option-cases (lookup i l.blocks.tool_states)) [
        | inl e ↦ rw e (
            nothing-Accepts is_space allow_error ends l o
              (skip-Agrees l o i ks v (λ s h. absurd (ground (arith, h))), refl))
        | inr (s, e) ↦ rw e (
            if_cases (λ w. Accepts is_space allow_error o w ends) s.started
              (λ on.
                let runs : Runs (among (i ∷ ks)) l.blocks i s = (e, on, ground (arith)) in
                let (p, c, (t, same, at)) =
                  stop_tool-Accepts is_space allow_error (among (i ∷ ks)) l o i s v runs in
                (
                  p,
                  c,
                  (
                    record {
                      tracks = t;
                      active =
                          rw (same, at)
                            (Active-stop_tool (among (i ∷ ks)) l.blocks l.blocks o v.active
                              (among ks) i s runs
                              (λ j r (a, b, c).
                                ((a, b, ground (arith, c)), λ f. ground (arith, rw f at c, new)))
                              (λ j r (a, b, c) f. (a, b, ground (arith, c, f))) refl refl refl
                              refl);
                    },
                    same,
                  ),
                ))
              (λ off.
                nothing-Accepts is_space allow_error ends l o
                  (skip-Agrees l o i ks v (λ r h. ground (arith, h)), refl)))
      ]

  -- The loop of `close_all_blocks` stops every tool that counts.
  pub stop_tools-Accepts :
      (l : Ledger) (o : Open) (ks : List Key)
      → IsDistinct ks
      → Agrees (among ks) l o
      → Accepts is_space allow_error o
          (stop_tools l ks)
          (λ m p. Agrees none_live m p × (m.blocks ≡ l.blocks))
  unfolding stop_tools contains stop_one
  stop_tools-Accepts l o [] d v =
      nothing-Accepts is_space allow_error (λ m p. Agrees none_live m p × (m.blocks ≡ l.blocks)) l o
        (v, refl)
  stop_tools-Accepts l o (i ∷ ks) (new, d) v =
      let ends : Ledger → Open → Type 0 = λ m p. Agrees none_live m p × (m.blocks ≡ l.blocks) in
      and_then-Accepts is_space allow_error (λ m p. Agrees (among ks) m p × (m.blocks ≡ l.blocks))
        ends o (stop_one l i) (λ m. stop_tools m ks) (stop_one-Accepts l o i ks new v)
        (λ m p (w, same).
          let (q, e, (x, same')) = stop_tools-Accepts m p ks d w in (q, e, (x, same' ∙ same)))

keys-lookup :
    {V : Type 0} (k : Key) (v : V) (m : List (Key × V))
    → lookup k m ≡ some v
    → contains k (keys m) ≡ true
unfolding lookup contains
keys-lookup k v [] h = absurd (ground (arith))
keys-lookup k v ((j, w) ∷ m) h = ground (arith, keys-lookup k v m)

module _ (is_space : ℕ → Bool) (allow_error : Bool) where
  -- `close_all_blocks` leaves no block open.
  pub close_all_blocks-Accepts :
      (l : Ledger) (o : Open)
      → Agrees all_live l o
      → IsDistinct (keys l.blocks.tool_states)
      → Accepts is_space allow_error o (close_all_blocks l) (λ m p. Agrees none_live m p × Closed m)
  unfolding close_all_blocks
  close_all_blocks-Accepts l o v d =
      let first : Ledger → Open → Type 0 = λ m p. Same all_live l m p × Closed m in
      let ends : Ledger → Open → Type 0 = λ m p. Agrees none_live m p × Closed m in
      and_then-Accepts is_space allow_error first ends o (close_content_blocks l)
        (λ m. stop_tools m (keys m.blocks.tool_states))
        (close_content_blocks-Accepts is_space allow_error all_live l o v)
        (λ m p ((w, tools), (no_text, no_thinking)).
          let ks = keys m.blocks.tool_states in
          let counted : Agrees (among ks) m p = record {
            tracks = w.tracks;
            active =
                Active-live all_live (among ks) m.blocks p
                  (λ i s (a, b, c). keys-lookup i s m.blocks.tool_states a) (λ i s r. refl)
                  w.active;
          } in
          let (q, e, (x, same)) =
            stop_tools-Accepts is_space allow_error m p ks (rw tools d) counted in
          (q, e, (x, (ground (arith, same, no_text), ground (arith, same, no_thinking)))))
