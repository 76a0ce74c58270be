-- ===== src/Candidates/Deadline.antt =====
-- What the progress deadline guarantees.
use design.Common.{
  ℕ, ◌+◌, ◌-◌, ◌≡◌, Bool, true, false, not, ◌&&◌, List, [], ◌∷◌, ◌++◌, Key, is_text, ltb,
  if◌then◌else◌, arith,
}
use design.Candidates.{Event, Read, chunk, late, read_stream, ends_with, passes_on}

abbrev is_silent_read : Read → Bool
is_silent_read (chunk text) = not (is_text text)
is_silent_read _ = false

-- Reads that give empty chunks only.
unfoldable pub is_silent : List Event → Bool
is_silent [] = true
is_silent (e ∷ es) = is_silent_read e.read && is_silent es

unfoldable pub total : List Event → ℕ
total [] = 0
total (e ∷ es) = e.elapsed + total es

abbrev pub chunk_after : ℕ → Key → Event
chunk_after elapsed text = record { elapsed = elapsed; read = chunk text }

-- After any number of empty chunks a chunk with text is passed on, and starts the deadline anew,
-- exactly if it comes before the deadline that stood at the first of them; otherwise the reading
-- ends as late with nothing passed on.
pub read_stream-deadline :
    (timeout remaining elapsed : ℕ) (committed : Bool) (text : Key) (es rest : List Event)
    → is_silent es ≡ true
    → is_text text ≡ true
    → read_stream timeout remaining committed (es ++ chunk_after elapsed text ∷ rest) ≡ (
        if ltb (total es + elapsed) remaining
        then passes_on text (read_stream timeout timeout true rest)
        else ends_with committed 0 late)
unfolding read_stream is_silent total
read_stream-deadline timeout remaining elapsed committed text [] rest h g = ground arith
read_stream-deadline timeout remaining elapsed committed text (e ∷ es) rest h g =
    ground
      (arith, read_stream-deadline timeout (remaining - e.elapsed) elapsed committed text es rest)
