-- ===== src/Candidates/Samples.antt =====
-- The properties of the fallback loop on a primary model that fails and a fallback that answers.
use design.Common.{◌≡◌, refl, true, false, List, [], ◌∷◌, ltb, ◌+◌, if◌then◌else◌}
use design.Candidates.{
  Event, Candidate, streams, failure, stop, late, serve, returned, raised, broken, breaks,
  read_stream, passes_on, ends_with,
}
use design.Candidates.Selection.{Source, serve-Source, Accounts, serve-Accounts}
use design.Candidates.Deadline.{chunk_after, is_silent, total, read_stream-deadline}

abbrev quiet : List Event
quiet = chunk_after 2 0 ∷ chunk_after 3 0 ∷ []

abbrev primary : Candidate
primary = streams (chunk_after 2 0 ∷ record { elapsed = 1; read = failure 7 } ∷ []) 1

abbrev fallback : Candidate
fallback = streams (chunk_after 2 5 ∷ chunk_after 9 6 ∷ record { elapsed = 1; read = stop } ∷ []) 1

abbrev both : List Candidate
both = primary ∷ fallback ∷ []

serve-both :
    serve 10 10 0 both
    ≡ record { chunks = 5 ∷ 6 ∷ []; selected = 1 ∷ []; failures = 7 ∷ []; outcome = returned }
unfolding serve
serve-both = refl

-- A primary model that has passed on a chunk before it fails is not replaced.
abbrev cut_off : Candidate
cut_off = streams (chunk_after 2 4 ∷ record { elapsed = 1; read = failure 7 } ∷ []) 1

serve-cut_off :
    serve 10 10 0 (cut_off ∷ fallback ∷ [])
    ≡ record { chunks = 4 ∷ []; selected = 0 ∷ []; failures = 7 ∷ []; outcome = raised 7 }
unfolding serve
serve-cut_off = refl

serve-breaks :
    serve 10 10 0 (breaks 3 ∷ fallback ∷ [])
    ≡ record { chunks = []; selected = []; failures = []; outcome = broken 3 }
unfolding serve
serve-breaks = refl

serve-Source_example : Source both 0 (serve 10 10 0 both)
serve-Source_example = serve-Source 10 10 0 both

serve-Accounts_example : Accounts both 0 (serve 10 10 0 both)
serve-Accounts_example = serve-Accounts 10 10 0 both refl

quiet-is_silent : is_silent quiet ≡ true
unfolding is_silent
quiet-is_silent = refl

read_stream-deadline_example :
    read_stream 10 8 false (chunk_after 2 0 ∷ chunk_after 3 0 ∷ chunk_after 4 5 ∷ []) ≡ (
      if ltb (total quiet + 4) 8
      then passes_on 5 (read_stream 10 10 true [])
      else ends_with false 0 late)
read_stream-deadline_example = read_stream-deadline 10 8 4 false 5 quiet [] quiet-is_silent refl
