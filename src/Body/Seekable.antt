-- ===== src/Body/Seekable.antt =====
-- What a body with Seek replays.
use cslb.Prelude.{ℕ, ◌≡◌, not, ℤ, pos, ◌≤ℤ◌, List, Option, none, some, length}
use cslb.Body.Attempts.{Use, AllServed}
use cslb.Body.{GetBody, Prepared}

-- The body is closed by prepareBody exactly on an error, and else by the cleanup; without an
-- error, the attempts are served with the rest. ContentLength stays what it was, or is brought down to the
-- length of the rest; if the end is known, it is at most that.
pub record IsSought (n : ℤ) (rest : List ℕ) (known : Option ℕ) (r : Prepared) : Type 0 where
  pub closes_once : r.cleanup_closes ≡ not r.closed
  pub replays :
      r.err ≡ none → (g : GetBody) × (r.get_body ≡ some g) × ((us : List Use) → AllServed rest us g)
  pub unknown : known ≡ none → r.content_length ≡ n
  pub bounded : r.err ≡ none → (e : ℕ) → known ≡ some e → r.content_length ≤ℤ pos (length rest)
  pub kept : n ≤ℤ pos (length rest) → r.content_length ≡ n
