-- ===== src/Replay.antt =====
-- The consumer of the change stream, internal/replay/replay.go: the handling of a message, the loop
-- over the deliveries of one connection, and the waits between connections. The sink is a function on
-- a state `W`. ParseMessage and the text of a transfer id are arguments: a text is the list of its bytes,
-- and `none` is an error of the parser.
pub mod Redelivery
pub mod Backoff
pub mod Parse
mod Tests
use pixel_beetle.Prelude.{
  ℕ, zero, suc, ◌*◌, Bool, true, false, ◌&&◌, ◌||◌, Option, none, some, List, [], ◌∷◌, ltb, ◌==◌,
  if◌then◌else◌, same_bytes,
}
use pixel_beetle.Game.Resolution.{Event}

abbrev pub Text : Type 0
Text = List ℕ

-- `_, dup := seen[key]`
unfoldable pub has : List Text → Text → Bool
has [] key = false
has (k ∷ seen) key = same_bytes k key || has seen key

abbrev pub is_empty : Text → Bool
is_empty [] = true
is_empty (c ∷ t) = false

module _ {W : Type 0} (parse : List ℕ → Option Event) (text : ℕ → Text)
    (apply : Event → W → W) where
  abbrev pub deliver : Event → Text → List Text × W → List Text × W
  deliver ev key (seen, w) =
      if is_empty key
      then (seen, apply ev w)
      else if has seen key
      then (seen, w)
      else (key ∷ seen, apply ev w)

  abbrev pub process_parsed : Option Event → List Text × W → List Text × W
  process_parsed none st = st
  process_parsed (some ev) st = deliver ev (text ev.transfer_id) st

  unfoldable pub process_body : List ℕ → List Text × W → List Text × W
  process_body body st = process_parsed (parse body) st

  -- The deliveries of one connection.
  unfoldable pub consume : List (List ℕ) → List Text × W → List Text × W
  unfolding process_body
  consume [] st = st
  consume (body ∷ bodies) st = consume bodies (process_body body st)

abbrev pub reconnect_backoff_min : ℕ
reconnect_backoff_min = 1_000_000_000

abbrev pub reconnect_backoff_max : ℕ
reconnect_backoff_max = 30_000_000_000

abbrev pub next_backoff : ℕ → ℕ
next_backoff backoff = if ltb backoff reconnect_backoff_max then backoff * 2 else backoff

-- The wait after the connection number `n`, from 0, was lost.
unfoldable pub backoff_after : ℕ → ℕ
backoff_after zero = reconnect_backoff_min
backoff_after (suc n) = next_backoff (backoff_after n)
