-- ===== src/Replay/Redelivery.antt =====
-- What the dedupe of `processBody` (internal/replay/replay.go) promises for redelivered messages.
use pixel_beetle.Prelude.{
  same_bytes_refl, ℕ, ◌≡◌, ◌≢◌, refl, inl, inr, true, false, Option, none, some, List, [], ◌∷◌,
  arith, Bool-cases,
}
use pixel_beetle.Game.Resolution.{Event}
use pixel_beetle.Replay.{Text, has, is_empty, process_parsed, process_body, consume}

module _ {W : Type 0} (parse : List ℕ → Option Event) (text : ℕ → Text)
    (apply : Event → W → W) where
  -- A message that leads to nothing any more: it does not parse, or its id was seen.
  abbrev IsSeen : List Text → Option Event → Type 0
  IsSeen seen none = Unit
  IsSeen seen (some ev) =
      (is_empty (text ev.transfer_id) ≡ false) × (has seen (text ev.transfer_id) ≡ true)

  AllSeen : List Text → List (List ℕ) → Type 0
  AllSeen seen [] = Unit
  AllSeen seen (body ∷ bodies) = IsSeen seen (parse body) × AllSeen seen bodies

  parsed_seen :
      (o : Option Event) (seen : List Text) (w : W)
      → IsSeen seen o
      → process_parsed parse text apply o (seen, w) ≡ (seen, w)
  parsed_seen none seen w h = refl
  parsed_seen (some ev) seen w h = rw (h.0, h.1) refl

  consume_seen :
      (bodies : List (List ℕ)) (seen : List Text) (w : W)
      → AllSeen seen bodies
      → consume parse text apply bodies (seen, w) ≡ (seen, w)
  unfolding consume process_body AllSeen
  consume_seen [] seen w h = refl
  consume_seen (body ∷ bodies) seen w h =
      rw (parsed_seen (parse body) seen w h.0) (consume_seen bodies seen w h.1)

  -- What was seen stays seen.
  has-parsed :
      (o : Option Event) (seen : List Text) (w : W) (key : Text)
      → has seen key ≡ true
      → has (process_parsed parse text apply o (seen, w)).0 key ≡ true
  unfolding has
  has-parsed none seen w key h = h
  has-parsed (some ev) seen w key h = elim (Bool-cases (is_empty (text ev.transfer_id))) [
    | inl unnamed ↦ rw unnamed h
    | inr named ↦ elim (Bool-cases (has seen (text ev.transfer_id))) [
      | inl dup ↦ rw (named, dup) h
      | inr new ↦ rw (named, new) (ground (arith, h))
    ]
  ]

  has-consume :
      (bodies : List (List ℕ)) (st : List Text × W) (key : Text)
      → has st.0 key ≡ true
      → has (consume parse text apply bodies st).0 key ≡ true
  unfolding consume process_body
  has-consume [] st key h = h
  has-consume (body ∷ bodies) st key h =
      has-consume bodies (process_parsed parse text apply (parse body) st) key
        (has-parsed (parse body) st.0 st.1 key h)

  -- The message itself is seen after it was handled, unless its id has no text.
  has_self :
      (ev : Event) (st : List Text × W)
      → is_empty (text ev.transfer_id) ≡ false
      → has (process_parsed parse text apply (some ev) st).0 (text ev.transfer_id) ≡ true
  unfolding has
  has_self ev st named = elim (Bool-cases (has st.0 (text ev.transfer_id))) [
    | inl dup ↦ rw (named, dup) dup
    | inr new ↦ rw (named, new) (ground (arith, same_bytes_refl (text ev.transfer_id)))
  ]

  is_empty_ne : (t : Text) → t ≢ [] → is_empty t ≡ false
  is_empty_ne [] h = absurd (h refl)
  is_empty_ne (c ∷ t) h = refl

  module _
      (named : (body : List ℕ) (ev : Event) → parse body ≡ some ev → text ev.transfer_id ≢ []) where
    handled-IsSeen :
        (body : List ℕ) (bodies : List (List ℕ)) (st : List Text × W) (o : Option Event)
        → parse body ≡ o
        → IsSeen (consume parse text apply bodies (process_parsed parse text apply o st)).0 o
    handled-IsSeen body bodies st none e = tt
    handled-IsSeen body bodies st (some ev) e =
        let filled = is_empty_ne (text ev.transfer_id) (named body ev e) in
        (
          filled,
          has-consume bodies (process_parsed parse text apply (some ev) st) (text ev.transfer_id)
              (has_self ev st filled),
        )

    consume-AllSeen :
        (bodies : List (List ℕ)) (st : List Text × W)
        → AllSeen (consume parse text apply bodies st).0 bodies
    unfolding consume process_body AllSeen
    consume-AllSeen [] st = tt
    consume-AllSeen (body ∷ bodies) st = (
      handled-IsSeen body bodies st (parse body) refl,
      consume-AllSeen bodies (process_parsed parse text apply (parse body) st),
    )

    -- Where every message that parses has an id with a text: when all messages of a connection are
    -- delivered once more on it, in their order, the second round leaves the sink and the ids that
    -- were seen as they are, whatever the sink and the parser.
    pub consume-consume :
        (bodies : List (List ℕ)) (st : List Text × W)
        → consume parse text apply bodies (consume parse text apply bodies st)
          ≡ consume parse text apply bodies st
    consume-consume bodies st =
        let st' = consume parse text apply bodies st in
        consume_seen bodies st'.0 st'.1 (consume-AllSeen bodies st)
