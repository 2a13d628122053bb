-- ===== src/Web/Player/Signature.antt =====
-- Which cookies the player of a request has (internal/web/render.go).
use mathlib.Core.List.{◌++◌}
use pixel_beetle.Prelude.{
  ℕ, ◌≡◌, ◌↔◌, refl, sym, ap, ◌∙◌, inl, inr, true, Option, none, some, List, [], ◌∷◌, if◌then◌else◌,
  arith, Bool-cases, Option-cases, same_bytes, same_bytes_refl,
}
use pixel_beetle.Web.Player.{
  hex_bytes, split_last, hmac_tag, sign_player, check_tag, verify_parts, verify_player,
  verified_or_fresh, player_from_cookie,
}

split_last-hex_bytes : (s : List ℕ) → split_last 58 (hex_bytes s) ≡ none
unfolding hex_bytes split_last
split_last-hex_bytes [] = refl
split_last-hex_bytes (b ∷ s) = ground (arith, split_last-hex_bytes s)

abbrev join_at : ℕ → List ℕ × List ℕ → List ℕ
join_at c (p, q) = p ++ c ∷ q

-- The last colon of a text with a text behind it that has none is the one between them.
split_last-append :
    (c : ℕ) (p q : List ℕ) → split_last c q ≡ none → split_last c (p ++ c ∷ q) ≡ some (p, q)
unfolding split_last
split_last-append c [] q h = ground (arith, h)
split_last-append c (b ∷ p) q h = ground (arith, split_last-append c p q h)

join_at-split_last :
    (c : ℕ) (s : List ℕ) (r : List ℕ × List ℕ) → split_last c s ≡ some r → s ≡ join_at c r
unfolding split_last
join_at-split_last c [] r h = ground (arith, h)
join_at-split_last c (b ∷ s) r h = elim (Option-cases (split_last c s)) [
  | inl e ↦ ground (arith, h, e)
  | inr ((p, q), e) ↦ ground (arith, h, e, join_at-split_last c s (p, q) e)
]

same_bytes-true : (s t : List ℕ) → same_bytes s t ≡ true → s ≡ t
same_bytes-true [] [] h = refl
same_bytes-true [] (c ∷ t) h = ground (arith, h)
same_bytes-true (b ∷ s) [] h = ground (arith, h)
same_bytes-true (b ∷ s) (c ∷ t) h = ground (arith, h, same_bytes-true s t)

module _ (print_uuid : ℕ → List ℕ) (parse_uuid : List ℕ → Option ℕ)
    (hmac_sha256 : List ℕ → List ℕ → List ℕ) where
  -- `raw` is a text that parses as the player `u`, a colon, and the tag of `u` under the secret.
  abbrev pub IsSigned : List ℕ → List ℕ → ℕ → Type 0
  IsSigned secret raw u =
      (canonical : List ℕ) × (parse_uuid canonical ≡ some u)
      × (raw ≡ canonical ++ 58 ∷ hex_bytes (hmac_tag print_uuid parse_uuid hmac_sha256 secret u))

  verify_player-tagged :
      (secret raw : List ℕ) (u : ℕ)
      → IsSigned secret raw u
      → verify_player print_uuid parse_uuid hmac_sha256 secret raw ≡ some u
  verify_player-tagged secret raw u (canonical, e, e') =
      let tag = hex_bytes (hmac_tag print_uuid parse_uuid hmac_sha256 secret u) in
      let parts =
        split_last-append 58 canonical tag
          (split_last-hex_bytes (hmac_tag print_uuid parse_uuid hmac_sha256 secret u)) in
      ap (verify_player print_uuid parse_uuid hmac_sha256 secret) e'
      ∙ (ap (verify_parts print_uuid parse_uuid hmac_sha256 secret) parts
          ∙ (ap (check_tag print_uuid parse_uuid hmac_sha256 secret tag) e
              ∙ ap (λ t. if t then some u else none) (same_bytes_refl tag)))

  check_tag-some :
      (secret tag : List ℕ) (o : Option ℕ) (u : ℕ)
      → check_tag print_uuid parse_uuid hmac_sha256 secret tag o ≡ some u
      → (o ≡ some u) × (hex_bytes (hmac_tag print_uuid parse_uuid hmac_sha256 secret u) ≡ tag)
  check_tag-some secret tag none u h = absurd (ground (arith, h))
  check_tag-some secret tag (some u') u h =
      elim (Bool-cases
        (same_bytes (hex_bytes (hmac_tag print_uuid parse_uuid hmac_sha256 secret u')) tag)) [
          | inl e ↦
              let same : some u' ≡ some u = sym (ap (λ t. if t then some u' else none) e) ∙ h in
              let texts =
                same_bytes-true (hex_bytes (hmac_tag print_uuid parse_uuid hmac_sha256 secret u'))
                  tag e in
              let players : u ≡ u' = ground (arith, same) in
              (
                same,
                ap (λ i. hex_bytes (hmac_tag print_uuid parse_uuid hmac_sha256 secret i)) players
                    ∙ texts,
              )
          | inr e ↦
              let never : none ≡ some u = sym (ap (λ t. if t then some u' else none) e) ∙ h in
              absurd (ground (arith, never))
        ]

  verify_player_parts :
      (secret raw : List ℕ) (u : ℕ)
      → verify_player print_uuid parse_uuid hmac_sha256 secret raw ≡ some u
      → IsSigned secret raw u
  verify_player_parts secret raw u h = elim (Option-cases (split_last 58 raw)) [
    | inl e ↦
        absurd
          (ground (arith, sym h ∙ ap (verify_parts print_uuid parse_uuid hmac_sha256 secret) e))
    | inr ((canonical, tag), e) ↦
        let checked =
          check_tag-some secret tag (parse_uuid canonical) u
            (sym (ap (verify_parts print_uuid parse_uuid hmac_sha256 secret) e) ∙ h) in
        (
          canonical,
          checked.0,
          join_at-split_last 58 raw (canonical, tag) e
              ∙ ap (λ t. canonical ++ 58 ∷ t) (sym checked.1),
        )
  ]

  -- verifyPlayer accepts a cookie as a player exactly where the cookie is a text that parses as the
  -- player, a colon, and the tag of the player under the secret.
  pub verify_player-IsSigned :
      (secret raw : List ℕ) (u : ℕ)
      → (verify_player print_uuid parse_uuid hmac_sha256 secret raw ≡ some u)
        ↔ IsSigned secret raw u
  verify_player-IsSigned secret raw u =
      (verify_player_parts secret raw u, verify_player-tagged secret raw u)

  -- The cookie that a client holds after a response.
  abbrev pub kept_cookie : Option (List ℕ) → Option (List ℕ) → Option (List ℕ)
  kept_cookie held none = held
  kept_cookie held (some raw) = some raw

  verify_player-sign_player :
      (secret : List ℕ) (id : ℕ)
      → parse_uuid (print_uuid id) ≡ some id
      → verify_player print_uuid parse_uuid hmac_sha256 secret
          (sign_player print_uuid parse_uuid hmac_sha256 secret id)
        ≡ some id
  verify_player-sign_player secret id h =
      verify_player-tagged secret (sign_player print_uuid parse_uuid hmac_sha256 secret id) id
        (print_uuid id, h, refl)

  kept_cookie_lem :
      (secret : List ℕ) (fresh fresh' : ℕ) (raw : List ℕ) (o : Option ℕ)
      → verify_player print_uuid parse_uuid hmac_sha256 secret raw ≡ o
      → parse_uuid (print_uuid fresh) ≡ some fresh
      → player_from_cookie print_uuid parse_uuid hmac_sha256 secret fresh' (
          kept_cookie
            (some raw)
            (verified_or_fresh print_uuid parse_uuid hmac_sha256 secret fresh o).1)
        ≡ ((verified_or_fresh print_uuid parse_uuid hmac_sha256 secret fresh o).0, none)
  kept_cookie_lem secret fresh fresh' raw none e h =
      ap (verified_or_fresh print_uuid parse_uuid hmac_sha256 secret fresh')
        (verify_player-sign_player secret fresh h)
  kept_cookie_lem secret fresh fresh' raw (some u) e h =
      ap (verified_or_fresh print_uuid parse_uuid hmac_sha256 secret fresh') e

  -- A client that sends what it holds after a response is the player of that response again, and no
  -- new cookie is set, whatever it sent first, where the parser reads back the printed fresh UUID.
  pub player_from_cookie-kept_cookie :
      (secret : List ℕ) (fresh fresh' : ℕ) (cookie : Option (List ℕ))
      → parse_uuid (print_uuid fresh) ≡ some fresh
      → player_from_cookie print_uuid parse_uuid hmac_sha256 secret fresh' (
          kept_cookie cookie
            (player_from_cookie print_uuid parse_uuid hmac_sha256 secret fresh cookie).1)
        ≡ ((player_from_cookie print_uuid parse_uuid hmac_sha256 secret fresh cookie).0, none)
  player_from_cookie-kept_cookie secret fresh fresh' none h =
      ap (verified_or_fresh print_uuid parse_uuid hmac_sha256 secret fresh')
        (verify_player-sign_player secret fresh h)
  player_from_cookie-kept_cookie secret fresh fresh' (some raw) h =
      kept_cookie_lem secret fresh fresh' raw
        (verify_player print_uuid parse_uuid hmac_sha256 secret raw) refl h
