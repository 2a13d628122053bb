-- ===== src/Web/Player.antt =====
-- internal/web/render.go: the signed cookie that names a player. Strings are lists of bytes. A UUID is
-- its number; its printer, its parser and HMAC-SHA256 are parameters.
pub mod Signature
use mathlib.Core.List.{◌++◌}
use pixel_beetle.Prelude.{
  ℕ, ◌==◌, ◌/◌, ◌%◌, ◌≡◌, ◌↔◌, refl, sym, ap, ◌∙◌, inl, inr, true, false, Option, none, some, List,
  [], ◌∷◌, if◌then◌else◌, arith, Bool-cases, Option-cases, same_bytes, same_bytes_refl, hex_digit,
  take,
}

-- `hex.EncodeToString`
unfoldable pub hex_bytes : List ℕ → List ℕ
hex_bytes [] = []
hex_bytes (b ∷ s) = hex_digit (b / 16) ∷ hex_digit (b % 16) ∷ hex_bytes s

abbrev pub cons_left : ℕ → List ℕ × List ℕ → List ℕ × List ℕ
cons_left b (p, q) = (b ∷ p, q)

-- The texts before and behind the last `c`: `strings.LastIndexByte` and the two slices.
unfoldable pub split_last : ℕ → List ℕ → Option (List ℕ × List ℕ)
split_last c [] = none
split_last c (b ∷ s) = elim (split_last c s) [
  | some r ↦ some (cons_left b r)
  | none ↦ if b == c then some ([], s) else none
]

module _ (print_uuid : ℕ → List ℕ) (parse_uuid : List ℕ → Option ℕ)
    (hmac_sha256 : List ℕ → List ℕ → List ℕ) where
  abbrev pub hmac_tag : List ℕ → ℕ → List ℕ
  hmac_tag secret id = take 16 (hmac_sha256 secret (print_uuid id))

  -- 58 is the colon.
  abbrev pub sign_player : List ℕ → ℕ → List ℕ
  sign_player secret id = print_uuid id ++ 58 ∷ hex_bytes (hmac_tag secret id)

  abbrev pub check_tag : List ℕ → List ℕ → Option ℕ → Option ℕ
  check_tag secret tag none = none
  check_tag secret tag (some u) =
      if same_bytes (hex_bytes (hmac_tag secret u)) tag then some u else none

  abbrev pub verify_parts : List ℕ → Option (List ℕ × List ℕ) → Option ℕ
  verify_parts secret none = none
  verify_parts secret (some (canonical, tag)) = check_tag secret tag (parse_uuid canonical)

  abbrev pub verify_player : List ℕ → List ℕ → Option ℕ
  verify_player secret raw = verify_parts secret (split_last 58 raw)

  abbrev pub verified_or_fresh : List ℕ → ℕ → Option ℕ → ℕ × Option (List ℕ)
  verified_or_fresh secret fresh (some u) = (u, none)
  verified_or_fresh secret fresh none = (fresh, some (sign_player secret fresh))

  -- The player of a request with a cookie or without, and the cookie that the response sets.
  abbrev pub player_from_cookie : List ℕ → ℕ → Option (List ℕ) → ℕ × Option (List ℕ)
  player_from_cookie secret fresh none = verified_or_fresh secret fresh none
  player_from_cookie secret fresh (some raw) =
      verified_or_fresh secret fresh (verify_player secret raw)
