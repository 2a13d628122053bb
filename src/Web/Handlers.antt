-- ===== src/Web/Handlers.antt =====
-- What the claim endpoints of internal/web/server.go answer, together with the service behind them.
use pixel_beetle.Prelude.{
  ℕ, ◌^◌, ◌<◌, ◌≡◌, ◌≢◌, refl, sym, ap, subst, ◌∙◌, ◌⊎◌, inl, inr, Option, none, some, List, arith,
  ltb, ◌==◌, if◌then◌else◌, Bool-cases, lookup, bytes_of_hex, hex_of_bytes,
  bytes_of_hex-hex_of_bytes, length-hex_of_bytes,
}
use pixel_beetle.TbClient.External.{TbLib, TbServer}
use pixel_beetle.TbClient.Transfers.{max_color}
use pixel_beetle.TbClient.Client.{TbError, pixel_locked, claim_expired, transport, rejected}
use pixel_beetle.Game.Anchors.{OnEvict}
use pixel_beetle.Game.Registry.{Lock, ClaimMeta, Registry, pack, resolve}
use pixel_beetle.Game.Registry.Rollback.{Agrees}
use pixel_beetle.Game.Service.{
  World, GameError, out_of_bounds, locked_by_other, unknown_claim, client, ClaimResult, claimed,
  refused, claim,
}
use pixel_beetle.Game.Service.Claims.{IsWf, Claimed, Agrees-refl, claim_id, claim-Claimed}
use pixel_beetle.Game.Resolution.{
  confirm, cancel, confirm_answered, cancel_answered, confirm_resolved, cancel_resolved,
}
use pixel_beetle.Game.Resolution.Painting.{resolution_needs_owner}
use pixel_beetle.Web.{
  ClaimRequest, Response, answer, hex_encode, parse_claim_id, claim_response, client_status,
  resolved_response, claimed_answer, resolved_answer, handle_claim, confirm_parsed, handle_confirm,
  cancel_parsed, handle_cancel,
}

-- The text of an id is 32 digits and reads back as the id.
pub parse_claim_id-hex_encode : (id : ℕ) → id < 256 ^ 16 → parse_claim_id (hex_encode id) ≡ some id
unfolding parse_claim_id hex_encode
parse_claim_id-hex_encode id h =
    ap (λ n. if n == 32 then bytes_of_hex (hex_of_bytes 16 id) else none)
      (length-hex_of_bytes 16 id)
    ∙ bytes_of_hex-hex_of_bytes 16 id h

-- Done, gone with the claim window, or a failure of TigerBeetle.
abbrev pub IsSettled : ℕ → Type 0
IsSettled n = (n ≡ 204) ⊎ ((n ≡ 410) ⊎ (n ≡ 500))

client_status-IsSettled : (e : TbError) → IsSettled (client_status e)
client_status-IsSettled pixel_locked = inr (inr refl)
client_status-IsSettled claim_expired = inr (inl refl)
client_status-IsSettled transport = inr (inr refl)
client_status-IsSettled rejected = inr (inr refl)

pub refused_status : (e : GameError) → (claim_response (refused e)).status ≢ 200
refused_status out_of_bounds h = absurd (omega (arith, h))
refused_status locked_by_other h = absurd (omega (arith, h))
refused_status unknown_claim h = absurd (omega (arith, h))
refused_status (client e) h = absurd (omega (arith, h))

refused_text : (e : GameError) → (claim_response (refused e)).claim_id ≡ none
refused_text out_of_bounds = refl
refused_text locked_by_other = refl
refused_text unknown_claim = refl
refused_text (client e) = refl

module _ {S F : Type 0} (tb : TbLib) (server : TbServer S) (on_evict : OnEvict F) where
  confirm_answered-IsSettled :
      (id : ℕ) (m : ClaimMeta) (now : ℕ) (a : Option TbError × S) (w : World S F)
      → IsSettled (resolved_response (confirm_answered tb server on_evict id m now a w).1).status
  unfolding confirm_answered
  confirm_answered-IsSettled id m now (none, s) w = inl refl
  confirm_answered-IsSettled id m now (some e, s) w = client_status-IsSettled e

  cancel_answered-IsSettled :
      (id : ℕ) (m : ClaimMeta) (a : Option TbError × S) (w : World S F)
      → IsSettled (resolved_response (cancel_answered tb server on_evict id m a w).1).status
  unfolding cancel_answered
  cancel_answered-IsSettled id m (none, s) w = inl refl
  cancel_answered-IsSettled id m (some e, s) w = client_status-IsSettled e

  -- What the endpoints do with the text `s` of a claim of `player` in the world `w`: they settle it
  -- for that player, and for another player they answer 404 and change nothing.
  abbrev pub IsOwned : ℕ → List ℕ → World S F → Type 0
  IsOwned player s w =
      ((now uuid uuid' : ℕ)
        → IsSettled (handle_confirm tb server on_evict player (some s) now uuid uuid' w).1.status)
      × ((uuid : ℕ) → IsSettled (handle_cancel tb server on_evict player (some s) uuid w).1.status)
      × ((other now uuid uuid' : ℕ)
          → other ≢ player
          → (handle_confirm tb server on_evict other (some s) now uuid uuid' w ≡ (w, answer 404))
            × (handle_cancel tb server on_evict other (some s) uuid w ≡ (w, answer 404)))

  entered-IsOwned :
      (id : ℕ) (m : ClaimMeta) (w : World S F)
      → id < 256 ^ 16
      → lookup id w.svc.registry.claims ≡ some m
      → IsOwned m.player (hex_encode id) w
  unfolding handle_confirm handle_cancel confirm cancel resolve
  entered-IsOwned id m w h e =
      let parsed = parse_claim_id-hex_encode id h in
      let own : resolve m.player id w.svc.registry ≡ some m = ground (arith, e) in
      (
        λ now uuid uuid'.
            subst
              (λ o.
                IsSettled (confirm_parsed tb server on_evict m.player o now uuid uuid' w).1.status)
              (sym parsed)
              (subst
                (λ o.
                  IsSettled
                    (resolved_response
                      (confirm_resolved tb server on_evict id now uuid uuid' o w).1).status)
                (sym own) (confirm_answered-IsSettled id m now _ w)),
        λ uuid.
            subst (λ o. IsSettled (cancel_parsed tb server on_evict m.player o uuid w).1.status)
              (sym parsed)
              (subst
                (λ o.
                  IsSettled
                    (resolved_response (cancel_resolved tb server on_evict id uuid o w).1).status)
                (sym own) (cancel_answered-IsSettled id m _ w)),
        λ other now uuid uuid' ne.
            let foreign =
              resolution_needs_owner tb server on_evict other id now uuid uuid' w
                (λ m' e' same. ne (sym (ground (arith, e, e', same)))) in
            (
              ap (λ o. confirm_parsed tb server on_evict other o now uuid uuid' w) parsed
                  ∙ ap (resolved_answer tb server on_evict) foreign.0,
              ap (λ o. cancel_parsed tb server on_evict other o uuid w) parsed
                  ∙ ap (resolved_answer tb server on_evict) foreign.1,
            ),
      )

  -- The answer to a claim, by its status: with 200 comes the text of a claim that is its player's,
  -- with any other one no text, and the tables are as they were.
  abbrev pub IsAnswered : ℕ → Registry → World S F × Response → Type 0
  IsAnswered player r (w, a) =
      ((a.status ≡ 200) × ((s : List ℕ) × (a.claim_id ≡ some s) × IsOwned player s w))
      ⊎ ((a.status ≢ 200) × (a.claim_id ≡ none) × Agrees w.svc.registry r)

  claimed_answer-IsAnswered :
      (id : ℕ) (m : ClaimMeta) (now : ℕ) (r : Registry) (q : World S F × ClaimResult)
      → id < 256 ^ 16
      → Claimed id m now r q
      → IsAnswered m.player r (claimed_answer tb server on_evict q)
  claimed_answer-IsAnswered id m now r (w, claimed i) h (same, c) = inl (
    refl,
    (
      hex_encode i,
      refl,
      subst (λ j. IsOwned m.player (hex_encode j) w) (sym same)
          (entered-IsOwned id m w h c.entered),
    ),
  )
  claimed_answer-IsAnswered id m now r (w, refused e) h c =
      inr (refused_status e, refused_text e, c)

  -- A claim request, with no other request between the critical sections of `Claim`, on tables that
  -- satisfy their invariant, under a fresh id of 16 bytes and at a cell where no other player's
  -- expired lock is left: with 200 comes the text of a claim that only its player can confirm
  -- or cancel; any other status comes without a text, and every entry of the tables is as it was.
  pub handle_claim-IsAnswered :
      (player : ℕ) (req : ClaimRequest) (now now' uuid void_uuid : ℕ) (w : World S F)
      → IsWf w.svc.registry
      → lookup
          (claim_id tb uuid (record { x = req.x; y = req.y; color = req.color; player = player }))
          w.svc.registry.claims
        ≡ none
      → claim_id tb uuid (record { x = req.x; y = req.y; color = req.color; player = player })
        < 256 ^ 16
      → ((l : Lock)
          → lookup (pack req.x req.y) w.svc.registry.locks ≡ some l
          → (l.player ≡ player) ⊎ (now < l.expires))
      → IsAnswered player w.svc.registry
          (handle_claim tb server on_evict player (some req) now now' uuid void_uuid w)
  unfolding handle_claim
  handle_claim-IsAnswered player req now now' uuid void_uuid w wf fresh below free =
      let m : ClaimMeta = record { x = req.x; y = req.y; color = req.color; player = player } in
      elim (Bool-cases (ltb max_color req.color)) [
        | inl t ↦
            rw (handle_claim, t)
              (inr (λ e. absurd (omega (arith, e)), refl, Agrees-refl w.svc.registry))
        | inr t ↦
            rw (handle_claim, t)
              (claimed_answer-IsAnswered (claim_id tb uuid m) m now' w.svc.registry
                (claim tb server player req.x req.y req.color now now' uuid void_uuid w) below
                (claim-Claimed tb server player req.x req.y req.color now now' uuid void_uuid w wf
                  fresh free))
      ]
