-- ===== src/Bot/Transport/Accepted.antt =====
-- An attempt of the bot at a free cell, where TigerBeetle accepts what is sent.
use pixel_beetle.Prelude.{
  ℕ, ◌<◌, ◌≤◌, ◌^◌, ◌≡◌, refl, sym, subst, inl, ◌||◌, true, false, Option, none, some, List, arith,
  ltb, leb, lookup,
}
use pixel_beetle.TbClient.External.{TbLib, TbServer, Transfer}
use pixel_beetle.TbClient.Transfers.{max_color}
use pixel_beetle.TbClient.Client.{TbError, submit_batch}
use pixel_beetle.Game.Anchors.{OnEvict}
use pixel_beetle.Game.Registry.{Lock, ClaimMeta, Registry, Superseded, pack, held_by_other, resolve}
use pixel_beetle.Game.Service.{
  World, ClaimResult, claimed, refused, claim_answered, claim_free, ensure_pixel,
  ensure_system_pool, claim,
}
use pixel_beetle.Game.Service.Claims.{IsWf, Claimed, claim_id, claim-Claimed, registry-ensure}
use pixel_beetle.Game.Resolution.{confirm_answered, confirm_resolved, confirm}
use pixel_beetle.Web.{hex_encode, claimed_answer, handle_claim}
use pixel_beetle.Bot.Paint.{confirmed}
use pixel_beetle.Bot.Transport.{try_placement, submit_reply, submit_claim_api, resolve_claim_api}
use pixel_beetle.Bot.Transport.Served.{
  WebLib, Readings, Session, player_of, kept, reply_of, serve, served_attempt,
}
use pixel_beetle.Bot.Transport.Attempts.{resolve-found, handle_confirm-hex_encode, player_of-kept}

module _ {S F : Type 0} (tb : TbLib) (server : TbServer S) where
  claim_answered_accepted :
      (id : ℕ) (m : ClaimMeta) (old : Option Superseded) (void_uuid : ℕ)
      → (a : Option TbError × S) (w : World S F) → a.0 ≡ none
      → (claim_answered tb server id m old void_uuid a w).1 ≡ claimed id
  unfolding claim_answered
  claim_answered_accepted id m old void_uuid (none, s) w h = refl
  claim_answered_accepted id m old void_uuid (some e, s) w h = absurd (ground (arith, h))

  confirm_answered_accepted :
      (on_evict : OnEvict F) (id : ℕ) (m : ClaimMeta) (now : ℕ) (a : Option TbError × S)
      (w : World S F)
      → a.0 ≡ none
      → (confirm_answered tb server on_evict id m now a w).1 ≡ none
  unfolding confirm_answered
  confirm_answered_accepted on_evict id m now (none, s) w h = refl
  confirm_answered_accepted on_evict id m now (some e, s) w h = absurd (ground (arith, h))

  module _ (accepts : (ts : List Transfer) (s : S) → (submit_batch tb server ts s).0 ≡ none) where
    claim_accepted :
        (player x y color now now' uuid void_uuid : ℕ) (w : World S F)
        → (x < w.svc.grid_w) × (y < w.svc.grid_h)
        → held_by_other now player (lookup (pack x y) w.svc.registry.locks) ≡ false
        → (claim tb server player x y color now now' uuid void_uuid w).1
          ≡ claimed (claim_id tb uuid (record { x = x; y = y; color = color; player = player }))
    unfolding claim claim_free
    claim_accepted player x y color now now' uuid void_uuid w inside free =
        let w' = ensure_pixel tb server x y (ensure_system_pool tb server w) in
        let within : (leb w.svc.grid_w x || leb w.svc.grid_h y) ≡ false = ground (arith, inside) in
        let same = registry-ensure tb server x y w in
        let open_cell : held_by_other now player (lookup (pack x y) w'.svc.registry.locks) ≡ false =
          subst (λ (r : Registry). held_by_other now player (lookup (pack x y) r.locks) ≡ false)
            (sym same) free in
        rw (within, open_cell) (claim_answered_accepted _ _ _ void_uuid _ _ (accepts _ _))

    confirm_accepted :
        (on_evict : OnEvict F) (player id now uuid uuid' : ℕ) (m : ClaimMeta) (w : World S F)
        → resolve player id w.svc.registry ≡ some m
        → (confirm tb server on_evict player id now uuid uuid' w).1 ≡ none
    unfolding confirm
    confirm_accepted on_evict player id now uuid uuid' m w found =
        rw (found, confirm_resolved) (confirm_answered_accepted on_evict id m now _ w (accepts _ _))

unheld :
    (now player : ℕ) (o : Option Lock)
    → ((l : Lock) → o ≡ some l → l.player ≡ player)
    → held_by_other now player o ≡ false
unheld now player none h = refl
unheld now player (some l) h = let own = h l refl in ground (arith, own)

claimed-Claimed :
    {S F : Type 0} (id : ℕ) (m : ClaimMeta) (now : ℕ) (r : Registry) (q : World S F × ClaimResult)
    → q.1 ≡ claimed id
    → Claimed id m now r q
    → lookup id q.0.svc.registry.claims ≡ some m
claimed-Claimed id m now r (w, claimed i) h (e, k) = k.entered
claimed-Claimed id m now r (w, refused e) h k = absurd (ground (arith, h))

module _ {S F : Type 0} (tb : TbLib) (server : TbServer S) (on_evict : OnEvict F) (lib : WebLib)
    (secret : List ℕ) (read_claim_id : List ℕ → Option (List ℕ)) (at at' : Readings)
    (accepts : (ts : List Transfer) (s : S) → (submit_batch tb server ts s).0 ≡ none) where
  confirming_accepted :
      (id : ℕ) (m : ClaimMeta) (s : Session S F)
      → (player_of lib secret at' s.jar).0 ≡ m.player
      → id < 256 ^ 16
      → lookup id s.world.svc.registry.claims ≡ some m
      → (resolve_claim_api (serve lib secret tb server on_evict at') true (hex_encode id) s).0
        ≡ none
  unfolding resolve_claim_api serve
  confirming_accepted id m s own below entered =
      let player = (player_of lib secret at' s.jar).0 in
      let nil =
        confirm_accepted tb server accepts on_evict player id at'.now at'.uuid at'.uuid' m s.world
          (resolve-found tb server on_evict player id m s.world.svc.registry (sym own) entered) in
      rw
        (
          handle_confirm-hex_encode tb server on_evict player id at'.now at'.uuid at'.uuid' s.world
              below,
          nil,
        )
        refl

  answered_accepted :
      (id : ℕ) (m : ClaimMeta) (jar : Option (List ℕ)) (q : World S F × ClaimResult)
      → q.1 ≡ claimed id
      → lookup id q.0.svc.registry.claims ≡ some m
      → ((t : List ℕ) → read_claim_id (lib.write_claim_id t) ≡ some t)
      → (player_of lib secret at' jar).0 ≡ m.player
      → id < 256 ^ 16
      → (try_placement (resolve_claim_api (serve lib secret tb server on_evict at') true) (
        submit_reply read_claim_id
            (some (reply_of lib secret (claimed_answer tb server on_evict q).1)),
        record { jar = jar; world = q.0 },
      )).0
        ≡ confirmed
  unfolding try_placement
  answered_accepted id m jar (w, refused e) h entered reads own below = absurd (ground (arith, h))
  answered_accepted id m jar (w, claimed i) h entered reads own below =
      let same : i ≡ id = ground (arith, h) in
      subst
        (λ j.
          (try_placement (resolve_claim_api (serve lib secret tb server on_evict at') true) (
            submit_reply read_claim_id
                (some (reply_of lib secret (claimed_answer tb server on_evict (w, claimed j)).1)),
            record { jar = jar; world = w },
          )).0
          ≡ confirmed)
        (sym same)
        (rw
          (
            reads (hex_encode id),
            confirming_accepted id m (record { jar = jar; world = w }) own below entered,
          )
          refl)

  -- An attempt over HTTP with no other request between its two, at a cell of the grid without a lock
  -- of another player, where TigerBeetle accepts all that is sent, the JSON of a claim id reads
  -- back, the printed fresh UUID parses, the color is at most 15, the tables satisfy their invariant
  -- and the id of the new claim is fresh and has 16 bytes, is confirmed.
  pub served_attempt-confirmed :
      (x y color : ℕ) (s : Session S F)
      → ((t : List ℕ) → read_claim_id (lib.write_claim_id t) ≡ some t)
      → lib.parse_uuid (lib.print_uuid at.fresh_player) ≡ some at.fresh_player
      → IsWf s.world.svc.registry
      → lookup
          (claim_id tb at.uuid
            (record { x = x; y = y; color = color; player = (player_of lib secret at s.jar).0 }))
          s.world.svc.registry.claims
        ≡ none
      → claim_id tb at.uuid
          (record { x = x; y = y; color = color; player = (player_of lib secret at s.jar).0 })
        < 256 ^ 16
      → (x < s.world.svc.grid_w) × (y < s.world.svc.grid_h)
      → color ≤ max_color
      → ((l : Lock)
          → lookup (pack x y) s.world.svc.registry.locks ≡ some l
          → l.player ≡ (player_of lib secret at s.jar).0)
      → (served_attempt lib secret tb server on_evict read_claim_id at at' x y color s).0
        ≡ confirmed
  unfolding submit_claim_api serve handle_claim
  served_attempt-confirmed x y color s reads parses wf fresh below inside in_range free =
      let player = (player_of lib secret at s.jar).0 in
      let m : ClaimMeta = record { x = x; y = y; color = color; player = player } in
      let q = claim tb server player x y color at.now at.now' at.uuid at.uuid' s.world in
      let result =
        claim_accepted tb server accepts player x y color at.now at.now' at.uuid at.uuid' s.world
          inside (unheld at.now player (lookup (pack x y) s.world.svc.registry.locks) free) in
      let done =
        claim-Claimed tb server player x y color at.now at.now' at.uuid at.uuid' s.world wf fresh
          (λ l e. inl (free l e)) in
      let known : ltb max_color color ≡ false = ground (arith, in_range) in
      rw known (
        answered_accepted (claim_id tb at.uuid m) m
          (kept lib secret s.jar (player_of lib secret at s.jar).1) q result
          (claimed-Claimed (claim_id tb at.uuid m) m at.now' s.world.svc.registry q result done)
          reads (player_of-kept tb server on_evict lib secret at at' s.jar parses) below)
