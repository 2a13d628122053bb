-- ===== src/Bot/Load/Queue/Provisioned.antt =====
-- What the start of `paintRun` (internal/bot/paint.go) sends and queues for a list of placements.
use pixel_beetle.Prelude.{
  ℕ, ◌%◌, ◌^◌, ◌<◌, ◌≡◌, refl, ap, inl, inr, Bool, true, false, Option, none, some, List, [], ◌∷◌,
  map, length, arith, Option-cases,
}
use pixel_beetle.TbClient.External.{TbLib, TbServer}
use pixel_beetle.TbClient.Ids.{pixel_id}
use pixel_beetle.TbClient.Client.{TbError, ensure_accounts, fund}
use pixel_beetle.Bot.Blueprint.{Placement}
use pixel_beetle.Bot.Paint.{seeded}
use pixel_beetle.Bot.Load.Queue.{
  Start, refused, panicked, idle, unprovisioned, running, ordered_from, fund_pixels, provision,
  provisioned,
}

-- A pool that nobody has worked on: a job without attempts for each placement, in their order, and all
-- of them open. Without a placement there is no pool.
abbrev pub IsFresh : ℕ → List Placement → Start → Type 0
IsFresh workers ps refused = true ≡ false
IsFresh workers ps panicked = true ≡ false
IsFresh workers ps idle = ps ≡ []
IsFresh workers ps (unprovisioned e) = true ≡ false
IsFresh workers ps (running k pool) =
    (0 < length ps)
    × (k ≡ workers)
    × (pool.jobs ≡ map (λ p. record { p = p; attempts = 0 }) ps)
    × (pool.flying ≡ [])
    × (pool.waiting ≡ [])
    × (pool.remaining ≡ length ps)
    × (pool.done ≡ false)

ordered_from-IsFresh :
    (workers : ℕ) (ps : List Placement) → IsFresh workers ps (ordered_from workers ps)
unfolding seeded
ordered_from-IsFresh workers [] = refl
ordered_from-IsFresh workers (p ∷ ps) = (omega arith, refl, refl, refl, refl, refl, refl)

module _ {S : Type 0} (tb : TbLib) (server : TbServer S) where
  -- The pixels of placements funded in their order, up to the first error.
  pub data Funded : List Placement → S → Option TbError → S → Type 0 where
    all_funded : (s : S) → Funded [] s none s
    one_funded :
        (p : Placement) (ps : List Placement) (s s' s'' : S) (e : Option TbError)
        → fund tb server (p.x % 2 ^ 32) (p.y % 2 ^ 32) s ≡ (none, s')
        → Funded ps s' e s''
        → Funded (p ∷ ps) s e s''
    not_funded :
        (p : Placement) (ps : List Placement) (s s' : S) (e : TbError)
        → fund tb server (p.x % 2 ^ 32) (p.y % 2 ^ 32) s ≡ (some e, s')
        → Funded (p ∷ ps) s (some e) s'

  -- The accounts of placements.
  abbrev pub pixels_of : List Placement → List ℕ
  pixels_of ps = map (λ p. pixel_id tb (p.x % 2 ^ 32) (p.y % 2 ^ 32)) ps

  -- What a run does with its placements: with a client it asks for their accounts and then funds them, and
  -- an error ends it; what it then starts on has all of them.
  pub data IsProvisionedFor (workers : ℕ) (ps : List Placement)
      : Bool → S → Start × S → Type 0 where
    unfunded :
        (s : S) (st : Start) → IsFresh workers ps st → IsProvisionedFor workers ps false s (st, s)
    no_accounts :
        (s s' : S) (e : TbError)
        → ensure_accounts tb server (pixels_of ps) s ≡ (some e, s')
        → IsProvisionedFor workers ps true s (unprovisioned e, s')
    no_funds :
        (s s' s'' : S) (e : TbError)
        → ensure_accounts tb server (pixels_of ps) s ≡ (none, s')
        → Funded ps s' (some e) s''
        → IsProvisionedFor workers ps true s (unprovisioned e, s'')
    provided :
        (s s' s'' : S) (st : Start)
        → ensure_accounts tb server (pixels_of ps) s ≡ (none, s')
        → Funded ps s' none s''
        → IsFresh workers ps st
        → IsProvisionedFor workers ps true s (st, s'')

  fund_pixels-Funded :
      (ps : List Placement) (s : S)
      → Funded ps s (fund_pixels tb server ps s).0 (fund_pixels tb server ps s).1
  unfolding fund_pixels
  fund_pixels-Funded [] s = all_funded s
  fund_pixels-Funded (p ∷ ps) s =
      let r = fund tb server (p.x % 2 ^ 32) (p.y % 2 ^ 32) s in
      elim (Option-cases r.0) [
        | inl e ↦
            rw (fund_pixels, e)
              (one_funded p ps s r.1 _ _ (ap (λ o. (o, r.1)) e) (fund_pixels-Funded ps r.1))
        | inr (err, e) ↦ rw (fund_pixels, e) (not_funded p ps s r.1 err (ap (λ o. (o, r.1)) e))
      ]

  funding-IsProvisionedFor :
      (workers : ℕ) (ps : List Placement) (s s' s'' : S) (e : Option TbError)
      → ensure_accounts tb server (pixels_of ps) s ≡ (none, s')
      → Funded ps s' e s''
      → IsProvisionedFor workers ps true s (provisioned tb server workers ps (e, s''))
  funding-IsProvisionedFor workers ps s s' s'' none made paid =
      provided s s' s'' _ made paid (ordered_from-IsFresh workers ps)
  funding-IsProvisionedFor workers ps s s' s'' (some e) made paid = no_funds s s' s'' e made paid

  pub provisioned-IsProvisionedFor :
      (workers : ℕ) (direct : Bool) (ps : List Placement) (s : S)
      → IsProvisionedFor workers ps direct s
          (provisioned tb server workers ps (provision tb server direct ps s))
  unfolding provision
  provisioned-IsProvisionedFor workers false ps s = unfunded s _ (ordered_from-IsFresh workers ps)
  provisioned-IsProvisionedFor workers true ps s =
      let r = ensure_accounts tb server (pixels_of ps) s in
      elim (Option-cases r.0) [
        | inl e ↦
            rw (provision, e)
              (funding-IsProvisionedFor workers ps s r.1 _ _ (ap (λ o. (o, r.1)) e)
                (fund_pixels-Funded ps r.1))
        | inr (err, e) ↦ rw (provision, e) (no_accounts s r.1 err (ap (λ o. (o, r.1)) e))
      ]
