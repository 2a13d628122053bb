-- ===== src/TbClient/Batches/Coverage.antt =====
-- What `EnsureAllPixels` (internal/tbclient/tbclient.go) sends: the whole grid, in order, in batches
-- that fit into a request.
use pixel_beetle.Prelude.{
  ℕ, ◌+◌, ◌*◌, ◌^◌, ◌≤◌, ◌<◌, ◌≡◌, refl, sym, subst, ap, inl, inr, false, Option, none, some, List,
  [], ◌∷◌, ◌++◌, ◌==◌, arith, Bool-cases, Option-cases, length, length-append,
}
use pixel_beetle.TbClient.External.{TbLib, TbServer}
use pixel_beetle.TbClient.Client.{TbError, create_accounts, submit_fund_batch, ensure_accounts}
use pixel_beetle.TbClient.Batches.{
  batch_size, flush, batch_loop, indices, grid_ids, grid_funds, fund_all, create_all,
  ensure_all_pixels,
}
use pixel_beetle.TbClient.Batches.Grid.{cell_ids, cell_funds, grid_row_major}

++-assoc {ℓ} : {X : Type ℓ} (xs ys zs : List X) → (xs ++ ys) ++ zs ≡ xs ++ (ys ++ zs)
++-assoc [] ys zs = refl
++-assoc (x ∷ xs) ys zs = ap (λ l. x ∷ l) (++-assoc xs ys zs)

append_nil {ℓ} : {X : Type ℓ} (xs : List X) → xs ++ [] ≡ xs
append_nil [] = refl
append_nil (x ∷ xs) = ap (λ l. x ∷ l) (append_nil xs)

-- The items of a list sent in their order, in batches that are not empty and fit into a request, up
-- to the first error.
pub data Batched {S X : Type 0} (send : List X → S → Option TbError × S)
    : List X → S → Option TbError × S → Type 0 where
  all_sent : (s : S) → Batched send [] s (none, s)
  sent :
      (batch rest : List X) (s s' : S) (r : Option TbError × S)
      → 0 < length batch
      → length batch ≤ batch_size
      → send batch s ≡ (none, s')
      → Batched send rest s' r
      → Batched send (batch ++ rest) s r
  refused :
      (batch rest : List X) (s s' : S) (e : TbError)
      → 0 < length batch
      → length batch ≤ batch_size
      → send batch s ≡ (some e, s')
      → Batched send (batch ++ rest) s (some e, s')

batch_size_positive : 0 < batch_size
unfolding batch_size
batch_size_positive = omega arith

module _ {S X : Type 0} (send : List X → S → Option TbError × S) where
  -- One batch, with what is then done with the rest.
  step-Batched :
      (batch rest : List X) (s : S)
      → 0 < length batch
      → length batch ≤ batch_size
      → (r : Option TbError × S)
      → ((e : TbError) → (send batch s).0 ≡ some e → r ≡ (some e, (send batch s).1))
      → ((send batch s).0 ≡ none → Batched send rest (send batch s).1 r)
      → Batched send (batch ++ rest) s r
  step-Batched batch rest s positive fits r failed went =
      let s' = (send batch s).1 in
      elim (Option-cases (send batch s).0) [
        | inl ok ↦ sent batch rest s s' r positive fits (ap (λ e. (e, s')) ok) (went ok)
        | inr (e, bad) ↦
            subst (Batched send (batch ++ rest) s) (sym (failed e bad))
              (refused batch rest s s' e positive fits (ap (λ x. (x, s')) bad))
      ]

  flush-Batched :
      (batch : List X) (s : S)
      → length batch ≤ batch_size
      → Batched send batch s (flush send batch s)
  flush-Batched [] s h = all_sent s
  flush-Batched (x ∷ batch) s h =
      subst (λ l. Batched send l s (send (x ∷ batch) s)) (append_nil (x ∷ batch))
        (step-Batched (x ∷ batch) [] s (omega arith) h (send (x ∷ batch) s)
          (λ e bad. ap (λ o. (o, (send (x ∷ batch) s).1)) bad)
          (λ ok.
            subst (Batched send [] (send (x ∷ batch) s).1)
              (sym (ap (λ o. (o, (send (x ∷ batch) s).1)) ok)) (all_sent _)))

  batch_loop-Batched :
      (batch xs : List X) (s : S)
      → length batch < batch_size
      → Batched send (batch ++ xs) s (batch_loop send batch xs s)
  unfolding batch_loop
  batch_loop-Batched batch [] s h =
      subst (λ l. Batched send l s (flush send batch s)) (sym (append_nil batch))
        (flush-Batched batch s (omega (arith, h)))
  batch_loop-Batched batch (x ∷ xs) s h =
      let b = batch ++ x ∷ [] in
      let count : length b ≡ length batch + 1 = length-append batch (x ∷ []) in
      subst (λ l. Batched send l s (batch_loop send batch (x ∷ xs) s)) (++-assoc batch (x ∷ []) xs)
        (elim (Bool-cases (length b == batch_size)) [
          | inr room ↦
              rw (room, batch_loop) (batch_loop-Batched b xs s (ground (arith, count, room)))
          | inl full ↦
              rw (full, batch_loop)
                (step-Batched b xs s (ground (arith, count)) (ground (arith, full)) _
                  (λ e bad. rw (bad, batch_loop) refl)
                  (λ ok.
                    rw (ok, batch_loop)
                      (batch_loop-Batched [] xs (send b s).1 batch_size_positive)))
        ])

module _ {S : Type 0} (tb : TbLib) (server : TbServer S) (w h : ℕ) where
  -- What a call of `EnsureAllPixels` may do: the system pool first, then the accounts, then the
  -- funds, each only after the one before it succeeded.
  pub data IsProvisioned : S → Option TbError × S → Type 0 where
    pool_failed :
        (s s' : S) (e : TbError)
        → ensure_accounts tb server [] s ≡ (some e, s')
        → IsProvisioned s (some e, s')
    accounts_failed :
        (s s' s'' : S) (e : TbError)
        → ensure_accounts tb server [] s ≡ (none, s')
        → Batched (create_accounts tb server false) (cell_ids tb w h) s' (some e, s'')
        → IsProvisioned s (some e, s'')
    funds_sent :
        (s s' s'' : S) (r : Option TbError × S)
        → ensure_accounts tb server [] s ≡ (none, s')
        → Batched (create_accounts tb server false) (cell_ids tb w h) s' (none, s'')
        → Batched (submit_fund_batch tb server) (cell_funds tb w h) s'' r
        → IsProvisioned s r

module _ {S : Type 0} (tb : TbLib) (server : TbServer S) (w h : ℕ) (below : w * h ≤ 2 ^ 32) where
  created-IsProvisioned :
      (s s' : S) (r : Option TbError × S)
      → ensure_accounts tb server [] s ≡ (none, s')
      → Batched (create_accounts tb server false) (cell_ids tb w h) s' r
      → IsProvisioned tb server w h s (fund_all tb server w (w * h) r)
  created-IsProvisioned s s' (some e, s'') pool accounts = accounts_failed s s' s'' e pool accounts
  created-IsProvisioned s s' (none, s'') pool accounts = funds_sent s s' s'' _ pool accounts (
      subst
        (λ l.
          Batched (submit_fund_batch tb server) l s'' (fund_all tb server w (w * h) (none, s'')))
        (grid_row_major tb w h below).1
        (batch_loop-Batched (submit_fund_batch tb server) [] (grid_funds tb w (indices 0 (w * h)))
          s'' batch_size_positive))

  pool-IsProvisioned :
      (s : S) (r : Option TbError × S)
      → ensure_accounts tb server [] s ≡ r
      → IsProvisioned tb server w h s
          (fund_all tb server w (w * h) (create_all tb server w (w * h) r))
  pool-IsProvisioned s (some e, s') pool = pool_failed s s' e pool
  pool-IsProvisioned s (none, s') pool = created-IsProvisioned s s' _ pool (
      subst
        (λ l.
          Batched (create_accounts tb server false) l s'
            (create_all tb server w (w * h) (none, s')))
        (grid_row_major tb w h below).0
        (batch_loop-Batched (create_accounts tb server false) [] (grid_ids tb w (indices 0 (w * h)))
          s' batch_size_positive))

  -- Whatever TigerBeetle answers, on a grid of at most 2 ^ 32 cells: `EnsureAllPixels` asks for the
  -- system pool, then for the accounts of the cells and then for their funds, each row by row from
  -- left to right and in batches of at least one and at most 8189; it stops at the first error and returns it, and returns nil only after the last batch.
  pub ensure_all_pixels-IsProvisioned :
      (s : S) → IsProvisioned tb server w h s (ensure_all_pixels tb server w h s)
  unfolding ensure_all_pixels
  ensure_all_pixels-IsProvisioned s = pool-IsProvisioned s _ refl
