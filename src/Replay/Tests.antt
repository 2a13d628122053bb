-- ===== src/Replay/Tests.antt =====
-- The code of internal/replay/replay.go at concrete inputs.
use pixel_beetle.Prelude.{
  ℕ, ◌≡◌, refl, ap, inl, inr, true, Option, none, some, List, [], ◌∷◌, ◌++◌, arith, same_bytes,
  codes, decimal,
}
use pixel_beetle.TbClient.External.{Transfer}
use pixel_beetle.TbClient.Ids.{pixel_id}
use pixel_beetle.TbClient.Transfers.{new_claim}
use pixel_beetle.TbClient.Sample.{sample_tb, sample_laws}
use pixel_beetle.Game.Resolution.{Event}
use pixel_beetle.Replay.{Text, has, process_body, consume}
use pixel_beetle.Replay.Redelivery.{consume-consume}
use pixel_beetle.Replay.Parse.{CdcTokens, JsonLib, type_posted, cdc_u64, cdc_u128, parse_message}
use pixel_beetle.Replay.Parse.Numbers.{plain, quoted, UnquotesNumbers}
use pixel_beetle.Replay.Parse.Claims.{Describes, parse_message-new_claim}

-- Messages of one byte, the id; the empty one does not parse.
abbrev parse_id : List ℕ → Option Event
parse_id [] = none
parse_id (id ∷ rest) =
    some (record {
      posted = true;
      timestamp = 1;
      x = 0;
      y = 0;
      color = 0;
      player = 0;
      transfer_id = id;
    })

abbrev text_of : ℕ → Text
text_of id = id ∷ []

abbrev collect : Event → List ℕ → List ℕ
collect ev ids = ev.transfer_id ∷ ids

duplicate_is_dropped :
    consume parse_id text_of collect ((4 ∷ []) ∷ [] ∷ (5 ∷ []) ∷ (4 ∷ []) ∷ []) ([], [])
    ≡ ((5 ∷ []) ∷ (4 ∷ []) ∷ [], 5 ∷ 4 ∷ [])
unfolding consume process_body has
duplicate_is_dropped = refl

consume-consume_example :
    consume parse_id text_of collect
      ((4 ∷ []) ∷ (5 ∷ []) ∷ [])
      (consume parse_id text_of collect ((4 ∷ []) ∷ (5 ∷ []) ∷ []) ([], []))
    ≡ consume parse_id text_of collect ((4 ∷ []) ∷ (5 ∷ []) ∷ []) ([], [])
consume-consume_example =
    consume-consume parse_id text_of collect (λ body ev e. λ empty. absurd (cc))
      ((4 ∷ []) ∷ (5 ∷ []) ∷ []) ([], [])

-- A decoder that knows one body, and the claim that the body is about.
abbrev drop_last : List ℕ → List ℕ
drop_last [] = []
drop_last (c ∷ []) = []
drop_last (c ∷ d ∷ s) = c ∷ drop_last (d ∷ s)

drop_last-append : (s : List ℕ) (c : ℕ) → drop_last (s ++ c ∷ []) ≡ s
drop_last-append [] c = refl
drop_last-append (d ∷ []) c = refl
drop_last-append (d ∷ e ∷ s) c = ap (◌∷◌ d) (drop_last-append (e ∷ s) c)

abbrev strip_quotes : List ℕ → Option (List ℕ)
strip_quotes [] = none
strip_quotes (c ∷ s) = some (drop_last s)

abbrev posted_claim : Transfer
posted_claim = record (new_claim sample_tb 70 5 6 3 9) { pending_id = 71; timestamp = 2_000 }

abbrev posted_tokens : CdcTokens
posted_tokens = record {
  timestamp = some (plain 2_000);
  type_name = type_posted;
  transfer_id = some (quoted 70);
  amount = some (plain 1);
  pending_id = some (quoted 71);
  user_data_128 = some (quoted 9);
  code = 1003;
  transfer_timestamp = some (quoted 2_000);
  debit_id = some (plain 18446744095184388102);
  credit_id = some (plain 1);
}

abbrev sample_json : JsonLib
sample_json = record { tokens = λ body. some posted_tokens; unquote = strip_quotes }

sample_json-UnquotesNumbers : UnquotesNumbers sample_json
sample_json-UnquotesNumbers v = ap some (drop_last-append (plain v) 34)

abbrev same : ℕ → ℕ
same v = v

posted_tokens-Describes : Describes same posted_claim 2_000 posted_tokens
unfolding new_claim pixel_id
posted_tokens-Describes = record {
  stamped = (plain 2_000, refl, inl refl);
  id = (70, omega arith, refl, (quoted 70, refl, inr refl));
  amount = (1, omega arith, refl, (plain 1, refl, inl refl));
  pending_id = (71, omega arith, refl, (quoted 71, refl, inr refl));
  user_data_128 = (9, omega arith, refl, (quoted 9, refl, inr refl));
  timestamp = (quoted 2_000, refl, inr refl);
  debit = (18446744095184388102, omega arith, refl, (plain 18446744095184388102, refl, inl refl));
  credit = (1, omega arith, refl, (plain 1, refl, inl refl));
  code = refl;
}

parse_message-new_claim_example :
    parse_message sample_json sample_tb same []
    ≡ some (record {
      posted = same_bytes type_posted type_posted;
      timestamp = 2_000;
      x = 5;
      y = 6;
      color = 3;
      player = 9;
      transfer_id = 70;
    })
unfolding new_claim
parse_message-new_claim_example =
    parse_message-new_claim sample_json sample_json-UnquotesNumbers sample_tb same sample_laws 70 5
      6 3 9 2_000 posted_claim [] posted_tokens refl posted_tokens-Describes
      (omega arith, omega arith, omega arith, omega arith, omega arith) (inl refl) refl refl refl

plain_and_quoted : decimal 1203 1203 ≡ codes "1203"
unfolding decimal
plain_and_quoted = refl

signs_and_limits :
    (cdc_u64 sample_json (codes "+5") ≡ none)
    × (cdc_u128 sample_json sample_tb same (codes "+5") ≡ some 5)
    × (cdc_u128 sample_json sample_tb same (codes "-0") ≡ some 0)
    × (cdc_u128 sample_json sample_tb same (codes "-1") ≡ none)
    × (cdc_u64 sample_json (codes "18446744073709551616") ≡ none)
    × (cdc_u64 sample_json (codes "null") ≡ some 0)
unfolding cdc_u64 cdc_u128
signs_and_limits = (refl, refl, refl, refl, refl, refl)
