-- ===== src/TbClient/Sample.antt =====
-- A stand-in for github.com/tigerbeetle/tigerbeetle-go, on which the tests run the code: the
-- conversions as that package documents them, and servers that keep the list of the transfers they
-- accepted.
use Prim.Native.Nat.{bit_and}
use pixel_beetle.Prelude.{
  ℕ, ◌+◌, ◌*◌, ◌/◌, ◌%◌, ◌^◌, ◌<◌, ◌≡◌, refl, Bool, true, false, not, some, List, ◌++◌, map, arith,
  ◌==◌, if◌then◌else◌,
}
use pixel_beetle.TbClient.External.{
  Transfer, account_created, transfer_created, exceeds_credits, TbLib, TbLaws, TbServer,
}

abbrev pub bit : Bool → ℕ → ℕ
bit b v = if b then v else 0

abbrev pub flag_word : Bool → Bool → Bool → Bool → ℕ
flag_word linked pending post void = bit linked 1 + bit pending 2 + bit post 4 + bit void 8

abbrev pub sample_tb : TbLib
sample_tb = record {
  to_uint128 = λ v. v;
  bytes_to_uint128 = λ b. b;
  bytes = λ v. v;
  uint64 = λ v. (v % 2 ^ 64, v / 2 ^ 64);
  transfer_flags =
      λ f. flag_word f.linked f.pending f.post_pending_transfer f.void_pending_transfer;
  debits_must_not_exceed_credits = 2;
}

flag_word_post : (a b c d : Bool) → (bit_and (flag_word a b c d) 4 == 0) ≡ not c
flag_word_post true true true true = refl
flag_word_post true true true false = refl
flag_word_post true true false true = refl
flag_word_post true true false false = refl
flag_word_post true false true true = refl
flag_word_post true false true false = refl
flag_word_post true false false true = refl
flag_word_post true false false false = refl
flag_word_post false true true true = refl
flag_word_post false true true false = refl
flag_word_post false true false true = refl
flag_word_post false true false false = refl
flag_word_post false false true true = refl
flag_word_post false false true false = refl
flag_word_post false false false true = refl
flag_word_post false false false false = refl

halves_split :
    (lo hi : ℕ)
    → lo < 2 ^ 64
    → ((lo + hi * 2 ^ 64) % 2 ^ 64 ≡ lo) × ((lo + hi * 2 ^ 64) / 2 ^ 64 ≡ hi)
halves_split lo hi h = (omega arith, omega arith)

pub sample_laws : TbLaws sample_tb
sample_laws = record {
  uint64-bytes_to_uint128 = λ lo hi hl hh. let e = halves_split lo hi hl in ground (arith, e);
  uint64-to_uint128 = λ v h. ground arith;
  bytes-bytes_to_uint128 = λ b h. refl;
  post_bit = λ f. flag_word_post f.linked f.pending f.post_pending_transfer f.void_pending_transfer;
}

-- A server that accepts all, and one that has no credit left for any transfer.
abbrev pub accepting : TbServer (List Transfer)
accepting = record {
  create_accounts = λ accounts s. (some (map (λ a. account_created) accounts), s);
  create_transfers = λ transfers s. (some (map (λ t. transfer_created) transfers), s ++ transfers);
  query_transfers = λ q s. some s;
}

abbrev pub refusing : TbServer (List Transfer)
refusing = record accepting {
  create_transfers = λ transfers s. (some (map (λ t. exceeds_credits) transfers), s);
}
