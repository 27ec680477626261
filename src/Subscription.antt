-- ===== src/Subscription.antt =====
-- src/Subscription.h: `Subscription`, and `SubId`, a subscription id in 72 bytes: its length, then its characters. The
-- bytes behind them keep what the memory held before.
use strfry_http.Base.{
  ℕ, suc, ◌+◌, Bool, ◌||◌, ◌∷◌, ◌++◌, Bytes, Result, ok, ◌>>=◌, ◌>>◌, throw_if, length, any, drop,
  slice, ltb, leb, ◌==◌, first_of_bytes, bytes_eq, sub_id_too_long, sub_id_too_short,
  bad_sub_id_char,
}
pub mod Ids
pub mod Conns

pub record SubId : Type 0 where
  pub buf : Bytes

-- A `char` from 128 on is negative or above 127, and is bad either way.
unfoldable pub bad_char : ℕ → Bool
bad_char c = ltb c 32 || (c == b'\\' || (c == b'"' || leb 127 c))

-- The constructor of `SubId`, on the memory that it finds.
unfoldable pub sub_id : Bytes → Bytes → Result SubId
sub_id memory val = do
  throw_if (ltb 71 (length val)) sub_id_too_long
  throw_if (length val == 0) sub_id_too_short
  throw_if (any bad_char val) bad_sub_id_char
  ok (record { buf = length val ∷ (val ++ drop (length val + 1) memory) })

unfoldable pub sv : SubId → Bytes
sv s = slice 1 (first_of_bytes s.buf) s.buf

-- `operator==`
unfoldable pub same_sub_id : SubId → SubId → Bool
same_sub_id a o = bytes_eq (sv o) (sv a)

-- `F` is the type of the filter group.
pub record Subscription (F : Type 0) : Type 0 where
  pub conn_id : ℕ
  pub sub_id : SubId
  pub filter_group : F
  pub latest_event_id : ℕ

unfoldable pub subscription : {F : Type 0} → Bytes → ℕ → Bytes → F → Result (Subscription F)
subscription memory conn_id val filter_group = sub_id memory val >>= λ k. ok (record {
  conn_id = conn_id;
  sub_id = k;
  filter_group = filter_group;
  latest_event_id = 18446744073709551615;
})
