-- ===== src/Credit/IncreaseBalance/Tests.antt =====
-- A run on an IncreaseBalance of common/increasebalance.go.
use factom_code.Common.{◌≡◌, refl, arith, some, [], ◌∷◌, ◌++◌, List, ℕ, replicate}
use factom_code.Common.Exec.{ok}
use factom_code.VarInt.{encode_var_int}
use factom_code.Credit.IncreaseBalance.{
  IncreaseBalance, new_increase_balance, IsFull, marshal, marshal_of, unmarshal,
  unmarshal-marshal_increase_balance,
}

abbrev bought : IncreaseBalance
bought = record {
  ec_pub_key = some (replicate 32 6);
  tx_id = some (replicate 32 5);
  index = 0;
  num_ec = 300;
}

bought-IsFull : IsFull bought
bought-IsFull = record {
  ec_pub_key = refl;
  tx_id = refl;
  index = omega arith;
  num_ec = omega arith;
}

abbrev bytes : List ℕ
bytes = replicate 32 6 ++ (replicate 32 5 ++ (encode_var_int 0 ++ encode_var_int 300))

writes : marshal bought ≡ ok bytes
unfolding marshal marshal_of
writes = refl

unmarshal-marshal_increase_balance_example :
    ((unmarshal new_increase_balance (bytes ++ 1 ∷ [])).0 ≡ ok (1 ∷ []))
    × ((unmarshal new_increase_balance (bytes ++ 1 ∷ [])).1.recv ≡ bought)
unmarshal-marshal_increase_balance_example =
    unmarshal-marshal_increase_balance bought bytes (1 ∷ []) bought-IsFull writes
