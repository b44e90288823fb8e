-- ===== src/Chains/Tests.antt =====
-- Runs on chains.
use factom_code.Common.{◌≡◌, refl, arith, [], ◌∷◌, replicate}
use factom_code.Common.Bytes.{put_uint}
use factom_code.Common.Exec.{ok}
use factom_code.Entry.{marshal_ext_ids}
use factom_code.Entry.RoundTrip.{IsSmall}
use factom_code.Chains.{
  EChain, EcChain, new_echain, new_ec_chain, marshal_echain, unmarshal_echain, marshal_ec_chain,
  unmarshal_ec_chain,
}
use factom_code.Chains.RoundTrip.{unmarshal-marshal_echain}
use factom_code.Chains.NeverRead.{Fails, unmarshal_ec_chain-Fails}

abbrev chain : EChain
chain = record {
  chain_id = replicate 32 4;
  first_entry = record {
    version = 0;
    chain_id = replicate 32 4;
    ext_ids = (1 ∷ 2 ∷ []) ∷ [];
    content = 10 ∷ [];
  };
}

first-IsSmall : IsSmall chain.first_entry
unfolding marshal_ext_ids put_uint
first-IsSmall = omega arith

unmarshal-marshal_echain_example :
    ((unmarshal_echain new_echain (marshal_echain chain)).0 ≡ ok [])
    × ((unmarshal_echain new_echain (marshal_echain chain)).1.recv ≡ chain)
unmarshal-marshal_echain_example = unmarshal-marshal_echain chain refl first-IsSmall

abbrev named : EcChain
named = record new_ec_chain { name = (7 ∷ []) ∷ [] }

unmarshal_ec_chain-Fails_example : Fails (unmarshal_ec_chain new_ec_chain (marshal_ec_chain named))
unmarshal_ec_chain-Fails_example = unmarshal_ec_chain-Fails new_ec_chain (marshal_ec_chain named)
