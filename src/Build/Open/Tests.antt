-- ===== src/Build/Open/Tests.antt =====
-- A run of process/processor.go's newEntryCreditBlock before process/init.go's initECChain.
use factom_code.Common.{ℕ, ◌≡◌, refl, arith, List, [], ◌∷◌, ◌++◌, replicate}
use factom_code.Common.Exec.{ok}
use factom_code.Hash.{sha}
use factom_code.Credit.Numbers.{ServerIndexNumber}
use factom_code.EcBlock.{EcBlock, new_ec_block, new_ec_block_header, add_entry, server_index_number}
use factom_code.EcBlock.Codec.{build_header, marshal, marshal_body, marshal_header, header_hash}
use factom_code.Build.Open.{Open, new_entry_credit_block, open_ec_chain}
use factom_code.Build.Open.Reopened.{reopened_ec_chain}

abbrev sha_256 : List ℕ → List ℕ
sha_256 bytes = replicate 32 1

abbrev index : ServerIndexNumber
index = record { number = 0 }

abbrev opened : Open EcBlock
opened = record { next_block = new_ec_block; next_block_height = 0 }

abbrev sealed : EcBlock
sealed = record new_ec_block { header = record new_ec_block_header { body_hash = sha sha_256 [] } }

abbrev next : Open EcBlock
next = record {
  next_block =
      add_entry
        (record new_ec_block {
          header = record new_ec_block_header {
            prev_header_hash = header_hash sha_256 sealed;
            prev_ledger_key_mr = sha sha_256 (marshal_header sealed.header ++ []);
            eb_height = 1;
          };
        })
        (server_index_number index);
  next_block_height = 1;
}

seals : new_entry_credit_block sha_256 index opened ≡ ok (sealed, next)
unfolding new_entry_credit_block build_header marshal marshal_body
seals = refl

reopened_ec_chain_example :
    (b : EcBlock) × (open_ec_chain sha_256 index (sealed ∷ []) 1
      ≡ ok (record { next_block = b; next_block_height = 1 }))
    × (b.entries ≡ [])
    × (next.next_block ≡ add_entry b (server_index_number index))
reopened_ec_chain_example =
    reopened_ec_chain sha_256 index opened next sealed (sealed ∷ []) seals (omega arith) refl
