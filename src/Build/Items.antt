-- ===== src/Build/Items.antt =====
-- process/processor.go: buildFromProcessList with what each item of the list does to the open blocks.
-- The entries and chains that it stores are left out; what is stored of a chain is a parameter.
pub mod Minutes
use factom_code.Common.{
  ℕ, Bool, true, false, not, Option, none, some, List, [], ◌∷◌, ◌++◌, ◌&&◌, ◌||◌, ◌==◌,
  if◌then◌else◌,
}
use factom_code.Common.Exec.{Result, ok, panic, and_then}
use factom_code.Common.Map.{Map, bytes_eq, lookup, insert}
use factom_code.Buffer.{ReadError}
use factom_code.Hash.{Hash}
use factom_code.Entry.{Entry}
use factom_code.Credit.CommitEntry.{CommitEntry}
use factom_code.Credit.CommitChain.{CommitChain}
use factom_code.EcBlock.{EcBlock, add_entry, minute_number}
use factom_code.EBlock.{EBlock, add_eb_entry}
use factom_code.EBlock as Entries
use factom_code.AdminBlock.{AdminBlock, AbEntry, entry_type, type_minute_num}
use factom_code.AdminBlock as Admin
use factom_code.Chains.{EChain}
use factom_code.Process.{Transaction}
use factom_code.Build.Open.{Open}
use factom_code.Build.Open.Entries.{open_echain}
use factom_code.Build.Credits.{build_increase_balance, build_commit_entry, build_commit_chain}

-- An item of the list: the type of its acknowledgement, with what its message carries. The types that
-- buildFromProcessList passes over are one.
pub data PlItem : Type 0 where
  ack_commit_chain : CommitChain → PlItem
  ack_factoid_tx : Transaction → PlItem
  ack_commit_entry : CommitEntry → PlItem
  ack_reveal_chain : Entry → PlItem
  ack_reveal_entry : Entry → PlItem
  end_minute : ℕ → PlItem
  ack_other : PlItem

-- A chain of entries with its open block.
pub record EntryChain : Type 0 where
  pub chain : EChain
  pub open_block : Open (Option EBlock)

-- ecchain.NextBlock, achain.NextBlock and chainIDMap
pub record Blocks : Type 0 where
  pub ec_block : EcBlock
  pub admin_block : AdminBlock
  pub echains : Map EntryChain

-- A chain of chainIDMap is changed; there is none, and the call panics.
unfoldable pub with_chain :
    Hash → (EntryChain → Result ReadError EntryChain) → Blocks → Result ReadError Blocks
with_chain id f s = elim (lookup id s.echains) [
  | none ↦ panic
  | some c ↦ and_then (f c) λ c'. ok (record s { echains = insert id c' s.echains })
]

-- A method of the open block, which panics on nil.
unfoldable pub with_block : (EBlock → EBlock) → EntryChain → Result ReadError EntryChain
with_block f c = elim c.open_block.next_block [
  | none ↦ panic
  | some b ↦ ok (record c { open_block = record c.open_block { next_block = some (f b) } })
]

unfoldable pub is_in : Hash → List Hash → Bool
is_in k [] = false
is_in k (h ∷ hs) = let rest = is_in k hs in if bytes_eq h k then true else rest

-- tmpChains[cid] = chainIDMap[cid]
abbrev pub add_key : Hash → List Hash → List Hash
add_key k keys = if is_in k keys then keys else keys ++ k ∷ []

-- The first loop of buildEndOfMinute: the chains with a reveal since the last mark of a minute.
unfoldable pub touched : List PlItem → List Hash → List Hash
touched [] keys = keys
touched (ack_reveal_entry e ∷ items) keys = touched items (add_key e.chain_id keys)
touched (ack_reveal_chain e ∷ items) keys = touched items (add_key e.chain_id keys)
touched (end_minute n ∷ items) keys = touched items []
touched (ack_commit_chain c ∷ items) keys = touched items keys
touched (ack_factoid_tx t ∷ items) keys = touched items keys
touched (ack_commit_entry c ∷ items) keys = touched items keys
touched (ack_other ∷ items) keys = touched items keys

-- The second loop, over the chains in some order: v.NextBlock.AddEndOfMinuteMarker(pli.Ack.Type).
unfoldable pub mark_chains : ℕ → List Hash → Blocks → Result ReadError Blocks
mark_chains n [] s = ok s
mark_chains n (id ∷ ids) s =
    and_then (with_chain id (with_block (λ b. Entries.add_end_of_minute_marker b n)) s)
      (mark_chains n ids)

-- abEntries[len(abEntries)-1].Type() != TYPE_MINUTE_NUM, where there is an entry.
unfoldable pub ends_unmarked : List AbEntry → Bool
ends_unmarked [] = false
ends_unmarked (e ∷ []) = not (entry_type e == type_minute_num)
ends_unmarked (e ∷ (f ∷ es)) = ends_unmarked (f ∷ es)

unfoldable pub mark_admin : ℕ → AdminBlock → AdminBlock
mark_admin n b = if ends_unmarked b.ab_entries then Admin.add_end_of_minute_marker b n else b

-- buildEndOfMinute(pl, pli), for the items before pli and the type of its acknowledgement.
unfoldable pub build_end_of_minute : List PlItem → ℕ → Blocks → Result ReadError Blocks
build_end_of_minute before n s = and_then (mark_chains n (touched before []) s) λ s'.
    ok (record s' {
      ec_block = add_entry s'.ec_block (minute_number (record { number = n }));
      admin_block = mark_admin n s'.admin_block;
    })

module _ (sha_256 sha_512 : List ℕ → List ℕ) (rate : ℕ) (stored : Hash → List EBlock) where
  -- buildRevealEntry(msg)
  abbrev pub build_reveal_entry : Entry → Blocks → Result ReadError Blocks
  build_reveal_entry e = with_chain e.chain_id (with_block (λ b. add_eb_entry sha_256 sha_512 b e))

  -- buildRevealChain(msg): the chain's block is opened, and takes the first entry of the chain.
  abbrev pub build_reveal_chain : Entry → Blocks → Result ReadError Blocks
  build_reveal_chain e = with_chain e.chain_id λ c.
      and_then (open_echain sha_256 c.chain.chain_id (stored c.chain.chain_id)) λ o.
        with_block (λ b. add_eb_entry sha_256 sha_512 b c.chain.first_entry)
          (record c { open_block = o })

  -- One round of the loop of buildFromProcessList(pl), behind the items before.
  unfoldable pub build_from_item : List PlItem → PlItem → Blocks → Result ReadError Blocks
  build_from_item before (ack_commit_chain c) s =
      ok (record s { ec_block = build_commit_chain c s.ec_block })
  build_from_item before (ack_factoid_tx t) s =
      and_then (build_increase_balance rate t s.ec_block) λ e. ok (record s { ec_block = e })
  build_from_item before (ack_commit_entry c) s =
      ok (record s { ec_block = build_commit_entry c s.ec_block })
  build_from_item before (ack_reveal_chain e) s = build_reveal_chain e s
  build_from_item before (ack_reveal_entry e) s = build_reveal_entry e s
  build_from_item before (end_minute n) s = build_end_of_minute before n s
  build_from_item before ack_other s = ok s

  -- The loop, behind the items before. An item's index is its place in the list.
  unfoldable pub build_from_process_list :
      List PlItem → List PlItem → Blocks → Result ReadError Blocks
  build_from_process_list before [] s = ok s
  build_from_process_list before (item ∷ items) s =
      and_then (build_from_item before item s) (build_from_process_list (before ++ item ∷ []) items)
