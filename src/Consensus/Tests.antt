-- ===== src/Consensus/Tests.antt =====
-- Runs of AddMyProcessListItem of consensus/plistmgr.go, with messages that are numbers.
use factom_code.Common.{ℕ, ◌≡◌, refl, arith, false, some, List, [], ◌∷◌, ◌++◌, length}
use factom_code.Hash.{zero_hash}
use factom_code.Consensus.{
  Ack, ProcessListMgr, new_process_list_mgr, add_my_process_list_item, add_to_process_list,
  grow_capacity, grow_length, store, signed_ack, is_my_plist_exceeding_limit,
}
use factom_code.Consensus.Order.{IsDense, add_my_process_list_item_lem}
use factom_code.Consensus.Limit.{none_added, one_more, limit_never_exceeded}

abbrev bytes_of : Ack → List ℕ
bytes_of ack = ack.height ∷ ack.index ∷ ack.kind ∷ []

abbrev sign : List ℕ → List ℕ
sign bytes = 9 ∷ bytes

abbrev mgr : ProcessListMgr ℕ
mgr = new_process_list_mgr 7 1 2

empty-IsDense : IsDense mgr.my_process_list
empty-IsDense = omega arith

add_my_process_list_item_lem_example :
    (ack : Ack) × (mgr' : ProcessListMgr ℕ) × (add_my_process_list_item bytes_of sign mgr 42
        (some zero_hash)
        3
      ≡ some (ack, mgr'))
    × (mgr'.my_process_list.pl_items
        ≡ mgr.my_process_list.pl_items
          ++ some (record { ack = ack; msg = 42; msg_hash = some zero_hash }) ∷ [])
    × (ack.index ≡ length mgr.my_process_list.pl_items)
    × (ack.height ≡ mgr.next_dblock_height)
    × (mgr'.next_dblock_height ≡ mgr.next_dblock_height)
    × IsDense mgr'.my_process_list
add_my_process_list_item_lem_example =
    add_my_process_list_item_lem bytes_of sign mgr 42 (some zero_hash) 3 empty-IsDense (omega arith)

abbrev ack : Ack
ack = record {
  height = 7;
  index = 0;
  msg_hash = some zero_hash;
  kind = 3;
  signature = 9 ∷ 7 ∷ 0 ∷ 3 ∷ [];
}

abbrev mgr_1 : ProcessListMgr ℕ
mgr_1 = record mgr {
  my_process_list = record mgr.my_process_list {
    pl_items = some (record { ack = ack; msg = 42; msg_hash = some zero_hash }) ∷ [];
    next_index = 1;
  };
}

adds_42 : add_my_process_list_item bytes_of sign mgr 42 (some zero_hash) 3 ≡ some (ack, mgr_1)
unfolding add_my_process_list_item add_to_process_list grow_capacity grow_length store signed_ack
adds_42 = refl

limit_never_exceeded_example : is_my_plist_exceeding_limit mgr_1 ≡ false
limit_never_exceeded_example =
    limit_never_exceeded bytes_of sign 7 1 2 (one_more 42 (some zero_hash) 3 ack none_added adds_42)
