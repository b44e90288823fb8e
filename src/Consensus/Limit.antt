-- ===== src/Consensus/Limit.antt =====
-- The limit on a server's own process list, after any sequence of AddMyProcessListItem.
use factom_code.Common.{
  Option-cases, inl, inr, ℕ, ◌+◌, ◌≡◌, ◌∙◌, refl, arith, false, Option, some, List,
}
use factom_code.Hash.{Hash}
use factom_code.Consensus.{
  Ack, ProcessListItem, ProcessList, ProcessListMgr, new_process_list_mgr, grow_capacity,
  grow_length, store, add_to_process_list, add_my_process_list_item, is_my_plist_exceeding_limit,
  signed_ack,
}

module _ {Msg : Type 0} where
  total_items_lem :
      (pl pl' : ProcessList Msg) (pli : ProcessListItem Msg)
      → add_to_process_list pl pli ≡ some pl'
      → pl'.total_items ≡ pl.total_items
  unfolding add_to_process_list grow_capacity grow_length store
  total_items_lem pl pl' pli h = ground arith

module _ {Msg : Type 0} (binary_for_signature : Ack → List ℕ) (sign : List ℕ → List ℕ) where
  -- The managers that are reached by adding messages.
  pub data Adds (mgr : ProcessListMgr Msg) : ProcessListMgr Msg → Type 0 where
    none_added : Adds mgr mgr
    one_more :
        {m m' : ProcessListMgr Msg} (msg : Msg) (hash : Option Hash) (kind : ℕ) (ack : Ack)
        → Adds mgr m
        → add_my_process_list_item binary_for_signature sign m msg hash kind ≡ some (ack, m')
        → Adds mgr m'

  total_items-add :
      (m m' : ProcessListMgr Msg) (msg : Msg) (hash : Option Hash) (kind : ℕ) (ack : Ack)
      → add_my_process_list_item binary_for_signature sign m msg hash kind ≡ some (ack, m')
      → m'.my_process_list.total_items ≡ m.my_process_list.total_items
  unfolding add_my_process_list_item
  total_items-add m m' msg hash kind ack h =
      let pl = record m.my_process_list { next_index = m.my_process_list.next_index + 1 } in
      let a = signed_ack binary_for_signature sign m hash kind in
      let item : ProcessListItem Msg = record { ack = a; msg = msg; msg_hash = hash } in
      elim (Option-cases (add_to_process_list pl item)) [
        | inl e ↦ ground (arith, e, h)
        | inr (pl', e) ↦ ground (arith, e, h, total_items_lem pl pl' item e)
      ]

  total_items-Adds :
      {mgr m : ProcessListMgr Msg}
      → Adds mgr m
      → m.my_process_list.total_items ≡ mgr.my_process_list.total_items
  total_items-Adds none_added = refl
  total_items-Adds (one_more msg hash kind ack r h) =
      total_items-add _ _ msg hash kind ack h ∙ total_items-Adds r

  -- Whatever is added to the list of a new manager, IsMyPListExceedingLimit answers false: the field
  -- that it tests is never written.
  pub limit_never_exceeded :
      (height other_pl_size pl_size_hint : ℕ) {m : ProcessListMgr Msg}
      → Adds (new_process_list_mgr height other_pl_size pl_size_hint) m
      → is_my_plist_exceeding_limit m ≡ false
  unfolding is_my_plist_exceeding_limit
  limit_never_exceeded height other_pl_size pl_size_hint r = ground (arith, total_items-Adds r)
