-- ===== src/Consensus/Order.antt =====
-- A server's own process list is the list of what was added, in order.
use factom_code.Common.{
  ℕ, zero, suc, ◌+◌, ◌*◌, ◌%◌, ◌^◌, ◌-◌, ◌<◌, ◌≤◌, ◌≡◌, refl, sym, arith, Option, none, some, List,
  [], ◌∷◌, ◌++◌, length, length-append, set, leb, if◌then◌else◌,
}
use factom_code.Hash.{Hash}
use factom_code.Consensus.{
  Ack, ProcessListItem, ProcessList, ProcessListMgr, grow_capacity, grow_length, store,
  add_to_process_list, add_my_process_list_item, signed_ack,
}

module _ {Msg : Type 0} where
  set-append :
      (xs : List (Option (ProcessListItem Msg))) (i : ℕ) (v w : Option (ProcessListItem Msg))
      → i ≡ length xs
      → set (xs ++ v ∷ []) i w ≡ xs ++ w ∷ []
  set-append [] zero v w h = refl
  set-append [] (suc i) v w h = absurd (omega arith)
  set-append (x ∷ xs) zero v w h = absurd (omega arith)
  set-append (x ∷ xs) (suc i) v w h = rw (set-append xs i v w (omega arith))

  -- The list holds an item for each index handed out, and its slice has a capacity.
  pub record IsDense (pl : ProcessList Msg) : Type 0 where
    pub next : length pl.pl_items ≡ pl.next_index
    pub room : 1 ≤ pl.capacity
    pub fits : length pl.pl_items ≤ pl.capacity
    pub small : pl.next_index + 1 < 2 ^ 31

  abbrev grown : ProcessList Msg → ℕ → ℕ
  grown pl n = if leb pl.capacity n then n * 2 else pl.capacity

  grow_capacity_lem :
      (pl : ProcessList Msg) (n : ℕ)
      → length pl.pl_items ≡ n
      → 1 ≤ pl.capacity
      → n < 2 ^ 31
      → grow_capacity pl n ≡ some (record pl { capacity = grown pl n })
  unfolding grow_capacity
  grow_capacity_lem pl n h k b = ground arith

  grow_length_lem :
      (pl : ProcessList Msg) (n : ℕ)
      → length pl.pl_items ≡ n
      → n + 1 ≤ pl.capacity
      → n + 1 < 2 ^ 32
      → grow_length n pl ≡ some (record pl { pl_items = pl.pl_items ++ none ∷ [] })
  unfolding grow_length
  grow_length_lem pl n h k b =
      let one : (n + 1) % 2 ^ 32 - length pl.pl_items ≡ 1 = omega arith in rw one (ground arith)

  store_lem :
      (pl : ProcessList Msg) (xs : List (Option (ProcessListItem Msg))) (pli : ProcessListItem Msg)
      → pl.pl_items ≡ xs ++ none ∷ []
      → pli.ack.index ≡ length xs
      → store pli pl ≡ some (record pl { pl_items = xs ++ some pli ∷ [] })
  unfolding store
  store_lem pl xs pli h k =
      rw (h, set-append xs pli.ack.index none (some pli) k)
        (ground (arith, length-append {0} xs (none ∷ [])))

  -- An item with the next index goes to the end of the list, and nothing else changes but the room.
  add_to_process_list_lem :
      (pl : ProcessList Msg) (pli : ProcessListItem Msg)
      → pli.ack.index ≡ length pl.pl_items
      → 1 ≤ pl.capacity
      → length pl.pl_items ≤ pl.capacity
      → length pl.pl_items + 1 < 2 ^ 31
      → add_to_process_list pl pli
        ≡ some (record pl {
          pl_items = pl.pl_items ++ some pli ∷ [];
          capacity = grown pl pli.ack.index;
        })
  unfolding add_to_process_list
  add_to_process_list_lem pl pli i r f b =
      let roomy = record pl { capacity = grown pl pli.ack.index } in
      let longer = record roomy { pl_items = pl.pl_items ++ none ∷ [] } in
      rw (
        grow_capacity_lem pl pli.ack.index (sym i) r (omega arith),
        grow_length_lem roomy pli.ack.index (sym i) (ground arith) (omega arith),
        store_lem longer pl.pl_items pli refl i,
      )

module _ {Msg : Type 0} (binary_for_signature : Ack → List ℕ) (sign : List ℕ → List ℕ) where
  -- The append, with the density of the list left to the number of its items.
  pub appended_lem :
      (mgr : ProcessListMgr Msg) (msg : Msg) (hash : Option Hash) (kind : ℕ)
      → IsDense mgr.my_process_list
      → (ack : Ack) × (mgr' : ProcessListMgr Msg) × (add_my_process_list_item binary_for_signature
            sign mgr msg hash kind
          ≡ some (ack, mgr'))
        × (mgr'.my_process_list.pl_items
            ≡ mgr.my_process_list.pl_items
              ++ some (record { ack = ack; msg = msg; msg_hash = hash }) ∷ [])
        × (ack.index ≡ length mgr.my_process_list.pl_items)
        × (ack.height ≡ mgr.next_dblock_height)
        × (mgr'.next_dblock_height ≡ mgr.next_dblock_height)
        × (mgr'.my_process_list.total_items ≡ mgr.my_process_list.total_items)
        × (mgr'.my_process_list.next_index ≡ mgr.my_process_list.next_index + 1)
        × (mgr'.my_process_list.next_index + 1 < 2 ^ 31 → IsDense mgr'.my_process_list)
  unfolding add_my_process_list_item signed_ack
  appended_lem mgr msg hash kind d =
      let pl = record mgr.my_process_list { next_index = mgr.my_process_list.next_index + 1 } in
      let ack = signed_ack binary_for_signature sign mgr hash kind in
      let item : ProcessListItem Msg = record { ack = ack; msg = msg; msg_hash = hash } in
      let here : ack.index ≡ length pl.pl_items = omega arith in
      let pl' = record pl {
        pl_items = pl.pl_items ++ some item ∷ [];
        capacity = grown pl ack.index;
      } in
      let added : add_to_process_list pl item ≡ some pl' =
        add_to_process_list_lem pl item here d.room d.fits (omega arith) in
      (
        ack,
        record mgr { my_process_list = pl' },
        rw added,
        refl,
        here,
        refl,
        refl,
        refl,
        refl,
        λ b. record {
          next = omega (arith, length-append {0} pl.pl_items (some item ∷ []));
          room = ground arith;
          fits = ground (arith, length-append {0} pl.pl_items (some item ∷ []));
          small = b;
        },
      )

  -- From a dense list with room for two more below 2 ^ 31 items, AddMyProcessListItem does not panic:
  -- it appends the message at the index that its acknowledgement carries, with the height of the
  -- manager, changes no other item, and leaves the list dense.
  pub add_my_process_list_item_lem :
      (mgr : ProcessListMgr Msg) (msg : Msg) (hash : Option Hash) (kind : ℕ)
      → IsDense mgr.my_process_list
      → mgr.my_process_list.next_index + 2 < 2 ^ 31
      → (ack : Ack) × (mgr' : ProcessListMgr Msg) × (add_my_process_list_item binary_for_signature
            sign mgr msg hash kind
          ≡ some (ack, mgr'))
        × (mgr'.my_process_list.pl_items
            ≡ mgr.my_process_list.pl_items
              ++ some (record { ack = ack; msg = msg; msg_hash = hash }) ∷ [])
        × (ack.index ≡ length mgr.my_process_list.pl_items)
        × (ack.height ≡ mgr.next_dblock_height)
        × (mgr'.next_dblock_height ≡ mgr.next_dblock_height)
        × IsDense mgr'.my_process_list
  add_my_process_list_item_lem mgr msg hash kind d room =
      let (ack, mgr', added, items, index, height, same, total, next, dense) =
        appended_lem mgr msg hash kind d in
      (ack, mgr', added, items, index, height, same, dense (omega (arith, next)))
