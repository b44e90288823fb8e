-- ===== src/Consensus.antt =====
-- consensus/plist.go and consensus/plistmgr.go: the process list of a server and its manager, over
-- the type of the messages. The acknowledgement is btcd's wire.MsgAcknowledgement with the fields that
-- this code sets or reads; its bytes for the signature and the private key's Sign are parameters.
pub mod Order
pub mod Limit
mod Tests
use factom_code.Common.{
  ℕ, zero, suc, ◌+◌, ◌-◌, ◌*◌, ◌%◌, ◌^◌, ◌<◌, ◌≤◌, Bool, true, false, Option, none, some, List, [],
  ◌∷◌, ◌++◌, length, replicate, set, ltb, leb, ◌==◌, if◌then◌else◌,
}
use factom_code.Hash.{Hash}

pub record Ack : Type 0 where
  pub height : ℕ
  pub index : ℕ
  pub msg_hash : Option Hash
  pub kind : ℕ
  pub signature : List ℕ

pub record ProcessListItem (Msg : Type 0) : Type 0 where
  pub ack : Ack
  pub msg : Msg
  pub msg_hash : Option Hash

-- A slice of pointers with its capacity. The elements behind the length are nil, since the slice
-- only grows.
pub record ProcessList (Msg : Type 0) : Type 0 where
  pub pl_items : List (Option (ProcessListItem Msg))
  pub capacity : ℕ
  pub next_index : ℕ
  pub total_items : ℕ

pub record ProcessListMgr (Msg : Type 0) : Type 0 where
  pub my_process_list : ProcessList Msg
  pub other_process_lists : List (ProcessList Msg)
  pub next_dblock_height : ℕ

-- MAX_PLIST_SIZE
abbrev pub max_plist_size : ℕ
max_plist_size = 150000

-- A panic ends the call.
infixl 5 ◌>>=◌
abbrev ◌>>=◌ : {A B : Type 0} → Option A → (A → Option B) → Option B
none >>= f = none
some a >>= f = f a

module _ {Msg : Type 0} where
  -- NewProcessList(sizeHint)
  abbrev pub new_process_list : ℕ → ProcessList Msg
  new_process_list size_hint = record {
    pl_items = [];
    capacity = size_hint;
    next_index = 0;
    total_items = 0;
  }

  -- NewProcessListMgr(height, otherPLSize, plSizeHint, privKey); the key is a parameter below.
  abbrev pub new_process_list_mgr : ℕ → ℕ → ℕ → ProcessListMgr Msg
  new_process_list_mgr height other_pl_size pl_size_hint = record {
    my_process_list = new_process_list pl_size_hint;
    other_process_lists = replicate other_pl_size (new_process_list pl_size_hint);
    next_dblock_height = height;
  }

  -- The slice grown to hold an index, with its capacity: by `make` where the capacity is too small
  -- (the uint32 `Index*2` wraps, and `make` panics below the length), and by re-slicing to `Index+1`,
  -- which panics above the capacity. `none` is a panic. The uint32 cuts of the length and the capacity,
  -- which change them from 2 ^ 32 on, are left out.
  grow_capacity : ProcessList Msg → ℕ → Option (ProcessList Msg)
  grow_capacity pl index =
      if leb pl.capacity index
      then if ltb (index * 2 % 2 ^ 32) (length pl.pl_items)
        then none
        else some (record pl { capacity = index * 2 % 2 ^ 32 })
      else some pl

  grow_length : ℕ → ProcessList Msg → Option (ProcessList Msg)
  grow_length index pl =
      if leb (length pl.pl_items) index
      then if ltb pl.capacity ((index + 1) % 2 ^ 32)
        then none
        else some (record pl {
          pl_items = pl.pl_items ++ replicate ((index + 1) % 2 ^ 32 - length pl.pl_items) none;
        })
      else some pl

  -- pl.plItems[pli.Ack.Index] = pli, which panics out of range.
  store : ProcessListItem Msg → ProcessList Msg → Option (ProcessList Msg)
  store pli pl =
      if ltb pli.ack.index (length pl.pl_items)
      then some (record pl { pl_items = set pl.pl_items pli.ack.index (some pli) })
      else none

  -- pl.AddToProcessList(pli)
  pub add_to_process_list : ProcessList Msg → ProcessListItem Msg → Option (ProcessList Msg)
  add_to_process_list pl pli = do
    grown ← grow_capacity pl pli.ack.index
    longer ← grow_length pli.ack.index grown
    store pli longer

  -- plMgr.AddToOtherProcessList(plItem): into the first of the other lists, which must be there.
  abbrev pub add_to_other_process_list :
      ProcessListMgr Msg → ProcessListItem Msg → Option (ProcessListMgr Msg)
  add_to_other_process_list mgr pli = elim mgr.other_process_lists [
    | [] ↦ none
    | pl ∷ others ↦ do
      pl' ← add_to_process_list pl pli
      some (record mgr { other_process_lists = pl' ∷ others })
  ]

  -- plMgr.IsMyPListExceedingLimit()
  unfoldable pub is_my_plist_exceeding_limit : ProcessListMgr Msg → Bool
  is_my_plist_exceeding_limit mgr = leb max_plist_size mgr.my_process_list.total_items

module _ {Msg : Type 0} (binary_for_signature : Ack → List ℕ) (sign : List ℕ → List ℕ) where
  -- wire.NewMsgAcknowledgement(height, index, hash, msgType), signed by plMgr.SignAck.
  pub signed_ack : ProcessListMgr Msg → Option Hash → ℕ → Ack
  signed_ack mgr hash msg_type =
      let ack : Ack = record {
        height = mgr.next_dblock_height;
        index = mgr.my_process_list.next_index % 2 ^ 32;
        msg_hash = hash;
        kind = msg_type;
        signature = [];
      } in
      record ack { signature = sign (binary_for_signature ack) }

  -- plMgr.AddMyProcessListItem(msg, hash, msgType): the acknowledgement, and the manager.
  pub add_my_process_list_item :
      ProcessListMgr Msg → Msg → Option Hash → ℕ → Option (Ack × ProcessListMgr Msg)
  add_my_process_list_item mgr msg hash msg_type =
      let ack = signed_ack mgr hash msg_type in
      let pl = record mgr.my_process_list { next_index = mgr.my_process_list.next_index + 1 } in
      do
        pl' ← add_to_process_list pl (record { ack = ack; msg = msg; msg_hash = hash })
        some (ack, record mgr { my_process_list = pl' })
