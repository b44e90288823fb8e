-- ===== src/Build/Items/Minutes.antt =====
-- process/processor.go: what the end of a minute marks.
use factom_code.Common.{
  ℕ, ◌≡◌, Bool-cases, inl, inr, refl, sym, ap, ◌∙◌, true, false, Option, none, some, List, [], ◌∷◌,
  ◌++◌, if◌then◌else◌,
}
use mathlib.Core.Path.{subst}
use factom_code.Common.Exec.{ok}
use factom_code.Common.Map.{bytes_eq, bytes_eq_refl, bytes_eq_iff, lookup, insert, lookup-insert}
use factom_code.Hash.{Hash}
use factom_code.EBlock.{EBlock}
use factom_code.EBlock as Entries
use factom_code.Chains.{EChain}
use factom_code.EcBlock.{EcBlock, add_entry, minute_number}
use factom_code.Build.Items.{
  PlItem, ack_commit_chain, ack_factoid_tx, ack_commit_entry, ack_reveal_chain, ack_reveal_entry,
  end_minute, ack_other, EntryChain, Blocks, with_chain, with_block, is_in, add_key, touched,
  mark_chains, mark_admin, build_end_of_minute,
}

-- A chain whose open block is there.
abbrev pub opened : EChain → EBlock → ℕ → EntryChain
opened c b height = record {
  chain = c;
  open_block = record { next_block = some b; next_block_height = height };
}

-- The mark of a minute at the end of an open block.
abbrev pub marked_block : ℕ → Option EBlock → Option EBlock
marked_block n none = none
marked_block n (some b) = some (Entries.add_end_of_minute_marker b n)

abbrev pub marked : ℕ → Option EntryChain → Option EntryChain
marked n none = none
marked n (some c) = some (record c {
  open_block = record c.open_block { next_block = marked_block n c.open_block.next_block };
})

unfoldable pub IsDistinct : List Hash → Type 0
IsDistinct [] = Unit
IsDistinct (h ∷ hs) = (is_in h hs ≡ false) × IsDistinct hs

-- The chains of the list have open blocks.
abbrev pub AreOpen : List Hash → Blocks → Type 0
AreOpen ids s =
    (k : Hash)
    → is_in k ids ≡ true
    → (c : EChain) × (b : EBlock) × (height : ℕ) × (lookup k s.echains ≡ some (opened c b height))

abbrev at : Hash → EntryChain → Blocks → Blocks
at id c s = record s { echains = insert id c s.echains }

lookup-at :
    (id k : Hash) (c : EntryChain) (s : Blocks)
    → lookup k (at id c s).echains ≡ (if bytes_eq id k then some c else lookup k s.echains)
lookup-at id k c s = lookup-insert id k c s.echains

is_in-here : (id : Hash) (ids : List Hash) → is_in id (id ∷ ids) ≡ true
unfolding is_in
is_in-here id ids = rw (bytes_eq_refl id)

is_in-later :
    (id k : Hash) (ids : List Hash) → bytes_eq id k ≡ false → is_in k (id ∷ ids) ≡ is_in k ids
unfolding is_in
is_in-later id k ids h = rw h

module _ (n : ℕ) where
  mark_one :
      (id : Hash) (c : EChain) (b : EBlock) (height : ℕ) (s : Blocks)
      → lookup id s.echains ≡ some (opened c b height)
      → with_chain id (with_block (λ x. Entries.add_end_of_minute_marker x n)) s
        ≡ ok (at id (opened c (Entries.add_end_of_minute_marker b n) height) s)
  unfolding with_chain with_block
  mark_one id c b height s h = rw (with_chain, h)

  still_open :
      (id : Hash) (ids : List Hash) (c : EChain) (b : EBlock) (height : ℕ) (s : Blocks)
      → AreOpen (id ∷ ids) s
      → AreOpen ids (at id (opened c b height) s)
  still_open id ids c b height s open_all k here = elim (Bool-cases (bytes_eq id k)) [
    | inl same ↦ (c, b, height, lookup-at id k (opened c b height) s ∙ rw same)
    | inr other ↦
        let (c2, b2, height2, found) = open_all k (is_in-later id k ids other ∙ here) in
        (c2, b2, height2, lookup-at id k (opened c b height) s ∙ rw other found)
  ]

  -- On chains that have open blocks, each named once, the loop of buildEndOfMinute over the chains
  -- ends without a panic, and it marks each of these chains once and changes no other chain, and
  -- neither the Entry Credit block nor the admin block.
  pub mark_chains_lem :
      (ids : List Hash) (s : Blocks)
      → IsDistinct ids
      → AreOpen ids s
      → (s' : Blocks) × (mark_chains n ids s ≡ ok s')
        × ((k : Hash)
            → lookup k s'.echains
              ≡ (if is_in k ids then marked n (lookup k s.echains) else lookup k s.echains))
        × (s'.ec_block ≡ s.ec_block)
        × (s'.admin_block ≡ s.admin_block)
  unfolding mark_chains IsDistinct is_in
  mark_chains_lem [] s d o = (s, refl, λ k. refl, refl, refl)
  mark_chains_lem (id ∷ ids) s (new, d) o =
      let (c, b, height, found) = o id (is_in-here id ids) in
      let b1 = Entries.add_end_of_minute_marker b n in
      let s1 = at id (opened c b1 height) s in
      let (s', run, each, ec, admin) =
        mark_chains_lem ids s1 d (still_open id ids c b1 height s o) in
      (
        s',
        rw (mark_one id c b height s found) run,
        λ k. elim (Bool-cases (bytes_eq id k)) [
          | inl same ↦
              let e : id ≡ k = (bytes_eq_iff id k).0 same in
              let gone : is_in k ids ≡ false = subst (λ (x : Hash). is_in x ids ≡ false) e new in
              let was : lookup k s.echains ≡ some (opened c b height) =
                subst (λ (x : Hash). lookup x s.echains ≡ some (opened c b height)) e found in
              rw (each k, gone, lookup-at id k (opened c b1 height) s, same, was)
          | inr other ↦ rw (each k, lookup-at id k (opened c b1 height) s, other)
        ],
        ec,
        admin,
      )

true_not_false : true ≡ false → ⊥
true_not_false h = cc

bytes_eq-swap : (a b : Hash) → bytes_eq a b ≡ false → bytes_eq b a ≡ false
bytes_eq-swap a b h = elim (Bool-cases (bytes_eq b a)) [
  | inl same ↦
      let e : b ≡ a = (bytes_eq_iff b a).0 same in
      absurd (true_not_false (sym ((bytes_eq_iff a b).1 (sym e)) ∙ h))
  | inr other ↦ other
]

is_in-snoc :
    (k h : Hash) (ks : List Hash)
    → is_in k ks ≡ false
    → bytes_eq h k ≡ false
    → is_in k (ks ++ h ∷ []) ≡ false
unfolding is_in
is_in-snoc k h [] i e = rw e
is_in-snoc k h (j ∷ ks) i e = elim (Bool-cases (bytes_eq j k)) [
  | inl same ↦ absurd (true_not_false (rw same at i))
  | inr other ↦ rw (other, is_in-snoc k h ks (rw other at i) e)
]

is_in-split :
    (k h : Hash) (ks : List Hash)
    → is_in k (h ∷ ks) ≡ false
    → (bytes_eq h k ≡ false) × (is_in k ks ≡ false)
unfolding is_in
is_in-split k h ks i = elim (Bool-cases (bytes_eq h k)) [
  | inl same ↦ absurd (true_not_false (rw same at i))
  | inr other ↦ (other, rw other at i)
]

snoc-IsDistinct :
    (k : Hash) (ks : List Hash) → IsDistinct ks → is_in k ks ≡ false → IsDistinct (ks ++ k ∷ [])
unfolding IsDistinct is_in
snoc-IsDistinct k [] d i = (refl, tt)
snoc-IsDistinct k (h ∷ ks) (new, d) i =
    let (e, rest) = is_in-split k h ks i in
    (is_in-snoc h k ks new (bytes_eq-swap h k e), snoc-IsDistinct k ks d rest)

add_key-IsDistinct : (k : Hash) (ks : List Hash) → IsDistinct ks → IsDistinct (add_key k ks)
add_key-IsDistinct k ks d = elim (Bool-cases (is_in k ks)) [
  | inl there ↦ rw there d
  | inr new ↦ rw new (snoc-IsDistinct k ks d new)
]

touched-IsDistinct :
    (items : List PlItem) (ks : List Hash) → IsDistinct ks → IsDistinct (touched items ks)
unfolding touched IsDistinct
touched-IsDistinct [] ks d = d
touched-IsDistinct (ack_reveal_entry e ∷ items) ks d =
    touched-IsDistinct items _ (add_key-IsDistinct e.chain_id ks d)
touched-IsDistinct (ack_reveal_chain e ∷ items) ks d =
    touched-IsDistinct items _ (add_key-IsDistinct e.chain_id ks d)
touched-IsDistinct (end_minute n ∷ items) ks d = touched-IsDistinct items [] tt
touched-IsDistinct (ack_commit_chain c ∷ items) ks d = touched-IsDistinct items ks d
touched-IsDistinct (ack_factoid_tx t ∷ items) ks d = touched-IsDistinct items ks d
touched-IsDistinct (ack_commit_entry c ∷ items) ks d = touched-IsDistinct items ks d
touched-IsDistinct (ack_other ∷ items) ks d = touched-IsDistinct items ks d

none-IsDistinct : IsDistinct []
unfolding IsDistinct
none-IsDistinct = tt

-- Where the chains with a reveal since the last mark have open blocks, buildEndOfMinute ends without a
-- panic: it marks each of them once, however many reveals it had, and no other chain, and puts the mark
-- at the end of the Entry Credit block.
pub build_end_of_minute_lem :
    (before : List PlItem) (n : ℕ) (s : Blocks)
    → AreOpen (touched before []) s
    → (s' : Blocks) × (build_end_of_minute before n s ≡ ok s')
      × ((k : Hash)
          → lookup k s'.echains ≡ (
              if is_in k (touched before [])
              then marked n (lookup k s.echains)
              else lookup k s.echains))
      × (s'.ec_block ≡ add_entry s.ec_block (minute_number (record { number = n })))
      × (s'.admin_block ≡ mark_admin n s.admin_block)
unfolding build_end_of_minute
build_end_of_minute_lem before n s o =
    let (s1, run, each, ec, admin) =
      mark_chains_lem n (touched before []) s (touched-IsDistinct before [] none-IsDistinct) o in
    let s' : Blocks = record s1 {
      ec_block = add_entry s1.ec_block (minute_number (record { number = n }));
      admin_block = mark_admin n s1.admin_block;
    } in
    (
      s',
      rw run,
      each,
      ap (λ (e : EcBlock). add_entry e (minute_number (record { number = n }))) ec,
      ap (mark_admin n) admin,
    )
