-- ===== src/Features/Merge/Concurrent.antt =====
-- Concurrent commands in features/merge_strategy.go that the aggregate merges itself.
use angzarr_client_go.Prelude.{
  ℕ, ◌+◌, String, Option, some, Bool, false, List, [], ◌∷◌, ◌++◌, ◌≡◌, refl, ap, ◌∙◌, arith, ◌||◌,
  str_eq, eq_iff, if◌then◌else◌,
}
use angzarr_client_go.Helpers.Editions.{ℤ, pos, negsuc}
use angzarr_client_go.Features.Merge.{
  Merge, ConcurrentCommand, count_amount, has_item, add_item, add_to_set, process_all,
  when_both_processed,
}

-- What a command adds to the counter.
abbrev increment : ConcurrentCommand → ℕ
increment cmd = elim cmd.amount [ pos n ↦ n | negsuc n ↦ 0 ]

abbrev increments : List ConcurrentCommand → ℕ
increments [] = 0
increments (cmd ∷ cmds) = increment cmd + increments cmds

count_amount_lem :
    (value : ℕ) (cmd : ConcurrentCommand) → count_amount value cmd.amount ≡ value + increment cmd
count_amount_lem value cmd = go cmd.amount
  where
    go : (a : ℤ) → count_amount value a ≡ value + elim a [ pos n ↦ n | negsuc n ↦ 0 ]
    go (pos n) = ground arith
    go (negsuc n) = omega arith

process_all-counter :
    (cmds : List ConcurrentCommand) (value : ℕ) (items : Option (List String))
    → (process_all cmds value items).0 ≡ value + increments cmds
unfolding process_all
process_all-counter [] value items = omega arith
process_all-counter (cmd ∷ cmds) value items =
    let rest =
      process_all-counter cmds (count_amount value cmd.amount) (add_to_set cmd.item items) in
    omega (arith, rest, count_amount_lem value cmd)

-- A command names this item.
abbrev pub names : String → ConcurrentCommand → Bool
names item cmd = if str_eq cmd.item "" then false else str_eq cmd.item item

any_names : String → List ConcurrentCommand → Bool
any_names item [] = false
any_names item (cmd ∷ cmds) = let later = any_names item cmds in names item cmd || later

has_item-append :
    (item new : String) (items : List String)
    → has_item item (items ++ new ∷ []) ≡ (has_item item items || str_eq new item)
unfolding has_item
has_item-append item new [] = ground arith
has_item-append item new (x ∷ items) = ground (arith, has_item-append item new items)

has_item-add_item :
    (item new : String) (items : List String)
    → has_item item (add_item new items) ≡ (has_item item items || str_eq new item)
has_item-add_item item new items =
    let appended = has_item-append item new items in ground (arith, appended, eq_iff new item)

process_all-items :
    (cmds : List ConcurrentCommand) (value : ℕ) (items : List String)
    → (after : List String) × ((process_all cmds value (some items)).1 ≡ some after)
      × ((item : String) → has_item item after ≡ (has_item item items || any_names item cmds))
unfolding process_all any_names
process_all-items [] value items = (items, refl, λ item. ground arith)
process_all-items (cmd ∷ cmds) value items =
    let rest = process_all-items cmds (count_amount value cmd.amount) next in
    (
      rest.0,
      ap (λ o. (process_all cmds (count_amount value cmd.amount) o).1) stored ∙ rest.1,
      λ item. ground (arith, rest.2 item, held item),
    )
  where
    next : List String
    next = if str_eq cmd.item "" then items else add_item cmd.item items

    stored : add_to_set cmd.item (some items) ≡ some next
    stored = ground arith

    held : (item : String) → has_item item next ≡ (has_item item items || names item cmd)
    held item = let added = has_item-add_item item cmd.item items in ground (arith, added)

-- When concurrent commands are processed, the counter grows by the sum of their positive amounts, and
-- an item is in the set exactly if it was there or one of the commands adds it.
when_both_processed-merges :
    (m : Merge) (items : List String)
    → m.set_items ≡ some items
    → ((when_both_processed m).counter_value ≡ m.counter_value + increments m.concurrent_cmds)
      × ((after : List String) × ((when_both_processed m).set_items ≡ some after)
          × ((item : String)
              → has_item item after ≡ (has_item item items || any_names item m.concurrent_cmds)))
unfolding when_both_processed
when_both_processed-merges m items held =
    let (after, stored, holds) = process_all-items m.concurrent_cmds m.counter_value items in
    (
      process_all-counter m.concurrent_cmds m.counter_value m.set_items,
      (after, ap (λ o. (process_all m.concurrent_cmds m.counter_value o).1) held ∙ stored, holds),
    )
