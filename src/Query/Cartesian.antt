-- ===== src/Query/Cartesian.antt =====
-- `FullCartesianResult` (libs/query/src/dice/query/operators/CartesianOperator.hpp): an iterator over
-- the combinations of the materialised results of the components of a cartesian product, which
-- counts through their positions as an odometer does, the first position fastest.
use tentris_lib.Prelude.{
  ℕ, zero, suc, ◌*◌, ◌/◌, ◌%◌, ◌^◌, Bool, true, false, not, List, [], ◌∷◌, Option, none, some,
  if◌then◌else◌, ◌==◌, length, get_or, set,
}
use tentris_lib.Query.Entry.{CountedEntry}
pub mod Combinations

-- One component: `sub_results_[i]`, `result_poss_[i]` and `iter_poss_[i]`.
pub record Component (N : Type 0) : Type 0 where
  pub sub_result : List (CountedEntry (List N))
  pub result_poss : List ℕ
  pub iter_pos : ℕ

-- The iterator, with the key of the entry that it points to.
pub record Cursor (N : Type 0) : Type 0 where
  pub components : List (Component N)
  pub key : List N
  pub value : ℕ
  pub ended : Bool

module _ {N : Type 0} (unbound : N) where
  -- `updateEntryKey`
  unfoldable pub update_entry_key : List ℕ → List N → List N → List N
  update_entry_key [] sink source_key = sink
  update_entry_key (pos ∷ poss) sink source_key =
      update_entry_key poss (set sink pos (get_or source_key pos unbound)) source_key

  -- An entry of a component; every component has one, since an empty result is replaced by a single
  -- entry with an unbound key.
  abbrev pub entry_at : List (CountedEntry (List N)) → ℕ → CountedEntry (List N)
  entry_at sub_result i = get_or sub_result i (record { key = []; value = 1 })

  abbrev pub write_component : Component N → List N → List N
  write_component c key = update_entry_key c.result_poss key (entry_at c.sub_result c.iter_pos).key

  -- The inner loop of `operator++`, over the components after the one that did not carry over.
  unfoldable pub write_remaining : List (Component N) → List N → List N
  unfolding update_entry_key
  write_remaining [] key = key
  write_remaining (c ∷ cs) key = write_remaining cs (write_component c key)

  abbrev pub carry_over : Component N → Bool
  carry_over c = suc c.iter_pos == length c.sub_result

  abbrev pub next_component : Component N → Component N
  next_component c = record c { iter_pos = if carry_over c then 0 else suc c.iter_pos }

  -- `value_ * current / last`, where the product wraps around.
  abbrev pub next_value : Component N → ℕ → ℕ
  next_value c value =
      (value * (entry_at c.sub_result (next_component c).iter_pos).value)
      % 2 ^ 64
      / (entry_at c.sub_result c.iter_pos).value

  -- The outer loop of `operator++`.
  unfoldable pub advance_from : List (Component N) → List N → ℕ → Cursor N
  unfolding write_remaining
  advance_from [] key value = record { components = []; key = key; value = value; ended = true }
  advance_from (c ∷ cs) key value =
      let current = next_component c in
      let key' = write_component current key in
      let value' = next_value c value in
      let onward = advance_from cs key' value' in
      if carry_over c then record onward { components = current ∷ onward.components } else record {
        components = current ∷ cs;
        key = write_remaining cs key';
        value = value';
        ended = false;
      }

  unfoldable pub advance : Cursor N → Cursor N
  unfolding advance_from
  advance cursor = advance_from cursor.components cursor.key cursor.value

  abbrev pub first_component : Component N → Component N
  first_component c = record c { iter_pos = 0 }

  -- `restart`
  unfoldable pub restart_from : List (Component N) → List N → ℕ → Cursor N
  unfolding update_entry_key
  restart_from [] key value = record { components = []; key = key; value = value; ended = false }
  restart_from (c ∷ cs) key value =
      let first = first_component c in
      let rest =
        restart_from cs (write_component first key)
          ((value * (entry_at c.sub_result 0).value) % 2 ^ 64) in
      record rest { components = first ∷ rest.components }

  unfoldable pub restart : Cursor N → Cursor N
  unfolding restart_from
  restart cursor = restart_from cursor.components cursor.key 1

  -- One more round of the loop, before the others.
  abbrev pub visit : Cursor N → Option (List (Cursor N)) → Option (List (Cursor N))
  visit cursor none = none
  visit cursor (some cursors) = some (cursor ∷ cursors)

  -- A loop over the iterator: the cursors at which its body runs, `none` if the fuel runs out.
  unfoldable pub iterate : ℕ → Cursor N → Option (List (Cursor N))
  unfolding advance
  iterate zero cursor = if cursor.ended then some [] else none
  iterate (suc fuel) cursor =
      let rest = iterate fuel (advance cursor) in
      if cursor.ended then some [] else visit cursor rest
