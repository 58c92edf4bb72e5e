-- ===== src/Tests/Stored.antt =====
-- A storage of a few nodes, of which one is reserved.
use tentris_lib.Prelude.{
  ℕ, ◌≡◌, ◌↔◌, refl, Bool, true, [], ◌∷◌, List, Option, ◌==◌, ==_iff, some, arith,
}
use tentris_lib.Storage.{
  Views, Storage, find_id, insert, find_or_make_id, find_backend_view, erase, initial_storage,
}
use tentris_lib.Storage.Rows.{Decides}
use tentris_lib.Storage.Steps.{
  AreReserved, Reach, start, inserts, erases, find_id-find_backend_view, find_or_make_id-found,
}

-- Views are numbers, identifiers have eight bits.
abbrev numbers : Views
numbers = record { View = ℕ; same_view = λ v w. v == w; width = 8 }

numbers-Decides : Decides numbers
numbers-Decides v w = ==_iff v w

-- The node 5 has the identifier 3, and new ones start at 10.
abbrev reserved : List (ℕ × ℕ)
reserved = (3, 5) ∷ []

reserved-AreReserved : AreReserved numbers 10 reserved
reserved-AreReserved = (omega arith, tt, tt)

abbrev with_7 : Storage ℕ
with_7 = record {
  id2data = (10, 1) ∷ (3, 0) ∷ [];
  data2id = (1, 10) ∷ (0, 3) ∷ [];
  next_id = 11;
  backends = (1, 7) ∷ (0, 5) ∷ [];
  next_address = 2;
}

abbrev with_9 : Storage ℕ
with_9 = record {
  id2data = (11, 2) ∷ (10, 1) ∷ (3, 0) ∷ [];
  data2id = (2, 11) ∷ (1, 10) ∷ (0, 3) ∷ [];
  next_id = 12;
  backends = (2, 9) ∷ (1, 7) ∷ (0, 5) ∷ [];
  next_address = 3;
}

abbrev without_7 : Storage ℕ
without_7 = record {
  id2data = (11, 2) ∷ (3, 0) ∷ [];
  data2id = (2, 11) ∷ (0, 3) ∷ [];
  next_id = 12;
  backends = (2, 9) ∷ (0, 5) ∷ [];
  next_address = 3;
}

makes_7 : insert numbers 7 (initial_storage numbers 10 reserved) ≡ some (with_7, 10)
unfolding insert
makes_7 = refl

makes_9 : insert numbers 9 with_7 ≡ some (with_9, 11)
unfolding insert
makes_9 = refl

erases_7 : erase numbers 10 with_9 ≡ some (without_7, true)
unfolding erase
erases_7 = refl

reach_9 : Reach numbers 10 reserved with_9
reach_9 =
    inserts 9 with_7 with_9 11
      (inserts 7 (initial_storage numbers 10 reserved) with_7 10 start makes_7) makes_9

find_id-find_backend_view_example :
    (o : Option ℕ) × (found : Option ℕ) × (s' : Storage ℕ) × (ok : Bool) × (find_id numbers 9
        without_7
      ≡ some o)
    × (find_backend_view numbers 11 without_7 ≡ some found)
    × (erase numbers 11 without_7 ≡ some (s', ok))
    × ((o ≡ some 11) ↔ (found ≡ some 9))
find_id-find_backend_view_example =
    find_id-find_backend_view numbers 10 reserved numbers-Decides reserved-AreReserved without_7 9
      11 (erases 10 with_9 without_7 true reach_9 erases_7)

makes_again : find_or_make_id numbers 7 with_9 with_9 ≡ some (with_9, 10)
unfolding find_or_make_id
makes_again = refl

find_or_make_id-found_example :
    (find_id numbers 7 with_9 ≡ some (some 10))
    × (find_backend_view numbers 10 with_9 ≡ some (some 7))
find_or_make_id-found_example =
    find_or_make_id-found numbers 10 reserved numbers-Decides reserved-AreReserved 7 with_9 with_9
      10 reach_9 makes_again
