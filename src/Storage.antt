-- ===== src/Storage.antt =====
-- The storage of nodes (libs/metall-node-storage/src/dice/metall-node-storage:
-- MetallNodeStorageBackendImpl.cpp, MetallNodeTypeStorage.hpp and the backends with one counter:
-- MetallIRIBackend.cpp, MetallBNodeBackend.cpp, MetallVariableBackend.cpp and
-- MetallSpecializedLiteralBackend.hpp). The views of nodes are those of rdf4cpp, a parameter.
-- A backend is an object in memory that both maps point to; erasing destroys it, but gives its
-- memory back to nobody, so that no address is used twice.
use tentris_lib.Prelude.{
  ℕ, suc, ◌+◌, ◌^◌, Bool, true, false, List, [], ◌∷◌, Option, none, some, if◌then◌else◌, ◌==◌, leb,
  ◌≡◌, ◌↔◌, ◌>>=◌,
}
use tentris_lib.Prelude.Maps.{find}
pub mod Rows
pub mod Inverse
pub mod Changes
pub mod Erasing
pub mod Steps

-- `==` of views, and the number of bits of an identifier.
pub record Views : Type 1 where
  pub View : Type 0
  pub same_view : View → View → Bool
  pub width : ℕ

-- `MetallNodeTypeStorage`: both maps, the generator, and the memory.
pub record Storage (View : Type 0) : Type 0 where
  pub id2data : List (ℕ × ℕ)
  pub data2id : List (ℕ × ℕ)
  pub next_id : ℕ
  pub backends : List (ℕ × View)
  pub next_address : ℕ

-- `erase` of a map.
abbrev pub erase_key : {A : Type 0} → ℕ → List (ℕ × A) → List (ℕ × A)
erase_key h [] = []
erase_key h ((key, value) ∷ entries) =
    let rest = erase_key h entries in if key == h then entries else (key, value) ∷ rest

module _ (views : Views) where
  open views use {View, same_view, width}

  -- `BackendTypeEqual`: a pointer against a view. Here and below, the outer `none` is a fault: what a
  -- dangling pointer points to is read, or an assertion fails.
  abbrev pub points_to : Option View → View → Option Bool
  points_to none view = none
  points_to (some backend) view = some (same_view view backend)

  -- `data2id.find`. Which entries a hash map compares with depends on the hashes; here it is all of
  -- them, up to the one that is found.
  unfoldable pub find_data : List (ℕ × View) → View → List (ℕ × ℕ) → Option (Option ℕ)
  find_data backends view [] = some none
  find_data backends view ((address, id) ∷ entries) =
      let later = find_data backends view entries in
      points_to (find address backends) view >>= λ same. if same then some (some id) else later

  -- `data2id.erase` at what `find` gives, which has to be there.
  unfoldable pub erase_data : List (ℕ × View) → View → List (ℕ × ℕ) → Option (List (ℕ × ℕ))
  erase_data backends view [] = none
  erase_data backends view ((address, id) ∷ entries) =
      let later = erase_data backends view entries >>= λ rest. some ((address, id) ∷ rest) in
      points_to (find address backends) view >>= λ same. if same then some entries else later

  -- `find_id`, which is also what `lookup_or_insert_impl` does under the shared lock.
  unfoldable pub find_id : View → Storage View → Option (Option ℕ)
  unfolding find_data
  find_id view s = find_data s.backends view s.data2id

  -- What `lookup_or_insert_impl` does under the unique lock, from what it finds there; `none` is
  -- `std::terminate`.
  abbrev pub insert_missing : View → Storage View → Option ℕ → Option (Storage View × ℕ)
  insert_missing view s (some id) = some (s, id)
  insert_missing view s none =
      if leb (2 ^ width) s.next_id
      then none
      else some (
        record {
          id2data = (s.next_id, s.next_address) ∷ s.id2data;
          data2id = (s.next_address, s.next_id) ∷ s.data2id;
          next_id = suc s.next_id;
          backends = (s.next_address, view) ∷ s.backends;
          next_address = suc s.next_address;
        },
        s.next_id,
      )

  unfoldable pub insert : View → Storage View → Option (Storage View × ℕ)
  unfolding find_id
  insert view s = find_id view s >>= λ found. insert_missing view s found

  -- `find_or_make_id`: the storage under the shared lock, and the one under the unique lock, which
  -- other threads may have changed in between.
  abbrev pub or_insert :
      View → Storage View → Option (Storage View × ℕ) → Option ℕ → Option (Storage View × ℕ)
  or_insert view later inserted (some id) = some (later, id)
  or_insert view later inserted none = inserted

  unfoldable pub find_or_make_id : View → Storage View → Storage View → Option (Storage View × ℕ)
  unfolding insert
  find_or_make_id view shared later =
      find_id view shared >>= λ found. or_insert view later (insert view later) found

  -- `find_backend_view`; the inner `none` is the exception of `at` for a missing identifier.
  abbrev pub view_at : Storage View → Option ℕ → Option (Option View)
  view_at s none = some none
  view_at s (some address) = find address s.backends >>= λ view. some (some view)

  unfoldable pub find_backend_view : ℕ → Storage View → Option (Option View)
  find_backend_view id s = view_at s (find id s.id2data)

  -- `erase_impl`, from the address that the identifier leads to.
  abbrev pub erase_at : ℕ → Storage View → Option ℕ → Option (Storage View × Bool)
  erase_at id s none = some (s, false)
  erase_at id s (some address) = find address s.backends >>= λ view.
      erase_data s.backends view s.data2id >>= λ data2id. some (
        record s {
          id2data = erase_key id s.id2data;
          data2id = data2id;
          backends = erase_key address s.backends;
        },
        true,
      )

  unfoldable pub erase : ℕ → Storage View → Option (Storage View × Bool)
  unfolding erase_data
  erase id s = erase_at id s (find id s.id2data)

  -- The constructor: a storage with the reserved nodes, which only that of IRIs has, and with the
  -- generator at its first identifier.
  abbrev pub initial_storage : ℕ → List (ℕ × View) → Storage View
  initial_storage first_id [] = record {
    id2data = [];
    data2id = [];
    next_id = first_id;
    backends = [];
    next_address = 0;
  }
  initial_storage first_id ((id, iri) ∷ reserved) =
      let s = initial_storage first_id reserved in
      record {
        id2data = (id, s.next_address) ∷ s.id2data;
        data2id = (s.next_address, id) ∷ s.data2id;
        next_id = s.next_id;
        backends = (s.next_address, iri) ∷ s.backends;
        next_address = suc s.next_address;
      }
