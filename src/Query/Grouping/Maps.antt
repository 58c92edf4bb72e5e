-- ===== src/Query/Grouping/Maps.antt =====
-- The association lists of the grouping operator: lookups after an update, and lists in which every
-- key stands once.
use tentris_lib.Prelude.{
  ℕ, ◌≡◌, refl, ap, false, List, [], ◌∷◌, Option, none, some, if◌then◌else◌, ◌==◌, arith,
}
use tentris_lib.Prelude.Sets.{count}
use tentris_lib.Prelude.Maps.{find, is_found}
use tentris_lib.Query.Grouping.{upsert}

module _ {A : Type 0} where
  abbrev pub or_else : A → Option A → A
  or_else fresh none = fresh
  or_else fresh (some a) = a

  abbrev pub keys : List (ℕ × A) → List ℕ
  keys [] = []
  keys ((key, value) ∷ m) = key ∷ keys m

  abbrev pub HasDistinctKeys : List (ℕ × A) → Type 0
  HasDistinctKeys [] = Unit
  HasDistinctKeys ((key, value) ∷ m) = (find key m ≡ none) × HasDistinctKeys m

  abbrev pub AllEntries : (ℕ → A → Type 0) → List (ℕ × A) → Type 0
  AllEntries P [] = Unit
  AllEntries P ((key, value) ∷ m) = P key value × AllEntries P m

  pub find-upsert :
      (h k : ℕ) (fresh : A) (change : A → A) (m : List (ℕ × A))
      → find h (upsert k fresh change m)
        ≡ (if k == h then some (change (or_else fresh (find h m))) else find h m)
  find-upsert h k fresh change [] = refl
  find-upsert h k fresh change ((key, value) ∷ m) = ground (arith, find-upsert h k fresh change m)

  -- The fresh value matters only where the key is missing.
  pub upsert-fresh :
      (k : ℕ) (fresh fresh' : A) (change : A → A) (m : List (ℕ × A))
      → (is_found (find k m) ≡ false → fresh ≡ fresh')
      → upsert k fresh change m ≡ upsert k fresh' change m
  upsert-fresh k fresh fresh' change [] h = ap (λ f. (k, change f) ∷ []) (h refl)
  upsert-fresh k fresh fresh' change ((key, value) ∷ m) h =
      ground (arith, upsert-fresh k fresh fresh' change m)

  pub upsert-HasDistinctKeys :
      (k : ℕ) (fresh : A) (change : A → A) (m : List (ℕ × A))
      → HasDistinctKeys m
      → HasDistinctKeys (upsert k fresh change m)
  upsert-HasDistinctKeys k fresh change [] h = (refl, tt)
  upsert-HasDistinctKeys k fresh change ((key, value) ∷ m) h =
      ground (arith, upsert-HasDistinctKeys k fresh change m, find-upsert key k fresh change m)

  pub count-keys :
      (h : ℕ) (m : List (ℕ × A))
      → HasDistinctKeys m
      → count h (keys m) ≡ (if is_found (find h m) then 1 else 0)
  count-keys h [] d = refl
  count-keys h ((key, value) ∷ m) d = ground (arith, count-keys h m d.1)

  not_shadowed :
      (j : ℕ) (w : A) (m m' : List (ℕ × A))
      → find j m ≡ none
      → AllEntries (λ k v. find k m' ≡ some v) m
      → AllEntries (λ k v. find k ((j, w) ∷ m') ≡ some v) m
  not_shadowed j w [] m' h all = tt
  not_shadowed j w ((key, value) ∷ m) m' h all = ground (arith, not_shadowed j w m m')

  pub entries_found :
      (m : List (ℕ × A)) → HasDistinctKeys m → AllEntries (λ k v. find k m ≡ some v) m
  entries_found [] d = tt
  entries_found ((key, value) ∷ m) d =
      ground (arith, not_shadowed key value m m d.0, entries_found m d.1)

  pub AllEntries-map :
      (P Q : ℕ → A → Type 0)
      → ((k : ℕ) (v : A) → P k v → Q k v)
      → (m : List (ℕ × A)) → AllEntries P m
      → AllEntries Q m
  AllEntries-map P Q f [] h = tt
  AllEntries-map P Q f ((key, value) ∷ m) h = (f key value h.0, AllEntries-map P Q f m h.1)
