-- ===== src/Prelude/HashMap.antt =====
-- `HashMap<DownloadId, V>` as an association list: one entry a key, in the order of insertion.
-- The laws are in `if` form and need no side condition.
use open_download_manager.Prelude.{
  ℕ, ◌+◌, ◌≤◌, ◌≡◌, refl, Bool, List, [], ◌∷◌, Option, none, some, arith, ◌==◌, if◌then◌else◌,
}

module _ {ℓ} {V : Type ℓ} where
  abbrev pub get : ℕ → List (ℕ × V) → Option V
  get k [] = none
  get k ((j, v) ∷ m) = if j == k then some v else get k m

  unfoldable pub insert : ℕ → V → List (ℕ × V) → List (ℕ × V)
  insert k v [] = (k, v) ∷ []
  insert k v ((j, w) ∷ m) = if j == k then (k, v) ∷ m else (j, w) ∷ insert k v m

  -- `get_mut` and a write through it; nothing happens where the key is missing.
  unfoldable pub update : ℕ → (V → V) → List (ℕ × V) → List (ℕ × V)
  update k f [] = []
  update k f ((j, w) ∷ m) = if j == k then (j, f w) ∷ m else (j, w) ∷ update k f m

  unfoldable pub remove : ℕ → List (ℕ × V) → List (ℕ × V)
  remove k [] = []
  remove k ((j, w) ∷ m) = let rest = remove k m in if j == k then rest else (j, w) ∷ rest

  unfoldable pub values : List (ℕ × V) → List V
  values [] = []
  values ((j, v) ∷ m) = v ∷ values m

  abbrev pub map_opt : (V → V) → Option V → Option V
  map_opt f none = none
  map_opt f (some v) = some (f v)

  pub get-insert :
      (k j : ℕ) (v : V) (m : List (ℕ × V))
      → get j (insert k v m) ≡ (if k == j then some v else get j m)
  unfolding insert
  get-insert k j v [] = refl
  get-insert k j v ((i, w) ∷ m) = ground (arith, get-insert k j v m)

  pub get-update :
      (k j : ℕ) (f : V → V) (m : List (ℕ × V))
      → get j (update k f m) ≡ (if k == j then map_opt f (get j m) else get j m)
  unfolding update
  get-update k j f [] = ground arith
  get-update k j f ((i, w) ∷ m) = ground (arith, get-update k j f m)

  pub get-remove :
      (k j : ℕ) (m : List (ℕ × V)) → get j (remove k m) ≡ (if k == j then none else get j m)
  unfolding remove
  get-remove k j [] = ground arith
  get-remove k j ((i, w) ∷ m) = ground (arith, get-remove k j m)

-- The number of entries whose value passes a test, and how each operation changes it.
module _ {ℓ} {V : Type ℓ} (p : V → Bool) where
  abbrev pub weight : V → ℕ
  weight v = if p v then 1 else 0

  abbrev pub weight_opt : Option V → ℕ
  weight_opt none = 0
  weight_opt (some v) = weight v

  unfoldable pub count : List (ℕ × V) → ℕ
  count [] = 0
  count ((j, v) ∷ m) = weight v + count m

  pub count-insert :
      (k : ℕ) (v : V) (m : List (ℕ × V))
      → count (insert k v m) + weight_opt (get k m) ≡ count m + weight v
  unfolding count insert
  count-insert k v [] = ground arith
  count-insert k v ((i, w) ∷ m) = ground (arith, count-insert k v m)

  pub count-update :
      (k : ℕ) (f : V → V) (m : List (ℕ × V))
      → count (update k f m) + weight_opt (get k m) ≡ count m + weight_opt (map_opt f (get k m))
  unfolding count update
  count-update k f [] = refl
  count-update k f ((i, w) ∷ m) = ground (arith, count-update k f m)

  pub count-remove : (k : ℕ) (m : List (ℕ × V)) → count (remove k m) ≤ count m
  unfolding count remove
  count-remove k [] = omega arith
  count-remove k ((i, w) ∷ m) = ground (arith, count-remove k m)
