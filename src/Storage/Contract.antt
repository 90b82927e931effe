-- ===== src/Storage/Contract.antt =====
-- What a client of `IStorage` may rely on: the calls read and change the contents of the store and
-- the open batch as storage.h says, where they report success.
use durastash.Prelude.{
  ◌≡◌, ◌↔◌, Bool, true, false, Option, none, some, List, [], ◌∷◌, ◌++◌, Bytes, length,
}
use durastash.Prelude.Text.{starts_with}
use durastash.Contents.{Contents, Write, put, delete, apply_write, apply_writes, Elem, IsAscending}
use durastash.Outcome.{Outcome, ok}
use durastash.Storage.{IStorage}

-- The entries whose keys start with `prefix`, each once, in the order of the keys.
pub record IsScan (c : Contents) (prefix : Bytes) (l : List (Bytes × Bytes)) : Type 0 where
  pub elem_iff : (k v : Bytes) → Elem (k, v) l ↔ ((starts_with prefix k ≡ true) × (c k ≡ some v))
  pub ascending : IsAscending l

-- What a call that may report a failure leaves behind: `c` are the contents if it reports success,
-- and `b` the open batch.
module _ (st : IStorage) (Ready : st.State → Type 0) (contents : st.State → Contents)
    (staged : st.State → Option (List Write)) where
  pub record Wrote (c : Contents) (b : Option (List Write)) (r : Outcome Bool × st.State)
      : Type 0 where
    pub done : Bool
    pub after : st.State
    pub returns : r ≡ (ok done, after)
    pub ready : Ready after
    pub batch : staged after ≡ b
    pub holds : done ≡ true → (j : Bytes) → contents after j ≡ c j

  -- What a call that edits the open batch leaves behind.
  pub record Staged (c : Contents) (b : Option (List Write)) (r : Outcome (Unit {0}) × st.State)
      : Type 0 where
    pub after : st.State
    pub returns : r ≡ (ok tt, after)
    pub ready : Ready after
    pub batch : staged after ≡ b
    pub holds : (j : Bytes) → contents after j ≡ c j

pub record StorageLaws (st : IStorage) : Type 1 where
  -- initialised, and no call is under way
  pub Ready : st.State → Type 0
  pub contents : st.State → Contents
  -- the writes of the open batch
  pub staged : st.State → Option (List Write)
  pub get_law : (k : Bytes) (s : st.State) → Ready s → st.get k s ≡ (ok (contents s k), s)
  pub put_law :
      (k v : Bytes) (s : st.State)
      → Ready s
      → Wrote st Ready contents staged
          (apply_write (put k v) (contents s))
          (staged s)
          (st.put k v s)
  pub scan_prefix_law :
      (p : Bytes) (s : st.State)
      → Ready s
      → (l : List (Bytes × Bytes)) × (st.scan_prefix p s ≡ (ok (length l, l), s))
        × IsScan (contents s) p l
  pub begin_law :
      (s : st.State)
      → Ready s
      → staged s ≡ none
      → (s' : st.State) × (st.begin_batch s ≡ (ok true, s'))
        × Ready s'
        × (staged s' ≡ some [])
        × ((j : Bytes) → contents s' j ≡ contents s j)
  pub begin_twice_law :
      (s : st.State) (ws : List Write)
      → Ready s
      → staged s ≡ some ws
      → st.begin_batch s ≡ (ok false, s)
  pub put_to_batch_law :
      (k v : Bytes) (s : st.State) (ws : List Write)
      → Ready s
      → staged s ≡ some ws
      → Staged st Ready contents staged
          (contents s)
          (some (ws ++ (put k v ∷ [])))
          (st.put_to_batch k v s)
  pub delete_from_batch_law :
      (k : Bytes) (s : st.State) (ws : List Write)
      → Ready s
      → staged s ≡ some ws
      → Staged st Ready contents staged
          (contents s)
          (some (ws ++ (delete k ∷ [])))
          (st.delete_from_batch k s)
  pub commit_law :
      (s : st.State) (ws : List Write)
      → Ready s
      → staged s ≡ some ws
      → Wrote st Ready contents staged (apply_writes ws (contents s)) none (st.commit_batch s)
  -- shut down, with its mutex free
  pub Closed : st.State → Type 0
  pub shutdown_law :
      (s : st.State)
      → Ready s
      → staged s ≡ none
      → (s' : st.State) × (st.shutdown s ≡ (ok tt, s')) × Closed s'
  pub closed_put_law : (k v : Bytes) (s : st.State) → Closed s → st.put k v s ≡ (ok false, s)
  pub closed_get_law : (k : Bytes) (s : st.State) → Closed s → st.get k s ≡ (ok none, s)
  pub destroy_law :
      (s : st.State) → Closed s → (s' : st.State) × (st.destroy s ≡ (ok tt, s')) × Closed s'
