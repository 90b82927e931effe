-- ===== src/RocksDbStorage/Ranges.antt =====
-- Ascending lists of entries, cut where a test first fails.
use durastash.Prelude.{
  ◌≡◌, inl, inr, refl, sym, ap, ◌∙◌, Bool, true, List, [], ◌∷◌, Bytes, Bool-cases, if◌then◌else◌,
}
use durastash.Prelude.Text.{bytes_lt}
use durastash.Prelude.Order.{bytes_lt_trans}
use durastash.Contents.{Elem, IsAbove, IsAscending}

abbrev pub Entries : Type 0
Entries = List (Bytes × Bytes)

pub IsAbove-Elem :
    (j : Bytes) (l : Entries) (k v : Bytes) → IsAbove j l → Elem (k, v) l → bytes_lt j k ≡ true
IsAbove-Elem j [] k v h m = elim m [ ]
IsAbove-Elem j ((i, w) ∷ l) k v (h, hs) (inl e) = rw (ap (λ (t : Bytes × Bytes). t.0) e) h
IsAbove-Elem j ((i, w) ∷ l) k v (h, hs) (inr m) = bytes_lt_trans j i _ h (IsAbove-Elem i l k v hs m)

pub IsAbove-IsAscending : (j : Bytes) (l : Entries) → IsAbove j l → IsAscending l
IsAbove-IsAscending j [] h = tt
IsAbove-IsAscending j ((k, v) ∷ l) h = h.1

module _ (test : Bytes → Bool) where
  -- The entries before the first one that fails the test.
  abbrev pub take_while : Entries → Entries
  take_while [] = []
  take_while ((k, v) ∷ l) = if test k then (k, v) ∷ take_while l else []

  take_while-IsAbove : (j : Bytes) (l : Entries) → IsAbove j l → IsAbove j (take_while l)
  take_while-IsAbove j [] h = tt
  take_while-IsAbove j ((k, v) ∷ l) (h, hs) = elim (Bool-cases (test k)) [
    | inl e ↦ rw e (h, take_while-IsAbove k l hs)
    | inr e ↦ rw e tt
  ]

  pub take_while-IsAscending : (l : Entries) → IsAscending l → IsAscending (take_while l)
  take_while-IsAscending [] h = tt
  take_while-IsAscending ((k, v) ∷ l) h = elim (Bool-cases (test k)) [
    | inl e ↦ rw e (take_while-IsAbove k l h)
    | inr e ↦ rw e tt
  ]

  sound_step :
      (j w k v : Bytes) (l : Entries)
      → test j ≡ true
      → (Elem (k, v) (take_while l) → Elem (k, v) l × (test k ≡ true))
      → Elem (k, v) ((j, w) ∷ take_while l)
      → Elem (k, v) ((j, w) ∷ l) × (test k ≡ true)
  sound_step j w k v l e ih (inl p) = (inl p, ap (λ (t : Bytes × Bytes). test t.0) p ∙ e)
  sound_step j w k v l e ih (inr q) = (inr (ih q).0, (ih q).1)

  pub take_while_sound :
      (l : Entries) (k v : Bytes) → Elem (k, v) (take_while l) → Elem (k, v) l × (test k ≡ true)
  take_while_sound [] k v m = elim m [ ]
  take_while_sound ((j, w) ∷ l) k v m = elim (Bool-cases (test j)) [
    | inl e ↦ sound_step j w k v l e (take_while_sound l k v) (rw e at m)
    | inr e ↦ absurd (rw e at m)
  ]

  -- An entry that passes is kept, if all that stand below it pass.
  pub take_while_complete :
      (l : Entries) (k v : Bytes)
      → ((j w : Bytes) → Elem (j, w) l → bytes_lt j k ≡ true → test j ≡ true)
      → IsAscending l
      → Elem (k, v) l
      → test k ≡ true
      → Elem (k, v) (take_while l)
  take_while_complete [] k v down asc m t = elim m [ ]
  take_while_complete ((j, w) ∷ l) k v down asc (inl p) t =
      let e : test j ≡ true = ap (λ (x : Bytes × Bytes). test x.0) (sym p) ∙ t in rw e (inl p)
  take_while_complete ((j, w) ∷ l) k v down asc (inr m) t =
      let e : test j ≡ true = down j w (inl refl) (IsAbove-Elem j l k v asc m) in
      rw e (
        inr
          (take_while_complete l k v (λ i u n. down i u (inr n)) (IsAbove-IsAscending j l asc) m t))
