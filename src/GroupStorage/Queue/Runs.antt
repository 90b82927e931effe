-- ===== src/GroupStorage/Queue/Runs.antt =====
-- Calls of `Save` one after the other, and the `Load` that follows them.
use mathlib.Core.List.{append-nil, append_assoc}
use durastash.Prelude.{
  ℕ, ap, ◌+◌, ◌<◌, ◌≡◌, refl, sym, ◌∙◌, arith, Bool, true, false, Bool-cases, inl, inr, List, [],
  ◌∷◌, ◌++◌, Bytes, length, drop, ◌*◌, length-append, if◌then◌else◌,
}
use durastash.Prelude.Int.{i64_limit}
use durastash.Outcome.{M, ok, pure, ◌>>=◌}
use durastash.Storage.Contract.{StorageLaws}
use durastash.Json.{JsonLaws}
use durastash.System.{IsInRange}
use durastash.Env.{Env}
use durastash.GroupStorage.State.{GroupState}
use durastash.GroupStorage.Saving.{save}
use durastash.GroupStorage.Loading.{load}
use durastash.GroupStorage.Queue.{Queue}
use durastash.GroupStorage.Queue.Reading.{load-Stored}
use durastash.GroupStorage.Queue.Fifo.{NextIsFresh, save-Queue}

-- A client that saves the values in turn, up to the first failure.
unfoldable pub save_all : (e : Env) → Bytes → List Bytes → M (GroupState e) Bool
save_all e g [] = pure true
save_all e g (v ∷ vs) = do done ← save e g v; if done then save_all e g vs else pure false

-- Each identifier that is generated for a batch while the values are saved is one under which nothing
-- is stored.
unfoldable pub HasFreshIds :
    (e : Env) → StorageLaws e.storage → Bytes → Bytes → List Bytes → GroupState e → Type 0
HasFreshIds e st g sid [] s = Unit
HasFreshIds e st g sid (v ∷ vs) s =
    NextIsFresh e st g sid s × HasFreshIds e st g sid vs (save e g v s).1

module _ (e : Env) (st : StorageLaws e.storage) (js : JsonLaws e.json) (law : IsInRange e.system)
    (g sid : Bytes) (gone : ℕ) where
  pub save_all-Queue :
      (vs us : List Bytes) (s : GroupState e)
      → Queue e st g sid gone us s
      → length us + length vs + s.default_batch_size < i64_limit
      → HasFreshIds e st g sid vs s
      → (done : Bool) × (after : GroupState e) × (save_all e g vs s ≡ (ok done, after))
        × (after.default_batch_size ≡ s.default_batch_size)
        × (done ≡ true → Queue e st g sid gone (us ++ vs) after)
  unfolding save_all HasFreshIds
  save_all-Queue [] us s q small fresh = (true, s, refl, refl, λ p. rw (append-nil us) q)
  save_all-Queue (v ∷ vs) us s q small (here, later) =
      let (done, mid, run, size, more) =
        save-Queue e st js law g sid gone us v s q (omega arith) here in
      elim (Bool-cases done) [
        | inl p ↦
            let long : length (us ++ (v ∷ [])) ≡ length us + 1 = length-append us (v ∷ []) in
            let (all, after, runs, size', rest) =
              save_all-Queue vs (us ++ (v ∷ [])) mid (more p) (rw (size, long) (omega arith))
                ((rw run at later)) in
            (
              all,
              after,
              ground (arith, run, runs, p),
              size' ∙ size,
              λ h. rw (sym (append_assoc us (v ∷ []) vs)) (rest h),
            )
        | inr p ↦ (false, mid, ground (arith, run, p), size, λ h. absurd (cc h))
      ]

  -- The values of a group and those that are saved in turn are loaded again, in their order.
  pub save_all-load :
      (vs us : List Bytes) (s : GroupState e)
      → Queue e st g sid gone us s
      → length us + length vs + s.default_batch_size < i64_limit
      → HasFreshIds e st g sid vs s
      → (done : Bool) × (after : GroupState e) × (save_all e g vs s ≡ (ok done, after))
        × (done ≡ true
            → load e g after ≡ (ok (drop (gone * s.default_batch_size) (us ++ vs)), after))
  save_all-load vs us s q small fresh =
      let (done, after, run, size, holds) = save_all-Queue vs us s q small fresh in
      let long : length (us ++ vs) ≡ length us + length vs = length-append us vs in
      (
        done,
        after,
        run,
        λ p.
            load-Stored e st g sid gone (us ++ vs) after (holds p).stored (rw (size, long) small)
            ∙ ap (λ (n : ℕ). (ok (drop (gone * n) (us ++ vs)), after)) size,
      )
