-- ===== src/GroupStorage/Counters.antt =====
-- The numbers that the values of a group are given.
use durastash.Prelude.{◌≡◌, ◌≢◌, refl, sym, ◌∙◌, arith, Option, none, some, Bytes, ℤ, pos}
use durastash.Prelude.Text.{bytes_eq_refl, bytes_eq_ne}
use durastash.Prelude.Int.{add_i64}
use durastash.Outcome.{ok}
use durastash.Maps.{find, assign, find-assign}
use durastash.Env.{Env}
use durastash.GroupStorage.State.{GroupState}
use durastash.GroupStorage.Saving.{get_next_sequence_id, next_sequence}

module _ (e : Env) where
  -- How many numbers a group has been given, as its counter says.
  unfoldable pub given : Option ℤ → ℤ
  given none = pos 0
  given (some last) = add_i64 last (pos 1)

  pub next_of_given :
      (g : Bytes) (s : GroupState e) (n : ℤ)
      → given (find g s.group_sequence_counters) ≡ n
      → get_next_sequence_id e g s
        ≡ (ok n, record s { group_sequence_counters = assign g n s.group_sequence_counters })
  unfolding get_next_sequence_id next_sequence given
  next_of_given g s n h = counts (find g s.group_sequence_counters) refl h
    where
      counts :
          (o : Option ℤ)
          → find g s.group_sequence_counters ≡ o
          → given o ≡ n
          → get_next_sequence_id e g s
            ≡ (ok n, record s { group_sequence_counters = assign g n s.group_sequence_counters })
      counts none q h = ground arith
      counts (some last) q h = ground arith

  -- The number that `GetNextSequenceId` gives is 0 for the first of a group and one above the last
  -- otherwise, in 64 bits; it becomes the group's counter, and the counters of other groups stay.
  pub get_next_sequence_id_lem :
      (g : Bytes) (s : GroupState e)
      → (n : ℤ) × (s' : GroupState e) × (get_next_sequence_id e g s ≡ (ok n, s'))
        × (n ≡ given (find g s.group_sequence_counters))
        × (find g s'.group_sequence_counters ≡ some n)
        × ((j : Bytes)
            → j ≢ g
            → find j s'.group_sequence_counters ≡ find j s.group_sequence_counters)
  get_next_sequence_id_lem g s =
      let n = given (find g s.group_sequence_counters) in
      (
        n,
        record s { group_sequence_counters = assign g n s.group_sequence_counters },
        next_of_given g s n refl,
        refl,
        find-assign g g n s.group_sequence_counters ∙ rw (bytes_eq_refl g),
        λ j ne.
            find-assign j g n s.group_sequence_counters ∙ rw (bytes_eq_ne g j (λ q. ne (sym q))),
      )
