-- ===== src/Calls/Groups.antt =====
-- Calls of the parts of `GroupStorage`, with its mutex held.
use durastash.Prelude.{
  ◌<◌, ◌≡◌, Bool, true, false, Option, none, some, Bytes, ℤ, not, if◌then◌else◌,
}
use durastash.Outcome.{M, pure, gets, ◌>>=◌}
use durastash.Outcome.Triples.{Holds, Keeps, seq, wrap-Ends}
use durastash.Storage.Contract.{StorageLaws}
use durastash.Maps.{find}
use durastash.Env.{Env, World, on_store}
use durastash.SessionManager.{Sessions}
use durastash.GroupStorage.State.{GroupState, in_world, in_sessions}
use durastash.GroupStorage.Saving.{get_next_sequence_id, next_sequence}
use durastash.Calls.Worlds.{IsIdle, IsOpen, Idles, Opens, begin_batch-Holds, commit_batch-Holds}
use durastash.Calls.Sessions.{Quiets}

module _ (e : Env) (st : StorageLaws e.storage) where
  -- The storage is ready with no batch of writes open, and the batch size is above 0.
  abbrev pub IsSound : GroupState e → Type 0
  IsSound s = IsIdle e st s.sessions.world × (0 < s.default_batch_size)

  abbrev pub IsWriting : GroupState e → Type 0
  IsWriting s = IsOpen e st s.sessions.world × (0 < s.default_batch_size)

  abbrev pub Sounds : {A : Type 0} → M (GroupState e) A → Type 0
  Sounds m = Keeps IsSound m

  abbrev pub Writes : M (GroupState e) (Unit {0}) → Type 0
  Writes m = Holds IsSound IsWriting m (λ _. IsWriting)

  in_world-Holds :
      {A : Type 0} (P : World e → Type 0) (Q : A → World e → Type 0) (m : M (World e) A)
      → Holds (IsIdle e st) P m Q
      → Holds IsSound
          (λ s. P s.sessions.world × (0 < s.default_batch_size))
          (in_world m)
          (λ a s. Q a s.sessions.world × (0 < s.default_batch_size))
  unfolding in_world
  in_world-Holds P Q m h s (x, sized) =
      wrap-Ends (IsIdle e st) IsSound (λ w. record s { sessions = record s.sessions { world = w } })
        Q (λ a s. Q a s.sessions.world × (0 < s.default_batch_size)) (λ w y. (y, sized))
        (λ a w y. (y, sized)) (m s.sessions.world) (h s.sessions.world x)

  pub in_world-Sounds : {A : Type 0} (m : M (World e) A) → Idles e st m → Sounds (in_world m)
  in_world-Sounds m h = in_world-Holds (IsIdle e st) (λ _. IsIdle e st) m h

  pub in_world-Writes : (m : M (World e) (Unit {0})) → Opens e st m → Writes (in_world m)
  in_world-Writes m h = in_world-Holds (IsOpen e st) (λ _. IsOpen e st) m h

  pub in_sessions-Sounds :
      {A : Type 0} (m : M (Sessions e) A) → Quiets e st m → Sounds (in_sessions m)
  unfolding in_sessions
  in_sessions-Sounds m h s (x, sized) =
      wrap-Ends (λ t. IsIdle e st t.world) IsSound (λ t. record s { sessions = t })
        (λ _ t. IsIdle e st t.world) (λ _. IsSound) (λ w y. (y, sized)) (λ a w y. (y, sized))
        (m s.sessions) (h s.sessions x)

  -- A read of the state, and what follows it.
  pub reads :
      {A B : Type 0} (f : GroupState e → A) (k : A → M (GroupState e) B)
      → ((a : A) → Sounds (k a))
      → Sounds (gets f >>= k)
  reads f k h s x = h (f s) s x

  pub get_next_sequence_id-Sounds : (g : Bytes) → Sounds (get_next_sequence_id e g)
  unfolding get_next_sequence_id
  get_next_sequence_id-Sounds g s x = next (find g s.group_sequence_counters) s x
    where
      next : (o : Option ℤ) → Sounds (next_sequence e g o)
      next none s x = unfold next_sequence in x
      next (some last) s x = unfold next_sequence in x

  -- A block of writes in one batch: nothing is done if it could not be begun.
  pub batch-Sounds :
      (m : M (GroupState e) Bool)
      → Holds IsSound IsWriting m (λ _. IsSound)
      → Sounds (
          in_world (on_store e e.storage.begin_batch) >>= λ begun.
          if not begun then pure false else m)
  batch-Sounds m h =
      seq IsSound IsSound
        (λ b s. ((b ≡ true) × IsOpen e st s.sessions.world) × (0 < s.default_batch_size))
        (λ _. IsSound) _ _
        (in_world-Holds (IsIdle e st) (λ b w. (b ≡ true) × IsOpen e st w) _
          (begin_batch-Holds e st))
        block
    where
      block :
          (begun : Bool)
          → Holds IsSound
              (λ s. ((begun ≡ true) × IsOpen e st s.sessions.world) × (0 < s.default_batch_size))
              (if not begun then pure false else m)
              (λ _. IsSound)
      block true s ((p, o), sized) = h s (o, sized)
      block false s ((p, o), sized) = absurd (cc p)

  pub commit-Sounds :
      Holds IsSound IsWriting (in_world (on_store e e.storage.commit_batch)) (λ _. IsSound)
  commit-Sounds = in_world-Holds (IsOpen e st) (λ _. IsIdle e st) _ (commit_batch-Holds e st)
