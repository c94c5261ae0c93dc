-- ===== src/Safety/History.antt =====
-- internal/mirror/mirror.go: the record through a series of seedings and passes.
use umleitung.Base.{ℕ, ◌≡◌, List, [], ◌∷◌, ◌==◌ as nat_eq, arith, Bool-cases, inl, inr}
use umleitung.Base.Text.{Text}
use umleitung.Base.Keeps.{Keeps, Keeps-bind, Keeps-if, Keeps-pure}
use umleitung.Key.{FullMessage}
use umleitung.State.Tables.{has_row}
use umleitung.State.Store.{copied_count}
use umleitung.Env.{Env, Options, World, on_store}
use umleitung.Reconcile.{run, seed_from_dest}
use umleitung.Runtime.{SeedMode, seed_empty, seed_always, seed_never, maybe_seed, seed_now}
use umleitung.Safety.{DestLaws, SourceLaws, Behind}
use umleitung.Safety.Pass.{run-Behind, seed_from_dest-Behind}

-- what a session does to the store and the servers
pub data Act : Type 0 where
  seed : SeedMode → Act
  pass : Act

-- a series of them, each whether or not the one before failed
pub history : (E : Env) → Options → List Act → World E → World E
history E o [] w = w
history E o (seed mode ∷ acts) w = history E o acts (maybe_seed E o mode w).1
history E o (pass ∷ acts) w = history E o acts (run E o w).1

module _ (E : Env) (o : Options) (H : Text → E.Dst → Type 0) (content : FullMessage → Text)
    (key_of : E.Ticket → Text) (D : DestLaws E H content key_of) (key_at : E.Src → ℕ → Text)
    (L : SourceLaws E key_at content) where
  seed_now-Behind : Keeps (Behind {E = E} H) (seed_now E o)
  seed_now-Behind =
      Keeps-bind (seed_from_dest E o) _
        (record { at = seed_from_dest-Behind E o H content key_of D }) (λ n. Keeps-pure tt)

  pub maybe_seed-Behind : (mode : SeedMode) → Keeps (Behind {E = E} H) (maybe_seed E o mode)
  unfolding maybe_seed copied_count
  maybe_seed-Behind seed_always = seed_now-Behind
  maybe_seed-Behind seed_never = Keeps-pure tt
  maybe_seed-Behind seed_empty =
      Keeps-bind (on_store (copied_count E.faults)) _
        (record {
          at = λ w h. elim (Bool-cases (E.faults w.conn.calls)) [ inl e ↦ rw e h | inr e ↦ rw e h ];
        })
        (λ n. Keeps-if (nat_eq n 0) _ _ seed_now-Behind (Keeps-pure tt))

  history-Behind_from : (acts : List Act) (w : World E) → Behind H w → Behind H (history E o acts w)
  unfolding history
  history-Behind_from [] w h = h
  history-Behind_from (seed mode ∷ acts) w h =
      history-Behind_from acts _ ((maybe_seed-Behind mode).at w h)
  history-Behind_from (pass ∷ acts) w h =
      history-Behind_from acts _ (run-Behind E o H content key_of D key_at L w h)

  -- If the servers meet `DestLaws` and `SourceLaws`, then from an empty record on, after any series of
  -- seedings and passes, each ended by success or by any failure, every recorded key is present on the
  -- destination.
  pub history-Behind :
      (acts : List Act) (w : World E) → w.conn.db.copied ≡ [] → Behind H (history E o acts w)
  unfolding has_row
  history-Behind acts w e = history-Behind_from acts w (λ k r. ground (arith, e))
