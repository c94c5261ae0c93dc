-- ===== src/Safety/Interleaved.antt =====
-- internal/reconcile/reconcile.go: the invariant at every moment of the two goroutines of
-- `copyPipeline`.
use mathlib.Core.Path.{subst}
use umleitung.Base.{
  ◌≡◌, sym, ap, ◌∙◌, Option, none, some, List, [], ◌∷◌, ◌++◌, map, All, inl, inr, ℕ,
}
use umleitung.Base.Text.{Text}
use umleitung.Base.Exec.{Error}
use umleitung.Key.{FullMessage}
use umleitung.Env.{Env, Options, World}
use umleitung.Mirror.Pipeline.{PendingCopy, CopyItem, Pipe, by_uid, start_pipe}
use umleitung.Mirror.Channel.{Channel, item, open_channel, Run}
use umleitung.Mirror.Channel.Order.{wanted, Run-IsPartway}
use umleitung.Safety.{DestLaws, SourceLaws, Behind}
use umleitung.Safety.Pipeline.{IsItem}
use umleitung.Safety.Consumer.{consume_all-Sound, run_consumer-Sound}
use umleitung.Safety.Producer.{OnSome, by_uid-All}

All-prefix : {A : Type 0} (P : A → Type 0) (xs ys : List A) → All P (xs ++ ys) → All P xs
All-prefix P [] ys h = tt
All-prefix P (x ∷ xs) ys h = (h.0, All-prefix P xs ys h.1)

module _ (E : Env) (o : Options) (H : Text → E.Dst → Type 0) (content : FullMessage → Text)
    (key_of : E.Ticket → Text) (D : DestLaws E H content key_of) (key_at : E.Src → ℕ → Text)
    (L : SourceLaws E key_at content) where
  abbrev It : CopyItem → Type 0
  It = IsItem E o H content key_of D

  wanted-IsItem :
      (s : E.Src) (pend : List PendingCopy) (ms : List FullMessage)
      → All (λ p. p.key ≡ key_at s p.uid) pend
      → All (λ m. content m ≡ key_at s m.uid) ms
      → All It (wanted pend ms)
  unfolding wanted
  wanted-IsItem s pend [] ps cs = tt
  wanted-IsItem s pend (m ∷ ms) ps cs =
      go (by_uid pend m.uid) (by_uid-All (λ p. p.key ≡ key_at s p.uid) pend m.uid ps)
        (wanted-IsItem s pend ms ps cs.1)
    where
      go :
          (x : Option PendingCopy)
          → OnSome (λ q. (q.key ≡ key_at s q.uid) × (q.uid ≡ m.uid)) x
          → All It (wanted pend ms)
          → All It (elim x [ none ↦ wanted pend ms | some pc ↦ item m pc ∷ wanted pend ms ])
      go none q rest = rest
      go (some pc) q rest = (cs.0 ∙ (ap (key_at s) (sym q.1) ∙ sym q.0), rest)

  -- If the servers meet `DestLaws` and `SourceLaws`, and the candidates have the keys that the source
  -- shows, then at every moment of every interleaving of the two goroutines of a copy that starts with
  -- every recorded key present on the destination, every recorded key is present there: the process
  -- can be killed at any moment.
  pub Run-Behind :
      (pend : List PendingCopy) (w : World E)
      → All (λ p. p.key ≡ key_at w.src p.uid) pend
      → Behind H w
      → (end : Option Error) {s : Channel E}
      → Run E o pend
          (open_channel E o pend
            (E.src_fetch_full_stream (map (λ (p : PendingCopy). p.uid) pend) w.src).0.0
            end
            (record w {
              src = (E.src_fetch_full_stream (map (λ (p : PendingCopy). p.uid) pend) w.src).1;
            }))
          s
      → Behind H s.pipe.world
  Run-Behind pend w ps h end {s} r =
      let uids = map (λ (p : PendingCopy). p.uid) pend in
      let x = E.src_fetch_full_stream uids w.src in
      let v : World E = record w { src = x.1 } in
      let y = Run-IsPartway E o pend x.0.0 end v r in
      let items =
        All-prefix It y.taken y.untaken
          (subst (All It) y.prefix (wanted-IsItem w.src pend x.0.0 ps (L.streamed uids w.src))) in
      elim y.pipe [
        | inl e ↦
            subst (λ (p : Pipe E). Behind H p.world) (sym e)
              (consume_all-Sound E o H content key_of D y.taken (start_pipe E o v) items
                (record { world = (h, tt); records = tt; ring = tt })).world.0
        | inr e ↦
            subst (λ (p : Pipe E). Behind H p.world) (sym e)
              (run_consumer-Sound E o H content key_of D y.taken v items (h, tt)).0
      ]
