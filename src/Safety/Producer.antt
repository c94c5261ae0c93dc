-- ===== src/Safety/Producer.antt =====
-- internal/reconcile/reconcile.go: the whole of `copyPipeline` keeps the invariant.
use umleitung.Base.{
  ℕ, ◌≡◌, refl, sym, ap, ◌∙◌, Bool, true, false, Option, none, some, List, [], ◌∷◌, map, ◌+◌,
  if◌then◌else◌, All, ◌==◌ as nat_eq, ==_iff,
}
use umleitung.Base.Text.{Text}
use umleitung.Base.Exec.{Error}
use umleitung.Key.{FullMessage}
use umleitung.Env.{Env, Options, World}
use umleitung.Mirror.Pipeline.{
  PendingCopy, Pipe, run_consumer, by_uid, send, Sent, produce, finish, first_error, copy_pipeline,
  start_pipe,
}
use umleitung.Safety.{DestLaws, SourceLaws}
use umleitung.Safety.Frame.{Sound}
use umleitung.Safety.Phases.{Any}
use umleitung.Safety.Pipeline.{IsItem}
use umleitung.Safety.Consumer.{run_consumer-Sound}

-- a predicate of the value, if there is one
abbrev pub OnSome : {A : Type 0} → (A → Type 0) → Option A → Type 0
OnSome P none = Unit
OnSome P (some a) = P a

pub by_uid-All :
    (P : PendingCopy → Type 0) (pend : List PendingCopy) (u : ℕ)
    → All P pend
    → OnSome (λ q. P q × (q.uid ≡ u)) (by_uid pend u)
unfolding by_uid
by_uid-All P [] u h = tt
by_uid-All P (p ∷ pend) u h = go (by_uid pend u) (by_uid-All P pend u h.1)
  where
    here :
        (b : Bool)
        → (b ≡ true → p.uid ≡ u)
        → OnSome (λ (q : PendingCopy). P q × (q.uid ≡ u)) (if b then some p else none)
    here true e = (h.0, e refl)
    here false e = tt

    go :
        (x : Option PendingCopy)
        → OnSome (λ (q : PendingCopy). P q × (q.uid ≡ u)) x
        → OnSome
            (λ (q : PendingCopy). P q × (q.uid ≡ u))
            (elim x [ some q ↦ some q | none ↦ if nat_eq p.uid u then some p else none ])
    go (some q) k = k
    go none k = here (nat_eq p.uid u) ((==_iff p.uid u).0)

module _ (E : Env) (o : Options) (H : Text → E.Dst → Type 0) (content : FullMessage → Text)
    (key_of : E.Ticket → Text) (D : DestLaws E H content key_of) (key_at : E.Src → ℕ → Text)
    (L : SourceLaws E key_at content) where
  abbrev IsSent : Sent E o → Type 0
  IsSent x = All (IsItem E o H content key_of D) x.0.0 × Sound H (Any E) x.1

  IsSent-send :
      (s : E.Src) (x : Option PendingCopy) (b : Bool) (m : FullMessage) (rest : World E → Sent E o)
      (w : World E)
      → OnSome (λ q. (q.key ≡ key_at s q.uid) × (q.uid ≡ m.uid)) x
      → content m ≡ key_at s m.uid
      → ((v : World E) → Sound H (Any E) v → IsSent (rest v))
      → Sound H (Any E) w
      → IsSent (send E o x b m rest w)
  IsSent-send s none b m rest w q c k h = k w h
  IsSent-send s (some pc) true m rest w q c k h = (tt, h)
  IsSent-send s (some pc) false m rest w q c k h =
      let r = k (record w { polls = w.polls + 1 }) h in
      ((c ∙ (ap (key_at s) (sym q.1) ∙ sym q.0), r.0), r.1)

  IsSent-produce :
      (s : E.Src) (pend : List PendingCopy) (end : Option Error) (ms : List FullMessage)
      → All (λ p. p.key ≡ key_at s p.uid) pend
      → All (λ m. content m ≡ key_at s m.uid) ms
      → (w : World E) → Sound H (Any E) w
      → IsSent (produce E o pend end ms w)
  unfolding produce
  IsSent-produce s pend end [] ps cs w h = (tt, h)
  IsSent-produce s pend end (m ∷ ms) ps cs w h =
      IsSent-send s (by_uid pend m.uid) (E.done w.polls) m (produce E o pend end ms) w
        (by_uid-All (λ p. p.key ≡ key_at s p.uid) pend m.uid ps) cs.0
        (IsSent-produce s pend end ms ps cs.1) h

  finish-Sound :
      (end : Option Error) (p : Pipe E)
      → Sound H (Any E) p.world
      → Sound H (Any E) (finish E o end p).1
  finish-Sound end p h = go p.cons_err end
    where
      go : (c e : Option Error) → Sound H (Any E) (first_error E o c e p.world).1
      go (some x) e = h
      go none (some x) = h
      go none none = h

  pub copy_pipeline-Sound :
      (pend : List PendingCopy) (w : World E)
      → All (λ p. p.key ≡ key_at w.src p.uid) pend
      → Sound H (Any E) w
      → Sound H (Any E) (copy_pipeline E o pend w).1
  unfolding copy_pipeline
  copy_pipeline-Sound pend w ps h =
      let uids = map (λ (p : PendingCopy). p.uid) pend in
      let x = E.src_fetch_full_stream uids w.src in
      let sent =
        IsSent-produce w.src pend x.0.1 x.0.0 ps (L.streamed uids w.src) (record w { src = x.1 })
          h in
      let y = produce E o pend x.0.1 x.0.0 (record w { src = x.1 }) in
      finish-Sound y.0.1 (run_consumer E o y.0.0 (start_pipe E o y.1))
        (run_consumer-Sound E o H content key_of D y.0.0 y.1 sent.0 sent.1)
