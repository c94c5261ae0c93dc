-- ===== src/Safety/Consumer.antt =====
-- internal/reconcile/reconcile.go: the consumer of `copyPipeline` keeps the invariant.
use mathlib.Core.Path.{subst}
use umleitung.Base.{
  ℕ, zero, suc, ◌≡◌, refl, sym, ◌∙◌, Option, none, some, List, [], ◌∷◌, ◌++◌, length, leb, All,
  All-append,
}
use umleitung.Base.Text.{Text}
use umleitung.Base.Exec.{Error, Result, ok, err}
use umleitung.Base.Keeps.{Keeps, Keeps-bind, Keeps-if, Keeps-pure}
use umleitung.Key.{FullMessage}
use umleitung.Env.{Env, Options, World, on_store, on_dst}
use umleitung.State.Store.{member_folders}
use umleitung.Routing.{labels_for}
use umleitung.Mirror.Pipeline.{
  CopyItem, InflightAppend, Pipe, keywords_for, after_begin, begin, consume, consume_all, drain,
  run_consumer, ring_limit, safe_flags, has_any, start_pipe,
}
use umleitung.Safety.{DestLaws}
use umleitung.Safety.Frame.{Sound, Sound-labels_for, Sound-on_dst}
use umleitung.Safety.Phases.{Any}
use umleitung.Safety.Pipeline.{
  IsItem, PipeSound, IsInflight, PipeSound-fail, PipeSound-if, PipeSound-moved,
  PipeSound-settle_oldest, PipeSound-flush_records,
}

module _ (E : Env) (o : Options) (H : Text → E.Dst → Type 0) (content : FullMessage → Text)
    (key_of : E.Ticket → Text) (D : DestLaws E H content key_of) where
  abbrev I : World E → Type 0
  I = Sound H (Any E)

  abbrev S : Pipe E → Type 0
  S = PipeSound E o H content key_of D

  abbrev It : CopyItem → Type 0
  It = IsItem E o H content key_of D

  keywords_for-Sound : (k : Text) → Keeps I (keywords_for E o k)
  keywords_for-Sound k =
      Keeps-if o.sync_labels _ _
        (Keeps-bind _ _ (Sound-labels_for E o H (Any E) k) (λ ls. Keeps-pure _)) (Keeps-pure _)

  keywords_for-dst :
      (k : Text) (d : E.Dst) → Keeps (λ (w : World E). w.dst ≡ d) (keywords_for E o k)
  unfolding labels_for
  keywords_for-dst k d =
      Keeps-if o.sync_labels _ _
        (Keeps-bind _ _
          (Keeps-bind (on_store (member_folders E.faults k)) _ (record { at = λ w h. h })
            (λ fs. Keeps-pure _))
          (λ ls. Keeps-pure _))
        (Keeps-pure _)

  after_begin-Sound :
      (it : CopyItem) (base kws : List Text) (p : Pipe E) (x : Result E.Ticket × World E)
      → It it
      → ((t : E.Ticket) → x.0 ≡ ok t → key_of t ≡ content it.full)
      → S (record p { world = x.1 })
      → S (after_begin E o it base kws p x)
  after_begin-Sound it base kws p (err e, w) is begun h =
      PipeSound-fail E o H content key_of D e _ h
  after_begin-Sound it base kws p (ok t, w) is begun h =
      let a : InflightAppend E = record {
        pa = t;
        pc = it.pc;
        full = it.full;
        base_flags = base;
        had_keywords = has_any E o kws;
      } in
      let p' : Pipe E = record p { world = w; ring = p.ring ++ a ∷ [] } in
      let of_a : IsInflight E o H content key_of D a = record {
        of_ticket = begun t refl ∙ is;
        of_full = is;
      } in
      let h' : S p' = record {
        world = h.world;
        records = h.records;
        ring = All-append (IsInflight E o H content key_of D) p.ring _ h.ring (of_a, tt);
      } in
      PipeSound-if E o H content key_of D (leb (ring_limit E o) (length p'.ring)) _ _
        (PipeSound-settle_oldest E o H content key_of D p' h') h'

  begin-Sound :
      (it : CopyItem) (p : Pipe E) (x : Result (List Text) × World E)
      → It it
      → S (record p { world = x.1 })
      → S (begin E o it p x)
  begin-Sound it p (err e, w) is h = PipeSound-fail E o H content key_of D e _ h
  begin-Sound it p (ok kws, w) is h =
      let base = safe_flags E.names it.full.flags o.carry_seen in
      let folder = it.pc.dest_folder in
      let grow = D.begin_keeps folder it.full (base ++ kws) in
      after_begin-Sound it base kws p (on_dst (E.dst_begin_append folder it.full (base ++ kws)) w)
        is (λ t e. D.begun folder it.full (base ++ kws) w.dst t e)
        (PipeSound-moved E o H content key_of D (record p { world = w }) _
          ((Sound-on_dst E H (Any E) (E.dst_begin_append folder it.full (base ++ kws)) grow).at w
            h.world)
          (λ k. grow k w.dst) h)

  consume-Sound : (it : CopyItem) (p : Pipe E) → It it → S p → S (consume E o it p)
  unfolding consume
  consume-Sound it p is h = go p.cons_err
    where
      go :
          (e : Option Error)
          → S (elim e [ some e ↦ p | none ↦ begin E o it p (keywords_for E o it.pc.key p.world) ])
      go (some e) = h
      go none =
          let x = keywords_for E o it.pc.key p.world in
          begin-Sound it p x is (
            PipeSound-moved E o H content key_of D p x.1
              ((keywords_for-Sound it.pc.key).at p.world h.world)
              (λ k held.
                subst (H k) (sym ((keywords_for-dst it.pc.key p.world.dst).at p.world refl)) held)
              h)

  pub consume_all-Sound :
      (items : List CopyItem) (p : Pipe E) → All It items → S p → S (consume_all E o items p)
  unfolding consume_all
  consume_all-Sound [] p all h = h
  consume_all-Sound (it ∷ items) p all h =
      consume_all-Sound items _ all.1 (consume-Sound it p all.0 h)

  drain-Sound : (n : ℕ) (p : Pipe E) → S p → S (drain E o n p)
  unfolding drain
  drain-Sound zero p h = h
  drain-Sound (suc n) p h =
      go p.cons_err (drain-Sound n _ (PipeSound-settle_oldest E o H content key_of D p h))
    where
      go : {q : Pipe E} (e : Option Error) → S q → S (elim e [ some e ↦ p | none ↦ q ])
      go (some e) k = h
      go none k = k

  pub run_consumer-Sound :
      (items : List CopyItem) (w : World E)
      → All It items
      → I w
      → I (run_consumer E o items (start_pipe E o w)).world
  unfolding run_consumer
  run_consumer-Sound items w all h =
      (PipeSound-flush_records E o H content key_of D _ (
        drain-Sound _ _ (
          consume_all-Sound items (start_pipe E o w) all
            (record { world = h; records = tt; ring = tt })))).world
