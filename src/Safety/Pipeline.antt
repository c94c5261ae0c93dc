-- ===== src/Safety/Pipeline.antt =====
-- The copying keeps the invariant: a record is buffered behind a confirmation alone.
use mathlib.Core.Path.{subst}
use umleitung.Base.{
  ◌≡◌, refl, sym, Bool, true, false, not, ◌||◌, List, [], ◌∷◌, ◌++◌, length, leb, if◌then◌else◌,
  All, All-append, All-map,
}
use umleitung.Base.Text.{Text}
use umleitung.Base.Exec.{Error, Result, ok, err}
use umleitung.Key.{FullMessage}
use umleitung.State.Tables.{KeyRecord}
use umleitung.State.Store.{record_keys}
use umleitung.Env.{Env, Options, World, on_store, on_dst}
use umleitung.Mirror.Pipeline.{
  CopyItem, InflightAppend, Pipe, is_server_reject, fail, after_flush, flush_records, confirm,
  after_retry, after_wait, settle, settle_oldest, count_copy, flush_limit,
}
use umleitung.Safety.{DestLaws}
use umleitung.Safety.Frame.{Sound, Sound-on_dst}
use umleitung.Safety.Records.{Sound-record_keys}
use umleitung.Safety.Phases.{Any}

module _ (E : Env) (o : Options) (H : Text → E.Dst → Type 0) (content : FullMessage → Text)
    (key_of : E.Ticket → Text) (D : DestLaws E H content key_of) where
  abbrev I : World E → Type 0
  I = Sound H (Any E)

  -- the message is that of the candidate
  abbrev pub IsItem : CopyItem → Type 0
  IsItem it = content it.full ≡ it.pc.key

  pub record IsInflight (a : InflightAppend E) : Type 0 where
    pub of_ticket : key_of a.pa ≡ a.pc.key
    pub of_full : content a.full ≡ a.pc.key

  pub record PipeSound (p : Pipe E) : Type 0 where
    pub world : I p.world
    pub records : All (λ r. H r.key p.world.dst) p.records
    pub ring : All IsInflight p.ring

  pub PipeSound-fail : (e : Error) (p : Pipe E) → PipeSound p → PipeSound (fail E o e p)
  unfolding fail
  PipeSound-fail e p h = record { world = h.world; records = h.records; ring = h.ring }

  PipeSound-after_flush :
      (p : Pipe E) (x : Result (Unit {0}) × World E)
      → I x.1
      → x.1.dst ≡ p.world.dst
      → PipeSound p
      → PipeSound (after_flush E o p x)
  PipeSound-after_flush p (ok u, w) i e h = record { world = i; records = tt; ring = h.ring }
  PipeSound-after_flush p (err x, w) i e h = PipeSound-fail x _ (record {
    world = i;
    records = subst (λ s. All (λ r. H r.key s) p.records) (sym e) h.records;
    ring = h.ring;
  })

  pub PipeSound-flush_records : (p : Pipe E) → PipeSound p → PipeSound (flush_records E o p)
  unfolding flush_records
  PipeSound-flush_records p h = go p.records h.records
    where
      go :
          (rs : List KeyRecord)
          → All (λ r. H r.key p.world.dst) rs
          → PipeSound (elim rs [
            | [] ↦ p
            | r ∷ rest ↦ after_flush E o p (on_store (record_keys E.faults (r ∷ rest)) p.world)
          ])
      go [] ps = h
      go (r ∷ rest) ps =
          PipeSound-after_flush p _ (Sound-record_keys E H (Any E) (r ∷ rest) p.world ps h.world)
            refl h

  pub PipeSound-if :
      (b : Bool) (p q : Pipe E) → PipeSound p → PipeSound q → PipeSound (if b then p else q)
  PipeSound-if true p q hp hq = hp
  PipeSound-if false p q hp hq = hq

  -- the records stay true where the destination only gains messages
  pub PipeSound-moved :
      (p : Pipe E) (w : World E)
      → I w
      → ((k : Text) → H k p.world.dst → H k w.dst)
      → PipeSound p
      → PipeSound (record p { world = w })
  PipeSound-moved p w i grow h = record {
    world = i;
    records = All-map p.records (λ r. grow r.key) h.records;
    ring = h.ring;
  }

  PipeSound-confirm :
      (it : InflightAppend E) (landed : Bool) (p : Pipe E)
      → H it.pc.key p.world.dst
      → PipeSound p
      → PipeSound (confirm E o it landed p)
  unfolding confirm
  PipeSound-confirm it landed p held h =
      let p' : Pipe E = record p {
        world = record p.world { sum = count_copy E o landed p.world.sum };
        records =
            p.records
            ++ record { key = it.pc.key; uid = it.pc.uid; copied_at = E.now p.world.polls } ∷ [];
      } in
      let h' : PipeSound p' = record {
        world = h.world;
        records = All-append (λ r. H r.key p.world.dst) p.records _ h.records (held, tt);
        ring = h.ring;
      } in
      PipeSound-if (leb (flush_limit E o) (length p'.records)) _ _ (PipeSound-flush_records p' h')
        h'

  PipeSound-after_retry :
      (it : InflightAppend E) (p : Pipe E) (x : Result (Unit {0}) × World E)
      → (x.0 ≡ ok tt → H it.pc.key x.1.dst)
      → PipeSound (record p { world = x.1 })
      → PipeSound (after_retry E o it p x)
  PipeSound-after_retry it p (ok u, w) landed h = PipeSound-confirm it false _ (landed refl) h
  PipeSound-after_retry it p (err e, w) landed h = PipeSound-fail e _ h

  PipeSound-after_wait :
      (it : InflightAppend E) (p : Pipe E) (x : Result (Unit {0}) × World E)
      → IsInflight it
      → (x.0 ≡ ok tt → H it.pc.key x.1.dst)
      → PipeSound (record p { world = x.1 })
      → PipeSound (after_wait E o it p x)
  PipeSound-after_wait it p (ok u, w) a landed h =
      PipeSound-confirm it it.had_keywords _ (landed refl) h
  PipeSound-after_wait it p (err e, w) a landed h =
      let append = E.dst_append_to it.pc.dest_folder it.full it.base_flags in
      let grow = D.append_keeps it.pc.dest_folder it.full it.base_flags in
      PipeSound-if (not it.had_keywords || not (is_server_reject e)) _ _ (PipeSound-fail e _ h) (
        PipeSound-after_retry it p (on_dst append w)
          (λ e.
            subst (λ k. H k (append w.dst).1) a.of_full
              (D.appended it.pc.dest_folder it.full it.base_flags w.dst e))
          (PipeSound-moved (record p { world = w }) _
            ((Sound-on_dst E H (Any E) append grow).at w h.world) (λ k. grow k w.dst) h))

  PipeSound-settle :
      (it : InflightAppend E) (rest : List (InflightAppend E)) (p : Pipe E)
      → IsInflight it
      → All IsInflight rest
      → PipeSound p
      → PipeSound (settle E o it rest p)
  unfolding settle
  PipeSound-settle it rest p a all h =
      let w = p.world in
      let p' : Pipe E = record p { ring = rest } in
      let h' : PipeSound p' = record { world = h.world; records = h.records; ring = all } in
      PipeSound-after_wait it p' (on_dst (E.dst_wait it.pa) w) a
        (λ e. subst (λ k. H k (E.dst_wait it.pa w.dst).1) a.of_ticket (D.confirmed it.pa w.dst e))
        (PipeSound-moved p' _
          ((Sound-on_dst E H (Any E) (E.dst_wait it.pa) (D.wait_keeps it.pa)).at w h.world)
          (λ k. D.wait_keeps it.pa k w.dst) h')

  pub PipeSound-settle_oldest : (p : Pipe E) → PipeSound p → PipeSound (settle_oldest E o p)
  unfolding settle_oldest
  PipeSound-settle_oldest p h = go p.ring h.ring
    where
      go :
          (ring : List (InflightAppend E))
          → All IsInflight ring
          → PipeSound (elim ring [ [] ↦ p | it ∷ rest ↦ settle E o it rest p ])
      go [] all = h
      go (it ∷ rest) all = PipeSound-settle it rest p all.0 all.1 h
