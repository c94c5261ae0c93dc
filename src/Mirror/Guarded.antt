-- ===== src/Mirror/Guarded.antt =====
-- What the guard lets through.
use mathlib.Core.Path.{subst}
use umleitung.Base.{
  ◌≡◌, refl, sym, ◌∙◌, true, false, not, ◌&&◌, List, [], ◌∷◌, ◌++◌, Bool-cases, inl, inr, arith,
}
use umleitung.Base.Text.{contains-append, Text, contains, ◌==◌, eq_iff}
use umleitung.Base.Exec.{Result, ok, err, Exec, pure, ◌>>=◌}
use umleitung.Base.Hoare.{After, After-both, Triple, Triple-pure, Triple-bind}
use umleitung.Key.{is_real_message_id}
use umleitung.Env.{Env, Options, World, on_store, on_dst}
use umleitung.Routing.{dest_bucket_folders}
use umleitung.Mirror.{real_ids, kept_of, found_of, search_folders, record_found, drop_found, guard}
use umleitung.Mirror.Pipeline.{PendingCopy}
use umleitung.Mirror.Dedup.{keys_of_pending}
use umleitung.State.Store.{record_keys}

-- the keys that are kept are those that were not found
keys_of_pending-kept_of :
    (found : List Text) (pend : List PendingCopy) (k : Text)
    → contains (keys_of_pending (kept_of found pend)) k
      ≡ (contains (keys_of_pending pend) k && not (contains found k))
unfolding kept_of
keys_of_pending-kept_of found [] k = refl
keys_of_pending-kept_of found (p ∷ pend) k =
    let ih = keys_of_pending-kept_of found pend k in ground (arith, eq_iff p.key k)

contains-real_ids :
    (pend : List PendingCopy) (k : Text)
    → is_real_message_id k ≡ true
    → contains (real_ids pend) k ≡ contains (keys_of_pending pend) k
unfolding real_ids
contains-real_ids [] k r = refl
contains-real_ids (p ∷ pend) k r =
    let ih = contains-real_ids pend k r in ground (arith, eq_iff p.key k)

-- `In f k s`: the folder f of the destination has a message with the Message-ID k. A search finds it
-- if it is asked for, and no search removes it.
pub record GuardLaws (E : Env) (In : Text → Text → E.Dst → Type 0) : Type 0 where
  pub keeps :
      (f g k : Text) (ids : List Text) (s : E.Dst)
      → In f k s
      → In f k (E.dst_search_message_ids_in g ids s).1
  pub finds :
      (f k : Text) (ids ks : List Text) (s : E.Dst)
      → In f k s
      → contains ids k ≡ true
      → (E.dst_search_message_ids_in f ids s).0 ≡ ok ks
      → contains ks k ≡ true

module _ (E : Env) (o : Options) (In : Text → Text → E.Dst → Type 0) (G : GuardLaws E In)
    (f k : Text) where
  abbrev There : World E → Type 0
  There w = In f k w.dst

  abbrev Any : World E → Type 0
  Any w = Unit

  searched :
      (g : Text) (ids : List Text)
      → Triple There (on_dst {E = E} (E.dst_search_message_ids_in g ids)) (λ ks w. There w) Any
  searched g ids = record {
    run = λ w h.
        After-both There (λ ks w. There w) Any
          (on_dst {E = E} (E.dst_search_message_ids_in g ids) w) (G.keeps f g k ids w.dst h)
          (λ ks i. i) (λ i. tt);
  }

  After-known :
      (x : Result (List Text) × World E)
      → ((ks : List Text) → x.0 ≡ ok ks → contains ks k ≡ true)
      → After (λ ks w. contains ks k ≡ true) Any x
  After-known (ok ks, w) h = h ks refl
  After-known (err e, w) h = tt

  searched_here :
      (g : Text) (ids : List Text)
      → contains ids k ≡ true
      → g ≡ f
      → Triple There
          (on_dst {E = E} (E.dst_search_message_ids_in g ids))
          (λ ks w. contains ks k ≡ true)
          Any
  searched_here g ids c e = record {
    run = λ w h.
        After-known (on_dst {E = E} (E.dst_search_message_ids_in g ids) w)
          (λ ks. G.finds g k ids ks w.dst (subst (λ j. In j k w.dst) (sym e) h) c);
  }

  -- what is known beside the state stays so
  held_over : {A : Type 0} (P : Type 0) (m : Exec (World E) A) → Triple (λ w. P) m (λ a w. P) Any
  held_over P m = record {
    run = λ w h. After-both (λ w. P) (λ a w. P) Any (m w) h (λ a i. i) (λ i. tt);
  }

  searched_all :
      (ids folders : List Text)
      → contains ids k ≡ true
      → contains folders f ≡ true
      → Triple There (search_folders E o ids folders) (λ found w. contains found k ≡ true) Any
  unfolding search_folders
  searched_all ids [] c e = let n : ⊥ = cc in elim n [ ]
  searched_all ids (g ∷ folders) c e = elim (Bool-cases (g == f)) [
    | inl this ↦
        Triple-bind (on_dst {E = E} (E.dst_search_message_ids_in g ids)) _
          (searched_here g ids c ((eq_iff g f).0 this))
          (λ ks.
            Triple-bind (search_folders E o ids folders) _ (held_over (contains ks k ≡ true) _)
              (λ found.
                Triple-pure (ks ++ found)
                  (λ w h. let a = contains-append ks found k in ground arith)))
    | inr other ↦
        Triple-bind (on_dst {E = E} (E.dst_search_message_ids_in g ids)) _ (searched g ids) (λ ks.
          Triple-bind (search_folders E o ids folders) _
            (searched_all ids folders c (rw other at e))
            (λ found.
              Triple-pure (ks ++ found)
                (λ w h. let a = contains-append ks found k in ground arith)))
  ]

  -- a candidate with that key is not among those that are kept
  abbrev pub IsDropped : List PendingCopy → World E → Type 0
  IsDropped kept w = contains (keys_of_pending kept) k ≡ false

  abbrev NoneLeft : List PendingCopy → List Text → Type 0
  NoneLeft pend found = (contains (keys_of_pending pend) k && not (contains found k)) ≡ false

  dropped :
      (pend : List PendingCopy) (found : List Text)
      → Triple (λ w. NoneLeft pend found) (drop_found E o pend found) IsDropped Any
  dropped pend found =
      Triple-bind (record_found E o (found_of found pend)) _ (held_over (NoneLeft pend found) _)
        λ records.
          Triple-bind (on_store {E = E} (record_keys E.faults records)) _
            (held_over (NoneLeft pend found) _)
            λ u. Triple-pure (kept_of found pend) (λ w h. keys_of_pending-kept_of found pend k ∙ h)

  -- found, or not among the candidates at all
  looked_up :
      (pend : List PendingCopy) (ids : List Text)
      → contains ids k ≡ contains (keys_of_pending pend) k
      → contains (dest_bucket_folders o) f ≡ true
      → Triple There
          (search_folders E o ids (dest_bucket_folders o))
          (λ found w. NoneLeft pend found)
          Any
  looked_up pend ids c b = record {
    run = λ w h. elim (Bool-cases (contains ids k)) [
      | inl asked ↦ weaker _ ((searched_all ids (dest_bucket_folders o) asked b).run w h)
      | inr unasked ↦
          After-both (λ v. Unit) (λ found v. NoneLeft pend found) Any
            (search_folders E o ids (dest_bucket_folders o) w) tt (λ found i. ground arith)
            (λ i. tt)
    ];
  }
    where
      weaker :
          (x : Result (List Text) × World E)
          → After (λ found v. contains found k ≡ true) Any x
          → After (λ found v. NoneLeft pend found) Any x
      weaker (ok found, v) h = ground arith
      weaker (err e, v) h = tt

  guard_from :
      (pend : List PendingCopy) (ids : List Text)
      → contains ids k ≡ contains (keys_of_pending pend) k
      → contains (dest_bucket_folders o) f ≡ true
      → (w : World E) → There w
      → After IsDropped Any (
          (elim ids as (λ x. Exec (World E) (List PendingCopy)) [
            | [] ↦ pure pend
            | id ∷ rest ↦ do
              found ← search_folders E o (id ∷ rest) (dest_bucket_folders o)
              drop_found E o pend found
          ])
            w)
  guard_from pend [] c b w h = sym c
  guard_from pend (id ∷ rest) c b w h =
      (Triple-bind (search_folders E o (id ∷ rest) (dest_bucket_folders o)) _
          (looked_up pend (id ∷ rest) c b) (dropped pend)).run
        w h

-- If a search finds what it is asked for and removes nothing, the guard keeps no candidate with a
-- searchable Message-ID that a message of one of the destination's folders has.
pub guard-IsDropped :
    (E : Env) (o : Options) (In : Text → Text → E.Dst → Type 0) (G : GuardLaws E In) (f k : Text)
    (pend : List PendingCopy) (w : World E)
    → is_real_message_id k ≡ true
    → contains (dest_bucket_folders o) f ≡ true
    → In f k w.dst
    → After (IsDropped E o In G f k) (λ v. Unit) (guard E o pend w)
unfolding guard
guard-IsDropped E o In G f k pend w r b h =
    guard_from E o In G f k pend (real_ids pend) (contains-real_ids pend k r) b w h
