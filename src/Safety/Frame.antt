-- ===== src/Safety/Frame.antt =====
-- What the calls of a pass do to the invariant, and the parts that both the copying and the other
-- phases use.
use umleitung.Base.{ℕ, ◌≡◌, refl, true, List, zero, suc, ltb}
use umleitung.Base.Text.{Text}
use umleitung.Base.Exec.{Exec}
use umleitung.Base.Keeps.{Keeps, Keeps-bind, Keeps-then, Keeps-if, Keeps-pure, Keeps-raise}
use umleitung.Key.{MsgMeta}
use umleitung.State.Tables.{KeyRecord, has_row}
use umleitung.State.Store.{Conn, member_has}
use umleitung.Env.{
  Env, Options, Summary, World, on_store, on_src, on_dst, check_ctx, count, inside, assign,
  with_local,
}
use umleitung.Routing.Reads.{dest_folder_for-Keeps}
use umleitung.Routing.{dest_folder_for, labels_for}
use umleitung.Windows.{next_start, scan_window, scan_loop, scan_windows, batch_of}
use umleitung.Safety.Table.{SameCopied, Keeps-member_has, Keeps-member_folders}

-- Every recorded key is that of a message on the destination, and the source meets `J`.
abbrev pub Sound : {E : Env} → (Text → E.Dst → Type 0) → (E.Src → Type 0) → World E → Type 0
Sound H J w = ((k : Text) → has_row k w.conn.db.copied ≡ true → H k w.dst) × J w.src

module _ (E : Env) (H : Text → E.Dst → Type 0) (J : E.Src → Type 0) where
  pub Sound-on_store :
      {A : Type 0} (m : Exec Conn A)
      → ((rows : List KeyRecord) → Keeps (SameCopied rows) m)
      → Keeps (Sound H J) (on_store {E = E} m)
  Sound-on_store m k = record {
    at = λ w h. (λ x e. h.0 x (rw ((k w.conn.db.copied).at w.conn refl) at e), h.1);
  }

  pub Sound-on_dst :
      {A : Type 0} (m : Exec E.Dst A)
      → ((k : Text) (s : E.Dst) → H k s → H k (m s).1)
      → Keeps (Sound H J) (on_dst {E = E} m)
  Sound-on_dst m k = record { at = λ w h. (λ x e. k x w.dst (h.0 x e), h.1) }

  pub Sound-on_src :
      {A : Type 0} (m : Exec E.Src A)
      → ((s : E.Src) → J s → J (m s).1)
      → Keeps (Sound H J) (on_src {E = E} m)
  Sound-on_src m k = record { at = λ w h. (h.0, k w.src h.1) }

  pub Sound-count : (f : Summary → Summary) → Keeps (Sound H J) (count {E = E} f)
  Sound-count f = record { at = λ w h. h }

  pub Sound-check_ctx : Keeps (Sound H J) (check_ctx {E = E})
  Sound-check_ctx = record { at = λ w h. h }

module _ (E : Env) (o : Options) (H : Text → E.Dst → Type 0) (J : E.Src → Type 0) where
  pub Sound-member_has :
      (f k : Text) → Keeps (Sound H J) (on_store {E = E} (member_has E.faults f k))
  Sound-member_has f k = Sound-on_store E H J _ (λ rows. Keeps-member_has E.faults rows f k)

  pub Sound-dest_folder_for : (k : Text) → Keeps (Sound H J) (dest_folder_for E o k)
  Sound-dest_folder_for k = dest_folder_for-Keeps E o (Sound H J) Sound-member_has k

  pub Sound-labels_for : (k : Text) → Keeps (Sound H J) (labels_for E o k)
  unfolding labels_for
  Sound-labels_for k =
      Keeps-bind _ _ (Sound-on_store E H J _ (λ rows. Keeps-member_folders E.faults rows k))
        (λ fs. Keeps-pure _)

-- The loop over windows keeps what each window keeps.
module _ {S : Type 0} (P : S → Type 0) (check : Exec S (Unit {0})) (batch uid_next : ℕ)
    (fetch : ℕ → ℕ → Exec S (List MsgMeta)) (fn : ℕ → List MsgMeta → Exec S (Unit {0}))
    (window : (start : ℕ) → Keeps P (scan_window check batch uid_next fetch fn start)) where
  pub Keeps-scan_loop :
      (fuel start : ℕ) → Keeps P (scan_loop check batch uid_next fetch fn fuel start)
  unfolding scan_loop
  Keeps-scan_loop zero start = Keeps-raise _
  Keeps-scan_loop (suc fuel) start =
      Keeps-if (ltb start uid_next) _ _
        (Keeps-then _ _ (window start) (Keeps-scan_loop fuel (next_start batch start)))
        (Keeps-pure tt)

-- Windows whose callback keeps `P` whatever was fetched.
pub Keeps-scan_windows :
    {S : Type 0} (P : S → Type 0) (check : Exec S (Unit {0})) (o : Options) (first uid_next : ℕ)
    (fetch : ℕ → ℕ → Exec S (List MsgMeta)) (fn : ℕ → List MsgMeta → Exec S (Unit {0}))
    → Keeps P check
    → ((a b : ℕ) → Keeps P (fetch a b))
    → ((stop : ℕ) (ms : List MsgMeta) → Keeps P (fn stop ms))
    → Keeps P (scan_windows check o first uid_next fetch fn)
unfolding scan_windows scan_window
Keeps-scan_windows P check o first uid_next fetch fn kc kf kn =
    Keeps-scan_loop P check (batch_of o) uid_next fetch fn
      (λ start. Keeps-then check _ kc (Keeps-bind (fetch start _) _ (kf start _) (kn _))) _ first

-- Loops with variables of their own.
module _ {E : Env} {A : Type 0} (P : World E → Type 0) where
  abbrev pub Outer : World E × A → Type 0
  Outer s = P s.0

  pub Keeps-inside : {B : Type 0} (m : Exec (World E) B) → Keeps P m → Keeps Outer (inside m)
  Keeps-inside m k = record { at = λ s h. k.at s.0 h }

  pub Keeps-assign : (f : A → A) → Keeps Outer (assign f)
  Keeps-assign f = record { at = λ s h. h }

  pub Keeps-with_local :
      (a : A) (m : Exec (World E × A) (Unit {0})) → Keeps Outer m → Keeps P (with_local a m)
  Keeps-with_local a m k = record { at = λ w h. k.at (w, a) h }
