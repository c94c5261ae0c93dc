-- ===== src/Imap/Laws.antt =====
-- What the reconciler relies on, from what the wire does: documented behaviour of IMAP servers and of
-- go-imap. No call deletes a message of its own accord, FETCH shows what is there, an APPEND that is
-- confirmed has stored what was written, with its date.
pub mod Keep
pub mod Hold
pub mod Rounds
pub mod Provide
use umleitung.Base.{ℕ, ◌≡◌, Bool, false, Option, List, [], All}
use umleitung.Base.Text.{Text, ℤ, ◌==◌}
use umleitung.Base.Exec.{ok}
use umleitung.Key.{FullMessage, dedup_key}
use umleitung.Imap.Wire.{Wire, FetchBuffer, UidSet, Criteria}
use umleitung.Imap.Fetch.{meta_of}

-- `Holds k c`: the server behind `c` has a message with the key k. `key_of` is the key of what is
-- written to an APPEND, `sent_key raw time` that of a message appended with a date.
pub record WireDestLaws (W : Wire) (hex : Text → Text) (Holds : Text → W.Conn → Type 0)
    (key_of : W.Command → Text) (sent_key : Text → Option ℤ → Text) : Type 0 where
  pub connect_keeps : (k : Text) (c : W.Conn) → Holds k c → Holds k (W.connect c).1
  pub select_keeps : (f k : Text) (c : W.Conn) → Holds k c → Holds k (W.select f c).1
  pub create_keeps : (f k : Text) (c : W.Conn) → Holds k c → Holds k (W.create f c).1
  pub search_keeps :
      (q : Criteria) (k : Text) (c : W.Conn) → Holds k c → Holds k (W.uid_search q c).1
  pub headers_keeps :
      (us : UidSet) (k : Text) (c : W.Conn) → Holds k c → Holds k (W.fetch_headers us c).1
  pub append_keeps :
      (f : Text) (n : ℕ) (flags : List Text) (time : Option ℤ) (k : Text) (c : W.Conn)
      → Holds k c
      → Holds k (W.append f n flags time c).1
  pub write_keeps :
      (a : W.Command) (raw k : Text) (c : W.Conn) → Holds k c → Holds k (W.write a raw c).1
  pub close_keeps : (a : W.Command) (k : Text) (c : W.Conn) → Holds k c → Holds k (W.close a c).1
  pub wait_keeps : (a : W.Command) (k : Text) (c : W.Conn) → Holds k c → Holds k (W.wait a c).1
  pub move_keeps : (us : List ℕ) (f k : Text) (c : W.Conn) → Holds k c → Holds k (W.move us f c).1
  pub store_keeps :
      (us : List ℕ) (add : Bool) (flags : List Text) (k : Text) (c : W.Conn)
      → Holds k c
      → Holds k (W.store us add flags c).1
  pub shown :
      (us : UidSet) (c : W.Conn)
      → All
          (λ b. Holds (dedup_key hex (meta_of W b)) (W.fetch_headers us c).1)
          (W.fetch_headers us c).0.0
  pub carried :
      (f : Text) (n : ℕ) (flags : List Text) (time : Option ℤ) (raw : Text) (c : W.Conn)
      (a : W.Command)
      → (W.write (W.append f n flags time c).0 raw (W.append f n flags time c).1).0 ≡ ok a
      → key_of a ≡ sent_key raw time
  pub stored :
      (a : W.Command) (c : W.Conn) → (W.wait a c).0 ≡ ok tt → Holds (key_of a) (W.wait a c).1

-- `key_at c u`: the key of the message under the UID u in the selected folder. A body that is not
-- empty is that of the message whose header FETCH shows.
pub record WireSourceLaws (W : Wire) (hex : Text → Text) (key_at : W.Conn → ℕ → Text)
    (sent_key : Text → Option ℤ → Text) (date_of : ℤ → Option ℤ) : Type 0 where
  pub shown :
      (us : UidSet) (c : W.Conn)
      → All
          (λ b. dedup_key hex (meta_of W b) ≡ key_at (W.fetch_headers us c).1 b.uid)
          (W.fetch_headers us c).0.0
  pub bodies :
      (us : List ℕ) (c : W.Conn)
      → All
          (λ b.
            (b.section == []) ≡ false
            → sent_key b.section (date_of b.internal_date) ≡ key_at c b.uid)
          (W.fetch_bodies us c).0.0
