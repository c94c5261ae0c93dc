-- ===== src/Key/Laws.antt =====
-- What a dedup key tells of its message.
use umleitung.Base.{◌≡◌, refl, not, ◌&&◌, ◌++◌, arith, Bool-cases, inl, inr}
use umleitung.Base.Text.{Text, codes, ◌==◌, has_prefix, trim_space, len, decimal, show_int, eq_refl}
use umleitung.Base.Decimal.{cons-injective}
use umleitung.Base.Decimal.{
  split_at_separator, split_at_length, decimal-injective, show_int-injective, show_int-IsNumeric,
  decimal-IsDigit, IsNumeric, IsDigit,
}
use umleitung.Key.{MsgMeta, synth_prefix, synth_input, dedup_key, is_real_message_id}

-- The fields that make a synthesized key.
pub record SameFields (a b : MsgMeta) : Type 0 where
  pub internal_date : a.internal_date ≡ b.internal_date
  pub from : a.from ≡ b.from
  pub subject : a.subject ≡ b.subject
  pub size : a.size ≡ b.size

-- one `%d:%s`, length and text, and what follows
sized : Text → Text → Text
sized s rest = decimal (len s) ++ (codes ":" ++ (s ++ rest))

sized-injective : (s t x y : Text) → sized s x ≡ sized t y → (s ≡ t) × (x ≡ y)
unfolding sized
sized-injective s t x y e =
    let (l, r) =
      split_at_separator IsDigit b':' (λ h. omega arith) (decimal (len s)) (decimal (len t))
        (s ++ x) (t ++ y) (decimal-IsDigit (len s)) (decimal-IsDigit (len t)) e in
    split_at_length s t x y (decimal-injective (len s) (len t) l) r

synth_input-injective : (a b : MsgMeta) → synth_input a ≡ synth_input b → SameFields a b
unfolding synth_input sized
synth_input-injective a b e =
    let (d, r1) =
      split_at_separator IsNumeric b'|' (λ h. omega arith) (show_int a.internal_date)
        (show_int b.internal_date) _ _ (show_int-IsNumeric a.internal_date)
        (show_int-IsNumeric b.internal_date) e in
    let (f, r2) = sized-injective a.from b.from _ _ r1 in
    let (s, r3) = sized-injective a.subject b.subject _ _ (cons-injective r2).1 in
    record {
      internal_date = show_int-injective a.internal_date b.internal_date d;
      from = f;
      subject = s;
      size = decimal-injective a.size b.size (cons-injective r3).1;
    }

-- If the hash has no collision, two messages with no Message-ID that have the same key agree in
-- their date, From, Subject and size.
pub dedup_key-SameFields :
    (hex_sha256 : Text → Text)
    → ((s t : Text) → hex_sha256 s ≡ hex_sha256 t → s ≡ t)
    → (a b : MsgMeta) → trim_space a.message_id ≡ codes ""
    → trim_space b.message_id ≡ codes ""
    → dedup_key hex_sha256 a ≡ dedup_key hex_sha256 b
    → SameFields a b
unfolding dedup_key
dedup_key-SameFields hex_sha256 inj a b ea eb e =
    synth_input-injective a b (inj _ _ (split_at_length synth_prefix synth_prefix _ _ refl plain).1)
  where
    plain : synth_prefix ++ hex_sha256 (synth_input a) ≡ synth_prefix ++ hex_sha256 (synth_input b)
    plain = rw (ea, eb, eq_refl (codes "")) at e

-- A key can be searched for exactly when the message has a Message-ID, not counting white space
-- round it, that does not begin like a synthesized key.
pub is_real_message_id-dedup_key :
    (hex_sha256 : Text → Text) (m : MsgMeta)
    → is_real_message_id (dedup_key hex_sha256 m) ≡ (
        not (trim_space m.message_id == codes "")
        && not (has_prefix (trim_space m.message_id) synth_prefix))
unfolding is_real_message_id dedup_key has_prefix
is_real_message_id-dedup_key hex_sha256 m =
    elim (Bool-cases (trim_space m.message_id == codes "")) [ inl e ↦ rw e | inr e ↦ rw e ]
