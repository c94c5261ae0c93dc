-- ===== src/Key.antt =====
-- internal/reconcile/key.go, and the message types of internal/imapx/client.go.
pub mod Laws
use umleitung.Base.{ℕ, Bool, not, List, ◌++◌, if◌then◌else◌}
use umleitung.Base.Text.{Text, codes, ◌==◌, has_prefix, trim_space, len, decimal, ℤ, show_int}

-- `imapx.MsgMeta`. A flag is its text. `InternalDate` is its `Unix()` value.
pub record MsgMeta : Type 0 where
  pub uid : ℕ
  pub message_id : Text
  pub from : Text
  pub subject : Text
  pub internal_date : ℤ
  pub size : ℕ
  pub flags : List Text

-- `imapx.FullMessage`
pub record FullMessage : Type 0 where
  pub uid : ℕ
  pub raw : Text
  pub flags : List Text
  pub internal_date : ℤ

-- `imapx.FolderInfo`
pub record FolderInfo : Type 0 where
  pub name : Text
  pub attrs : List Text

abbrev pub synth_prefix : Text
synth_prefix = codes "synth-sha256:"

-- What is hashed: `"%d|%d:%s|%d:%s|%d"`.
unfoldable pub synth_input : MsgMeta → Text
synth_input m =
    show_int m.internal_date
    ++ (codes "|"
        ++ (decimal (len m.from)
            ++ (codes ":"
                ++ (m.from
                    ++ (codes "|"
                        ++ (decimal (len m.subject)
                            ++ (codes ":" ++ (m.subject ++ (codes "|" ++ decimal m.size)))))))))

-- `hex_sha256` is the hexadecimal digest of crypto/sha256 and encoding/hex.
unfoldable pub dedup_key : (Text → Text) → MsgMeta → Text
dedup_key hex_sha256 m =
    let id = trim_space m.message_id in
    if not (id == codes "") then id else synth_prefix ++ hex_sha256 (synth_input m)

unfoldable pub is_real_message_id : Text → Bool
unfolding has_prefix
is_real_message_id key = not (has_prefix key synth_prefix)
