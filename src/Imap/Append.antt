-- ===== src/Imap/Append.antt =====
-- internal/imapx/client.go: `BeginAppend`, `Wait` and `AppendTo`.
use umleitung.Base.{Bool, false, Option, none, some, List, length, ◌==◌ as nat_eq, if◌then◌else◌}
use umleitung.Base.Text.{Text, ℤ, pos, negsuc}
use umleitung.Base.Exec.{Result, ok, err, Exec, pure, ◌>>=◌, ◌>>◌}
use umleitung.Key.{FullMessage}
use umleitung.Imap.Wire.{Wire}
use umleitung.Imap.Client.{Client, on_conn}

-- `time.Time.IsZero`: the first second of year 1
unfoldable pub is_zero : ℤ → Bool
is_zero (pos n) = false
is_zero (negsuc n) = nat_eq n 62135596799

-- the date that APPEND gets
unfoldable pub append_time : FullMessage → Option ℤ
append_time m = if is_zero m.internal_date then none else some m.internal_date

module _ (W : Wire) where
  -- the literal, then its end; a literal that cannot be written is ended too
  abbrev pub after_write : W.Command → Result W.Command × Client W → Result W.Command × Client W
  after_write cmd (err e, cl) = (err e, (on_conn (W.close cmd) cl).1)
  after_write cmd (ok sent, cl) = (do on_conn (W.close sent); pure sent) cl

  unfoldable pub begin_append : Text → FullMessage → List Text → Exec (Client W) W.Command
  begin_append folder m flags cl =
      let x = W.append folder (length m.raw) flags (append_time m) cl.c in
      after_write x.0 (on_conn (W.write x.0 m.raw) (record cl { c = x.1 }))

  -- `pendingAppend.Wait`
  unfoldable pub wait_append : W.Command → Exec (Client W) (Unit {0})
  wait_append cmd = on_conn (W.wait cmd)

  unfoldable pub append_to : Text → FullMessage → List Text → Exec (Client W) (Unit {0})
  append_to folder m flags = do cmd ← begin_append folder m flags; wait_append cmd

  -- `Append`: to the folder of the endpoint
  unfoldable pub append_own : FullMessage → List Text → Exec (Client W) (Unit {0})
  append_own m flags cl = append_to cl.folder m flags cl
