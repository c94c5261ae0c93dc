-- ===== src/Imap/Link.antt =====
-- The two clients of a session as the interfaces `Source` and `Dest` of the reconciler.
use umleitung.Base.{ℕ, Bool}
use umleitung.Base.Text.{Text}
use umleitung.Env.{Env, ImapNames}
use umleitung.Imap.Wire.{Wire}
use umleitung.Imap.Client.{
  Client, select_folder, select_named_folder, list_folders, search_all_uids,
}
use umleitung.Imap.Fetch.{fetch_meta_range, fetch_full_stream}
use umleitung.Imap.Search.{search_message_ids_in}
use umleitung.Imap.Append.{begin_append, wait_append, append_to}
use umleitung.Imap.Actions.{
  move_message_id, move_uids, store_keyword_by_message_id, store_keywords_uids,
}

-- `W` is the wire to both servers.
abbrev pub imap_env : Wire → ImapNames → (Text → Text) → (ℕ → Bool) → (ℕ → Bool) → (ℕ → ℕ) → Env
imap_env W names hex_sha256 faults done now = record {
  Src = Client W;
  Dst = Client W;
  Ticket = W.Command;
  names = names;
  hex_sha256 = hex_sha256;
  faults = faults;
  done = done;
  now = now;
  src_select_folder = select_folder W;
  src_select_named_folder = select_named_folder W;
  src_list_folders = list_folders W;
  src_search_all_uids = search_all_uids W;
  src_fetch_meta_range = fetch_meta_range W;
  src_fetch_full_stream = fetch_full_stream W;
  dst_select_named_folder = select_named_folder W;
  dst_fetch_meta_range = fetch_meta_range W;
  dst_search_message_ids_in = search_message_ids_in W;
  dst_append_to = append_to W;
  dst_begin_append = begin_append W;
  dst_wait = wait_append W;
  dst_move_message_id = move_message_id W;
  dst_move_uids = move_uids W;
  dst_store_keyword_by_message_id = store_keyword_by_message_id W;
  dst_store_keywords_uids = store_keywords_uids W;
}
