-- ===== src/Imap/Machine.antt =====
-- imap-common.c: the handler of the state at hand.
use fdm.Imap.{
  State, connect, connected, capability1, capability2, cram_md5_auth, login, user, pass, select1,
  select2, select3, select4, search1, search2, search3, next, body, line, mail, commit, expunge,
  close, quit, ImapHooks, Session, Step,
}
use fdm.Imap.Login.{
  state_connect, state_connected, state_capability1, state_capability2, state_cram_md5_auth,
  state_login, state_user, state_pass,
}
use fdm.Imap.Folder.{
  state_select1, state_select2, state_select3, state_select4, state_search1, state_search2,
  state_search3,
}
use fdm.Imap.Fetch.{
  state_next, state_body, state_line, state_mail, state_commit, state_expunge, state_close,
  state_quit,
}

module _ (h : ImapHooks) where
  -- `fctx->state(a, fctx)`.
  unfoldable pub handler : State → Session h → Step h
  handler connect = state_connect h
  handler connected = state_connected h
  handler capability1 = state_capability1 h
  handler capability2 = state_capability2 h
  handler cram_md5_auth = state_cram_md5_auth h
  handler login = state_login h
  handler user = state_user h
  handler pass = state_pass h
  handler select1 = state_select1 h
  handler select2 = state_select2 h
  handler select3 = state_select3 h
  handler select4 = state_select4 h
  handler search1 = state_search1 h
  handler search2 = state_search2 h
  handler search3 = state_search3 h
  handler next = state_next h
  handler body = state_body h
  handler line = state_line h
  handler mail = state_mail h
  handler commit = state_commit h
  handler expunge = state_expunge h
  handler close = state_close h
  handler quit = state_quit h
