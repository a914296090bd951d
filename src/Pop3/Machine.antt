-- ===== src/Pop3/Machine.antt =====
-- The POP3 session as a machine: the handler of the state at hand, and what happens to a session
-- between two calls.
use fdm.Pop3.Resolve.{state_cache2, state_cache3}
use fdm.Pop3.Transfer.{state_list, state_retr, state_line}
use fdm.Pop3.{
  State, connect, connected, user, stat, first, cache1, cache2, cache3, next, delete, reconnect,
  list, retr, line, quit, Pop3Hooks, Session, Step, state_connect, state_connected, state_user,
  state_stat, state_first, state_cache1, state_next, state_delete, state_reconnect, state_quit,
}

module _ (h : Pop3Hooks) where
  -- `fctx->state(a, fctx)`.
  unfoldable pub handler : State → Session h → Step h
  handler connect = state_connect h
  handler connected = state_connected h
  handler user = state_user h
  handler stat = state_stat h
  handler first = state_first h
  handler cache1 = state_cache1 h
  handler cache2 = state_cache2 h
  handler cache3 = state_cache3 h
  handler next = state_next h
  handler delete = state_delete h
  handler reconnect = state_reconnect h
  handler list = state_list h
  handler retr = state_retr h
  handler line = state_line h
  handler quit = state_quit h
