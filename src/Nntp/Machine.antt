-- ===== src/Nntp/Machine.antt =====
-- fetch-nntp.c: the handler of the state at hand.
use fdm.Nntp.{
  State, connect, connected, auth1, auth2, switch, group, reset, stat, wait, next, article, line,
  quit, NntpHooks, Session, Step,
}
use fdm.Nntp.States.{
  state_connect, state_connected, state_auth1, state_auth2, state_switch, state_group, state_reset,
  state_stat, state_wait, state_next, state_article, state_line, state_quit,
}

module _ (h : NntpHooks) where
  -- `fctx->state(a, fctx)`.
  unfoldable pub handler : State → Session h → Step h
  handler connect = state_connect h
  handler connected = state_connected h
  handler auth1 = state_auth1 h
  handler auth2 = state_auth2 h
  handler switch = state_switch h
  handler group = state_group h
  handler reset = state_reset h
  handler stat = state_stat h
  handler wait = state_wait h
  handler next = state_next h
  handler article = state_article h
  handler line = state_line h
  handler quit = state_quit h
