-- ===== src/Lib.antt =====
-- fdm fetches mail, filters it and delivers it. A child process per account fetches mails one by one
-- (fetch-*.c, pop3-common.c, imap-common.c), takes each through the rules of the configuration
-- (mail-state.c), and delivers it at once or asks the parent process to (child-fetch.c, parent-*.c). A mail is a block of
-- shared memory (mail.c, shm-mmap.c); the connections read and write through byte buffers (buffer.c).
--
-- The modules:
--
--   Prelude, Outcome    shared names; what a C function does: it returns (`ok`), it calls `fatal` or
--                       `fatalx`, it reads or writes outside a block (`fault`), or the fuel of a loop
--                       is used up (`diverge`). `Ends F P m` says that `m` returns with `P` or stops
--                       the process for a reason in `F`, and does nothing else; `Returns P m` that it
--                       returns with `P`.
--   Buffer              buffer.c, with xmalloc and xrealloc of xmalloc.c. A `struct buffer` is a
--                       record; the block is the list of its bytes, so every access is checked
--                       against its length. One function for each buffer_ function.
--   Mail                the lines, the body and the headers of mail.c. Mail/Store: mail_open,
--                       mail_resize, append_line, trim_from, insert_header and remove_header;
--                       Mail/Wrap: fill_wrapped and set_wrapped. A pointer into a mail is the list of
--                       the bytes from there to its end. Mail/Append uses the block of Mail/Store and
--                       the invariant of Mail/Lines; Mail/Insert is about insert_header, and
--                       Mail/Total about functions that only have to end.
--   Rules               mail-state.c. Rules/Fill: fill_from_strings and what it calls;
--                       Rules/Matching: mail_match, one step for each call, the labels as functions;
--                       Rules/Deliver: mail_deliver, start_action, finish_action; Rules/Fit: the
--                       contexts that the two queues of Fetch hold. A rule with its nested and later
--                       rules is a tree, NULL its empty end.
--   Pop3                pop3-common.c. The handler that fctx->state points to is a constructor of
--                       `State`, a session is struct fetch_pop3_data with struct fetch_ctx; a handler
--                       takes it to a FETCH_ code and the next session. Pop3/Resolve: the answer to
--                       UIDL and the want queue; Pop3/Transfer: LIST, RETR and the lines of a mail,
--                       which go into Mail/Store; Pop3/Machine: the handler of the state at hand;
--                       Pop3/Account: the account of the mails.
--   Imap                imap-common.c, as Pop3: Imap/Login up to the end of the login, Imap/Folder the
--                       choice of a folder and the search in it, Imap/Fetch the mails and the end;
--                       Imap/Machine the handler of the state at hand. A line that is sent is a
--                       command behind its tag, or a literal. Imap/Account: the account of the mails;
--                       Imap/Literal: the lines of a mail; Imap/Search: the UIDs of a search.
--   Nntp                fetch-nntp.c, as Pop3: Nntp/States the states, Nntp/Cache the cache file as its
--                       bytes, Nntp/Machine the handler of the state at hand; an array of groups is a
--                       list, and ARRAY_ITEM behind its end a fault. Nntp/Safe: what holds between the
--                       calls; Nntp/Saved and Nntp/Restored: the cache file read back; Nntp/Lines: the
--                       lines of an article.
--   Netrc               netrc.c: the words of a file, and the lookup in it. Netrc/Ends: it returns;
--                       Netrc/Entries: what it finds.
--   Fetch               child-fetch.c: the globals of the file as a record, with the two queues of mails;
--                       Fetch/Enqueue: fetch_enqueue; Fetch/Walk: fetch_match, fetch_deliver and
--                       fetch_dequeue over the rule engine; Fetch/Loop: a round of the loop of
--                       fetch_account, up to the poll. Fetch/Settled: what is known of the queues;
--                       Fetch/Settled/Log: a fetch type that keeps a log of its commits, which
--                       Fetch/Settled/Commits and Fetch/Settled/Totals compare with the counters.
--   Strb                strb.c, with find_tag and match_tag of replace.c. A string block is its strings and,
--                       behind them, its slots; Strb/Pairs: the list of keys and values that it holds.
--   Replace             replace and submatch of replace.c, over the tags of Strb. The rest of the string
--                       is an argument of the loop, with `strip`; what is written is the result.
--   Io                  io_readline2, io_read2 and io_write of io.c, over Buffer. Io/Lines: the line that
--                       io_readline2 takes out.
--   Tests               the theorems at concrete inputs.
--
-- Numbers are those of the C code: `size_t` has 64 bits, `u_int` 32, with their wrap-around. Fuel: the
-- loops over lines have one round more than the mail has bytes, and a line has at least one byte;
-- buffer_ensure and mail_resize have 65 rounds, and each doubles a block that is not empty, so 64 bits
-- are passed before; the loop of strb_vadd has 65 rounds for the same reason, and replace has one for
-- each byte of its string and one more, as imap_state_search2 for
-- its line and fetch_nntp_load and netrc_lookup for their files; fill_from_strings has as much as its
-- counter `chained`, which every call takes one from. That it is enough is part of the theorems on these functions, or a
-- lemma beside them. The other
-- loops are by recursion on their list or on the replies at hand.
--
-- Parameters, as code that is not modelled: the allocator and the system's memory (`Allocator`,
-- `grants`); the matches, tags, replacements, users and deliveries of the rule engine (`Hooks`); the
-- splay trees of compat/tree.h, MD5, sscanf, the connection and the cache file of the POP3 client
-- (`Pop3Hooks`); strtonum, sscanf, base 64, HMAC and the connection of the IMAP client (`ImapHooks`);
-- the same, printf and the file system of the NNTP client (`NntpHooks`);
-- the fetch type of an account, and what fetch_enqueue takes from the clock, the names of
-- the host and the tags (`FetchHooks`); `fnmatch`, and the text that the format of a tag prints. A tree
-- is any type with its operations, as the theorems on the account use none of their laws.
--
-- Not modelled: match_header, find_address, make_from, mail_send and mail_receive of mail.c;
-- pop3_load, pop3_save and the free functions of pop3-common.c; the tags that the states of
-- POP3, IMAP and NNTP give a mail, the frees of imap_abort and fetch_nntp_abort, the locks of a cache
-- file, netrc_open; the other fetchers (maildir, mbox), the polling of io.c and its io_writeline, connect.c;
-- default_tags, update_tags and reset_tags of replace.c; fetch_poll and the start of a child, the parent process and its messages,
-- the configuration's parser, attachments, the single matches and deliveries, and logging. Freed
-- memory is not tracked, and a space that imap_tag writes over the NUL of a line is not kept. Replies,
-- and the words of netrc, are C strings with no NUL in them, and an IMAP session sends fewer than 2 ^ 31
-- commands.
pub mod Prelude
pub mod Outcome
pub mod Buffer
pub mod Mail
pub mod Rules
pub mod Pop3
pub mod Fetch
pub mod Strb
pub mod Replace
pub mod Io
pub mod Imap
pub mod Nntp
pub mod Netrc
pub mod Tests
