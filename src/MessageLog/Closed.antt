-- ===== src/MessageLog/Closed.antt =====
-- A log of WebServer/test/log.c that is closed and used again.
use unix_net.Common.{
  ◌<◌, ◌≡◌, refl, ◌∷◌, true, false, none, some, Bytes, length, lt→ltb, Option-cases, inl, inr,
}
use unix_net.MessageLog.{
  Stream, file, State, Host, ◌>>=◌, log_line, put, msglog_info, msglog, open_stream, opened,
  open_warnings, msg_log_open, close_stream, msg_log_close, logprefix, opened_text, default_format,
}

-- The state that `msgLogOpen` leaves where both streams are there.
abbrev pub started : Bytes → State → State
started ident st = record st {
  msgopt = 17;
  wanopt = 17;
  msgdatefmt = default_format;
  wandatefmt = default_format;
  ident_name = ident;
}

abbrev pub shut : Stream → Stream
shut s = record s { live = false }

module _ (host : Host) (ident mpre mdate wpre wdate prefix : Bytes) where
  -- With both streams there, nothing is opened, and all hangs on the line that goes to the first.
  open_line :
      (st : State) (m w : Stream)
      → st.msgfile ≡ some m
      → st.wanfile ≡ some w
      → length ident < 100
      → logprefix host 17 default_format ident ≡ some prefix
      → msg_log_open host ident mpre mdate wpre wdate st ≡ (
          put
            (some m)
            (log_line prefix (opened_text host m w))
            (record (started ident st) { msgfile = some m; wanfile = some w })
          >>= λ st'. some (st', true))
  unfolding msg_log_open open_warnings open_stream opened msglog msglog_info
  open_line st m w hm hw short pre =
      rw (hm, hw)
        (rw (lt→ltb (length ident) 100 short) (
          rw pre
            (elim (Option-cases (
              put (some m) (log_line prefix (opened_text host m w))
                (record (started ident st) { msgfile = some m; wanfile = some w }))) [
                  | inl p ↦ rw p refl
                  | inr (s, p) ↦ rw p refl
                ])))

  -- Where an identity and the start of a line fit their arrays: a log whose two files are open can
  -- be opened again, which opens nothing and writes one more line. Once it is closed, its variables
  -- still point at the two streams, which are closed, so the same call again opens nothing and
  -- writes that line to a closed stream, which is undefined.
  pub msg_log_open-msg_log_close :
      (st : State) (m w : Stream)
      → st.msgfile ≡ some m
      → st.wanfile ≡ some w
      → m.live ≡ true
      → w.live ≡ true
      → length ident < 100
      → logprefix host 17 default_format ident ≡ some prefix
      → (msg_log_open host ident mpre mdate wpre wdate st
          ≡ some (
            record (started ident st) {
              msgfile = some m;
              wanfile = some w;
              out = (file m.name, log_line prefix (opened_text host m w)) ∷ st.out;
            },
            true,
          ))
        × (msg_log_close st ≡ some (record st { msgfile = some (shut m); wanfile = some (shut w) }))
        × (msg_log_open host ident mpre mdate wpre wdate
              (record st { msgfile = some (shut m); wanfile = some (shut w) })
            ≡ none)
  unfolding msg_log_close close_stream put
  msg_log_open-msg_log_close st m w hm hw lm lw short pre =
      let closed : State = record st { msgfile = some (shut m); wanfile = some (shut w) } in
      (
        rw (open_line st m w hm hw short pre) (rw lm refl),
        rw (hm, hw) (rw (lm, lw) refl),
        rw (open_line closed (shut m) (shut w) refl refl short pre) refl,
      )
