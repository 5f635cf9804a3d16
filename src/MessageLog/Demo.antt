-- ===== src/MessageLog/Demo.antt =====
-- WebServer/test/log_demo.c: a program that uses the log once.
use unix_net.Common.{
  ℕ, ◌≤◌, ◌≡◌, refl, true, false, arith, Option, none, some, List, [], ◌∷◌, ◌++◌, Bytes, codes,
  length, ltb, if◌then◌else◌,
}
use unix_net.CString.Decimal.{decimal}
use unix_net.MessageLog.{
  Stream, Target, file, State, Host, ◌>>=◌, msg_info, msg_init, msg_log_open, msg_log_format,
  msg_log_close, close_stream, msglog, msglog_info, msglog_warn, put, open_stream, openfilename,
  open_warnings, opened, opened_text, logprefix, log_line, default_format,
}

-- The name of the program is printed from its third byte on. `host` is the system at the start, and
-- `later` after the two seconds that the program sleeps.
unfoldable pub log_demo : (host later : Host) → (name : Bytes) → ℕ → State → Option State
log_demo host later name now st = if ltb (length name) 2 then none else (do
  r ← msg_init host (codes "log_demo") st
  st₁ ← msglog host msg_info (codes "begin run program....") r.0
  st₂ ← msglog later 17 (codes "begin to game over..." ++ decimal now) st₁
  msg_log_close st₂)

abbrev live : Bytes → Stream
live name = record { name = name; live = true }

abbrev pub warning_file : Bytes
warning_file = codes "/home/itheima/log/log.sys_warn"

module _ (host later : Host) (name : Bytes) (now : ℕ) (st : State)
    (messages prefix prefix' : Bytes) where
  -- The lines of the program, the latest first.
  abbrev pub demo_lines : List (Target × Bytes)
  demo_lines =
      let bye = log_line prefix' (codes "begin to game over..." ++ decimal now) in
      (file warning_file, bye)
      ∷ (file messages, bye)
      ∷ (file messages, log_line prefix (codes "begin run program...."))
      ∷ (file messages, log_line prefix (opened_text host (live messages) (live warning_file)))
      ∷ []

  -- Where neither log is open yet, both files can be opened, and the names and the prefixes of the
  -- lines fit their arrays, the program comes to its end with exactly these lines added.
  pub log_demo_lem :
      st.msgfile ≡ none
      → st.wanfile ≡ none
      → 2 ≤ length name
      → openfilename host (codes "/home/itheima/log/tcpsvr") (codes "%y%m") ≡ some messages
      → host.fopen messages ≡ true
      → host.fopen warning_file ≡ true
      → logprefix host 17 default_format (codes "log_demo") ≡ some prefix
      → logprefix later 17 default_format (codes "log_demo") ≡ some prefix'
      → (st' : State) × (log_demo host later name now st ≡ some st')
        × (st'.out ≡ demo_lines ++ st.out)
  unfolding log_demo msg_init msg_log_open open_stream open_warnings opened msglog msglog_info
      msglog_warn put msg_log_format msg_log_close close_stream
  log_demo_lem hm hw long named fm fw p p' =
      let short : ltb (length name) 2 ≡ false = ground arith in
      let plain : openfilename host warning_file [] ≡ some warning_file =
        unfold openfilename in refl in
      (
        record {
          msgopt = 17;
          wanopt = 17;
          msgdatefmt = default_format;
          wandatefmt = default_format;
          ident_name = codes "log_demo";
          msgfile = some (record { name = messages; live = false });
          wanfile = some (record { name = warning_file; live = false });
          out = demo_lines ++ st.out;
        },
        rw (short, hm) (rw (named, fm) (rw hw (rw (plain, fw) (rw p (rw p (rw p' (rw p' refl))))))),
        refl,
      )
