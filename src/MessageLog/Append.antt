-- ===== src/MessageLog/Append.antt =====
-- The lines that WebServer/test/log.c adds.
use unix_net.Common.{
  ℕ, ◌+◌, ◌≤◌, ◌≡◌, refl, ◌∙◌, ap, Option, none, some, List, [], ◌∷◌, ◌++◌, Bytes, arith, length,
  length-append, Bool-cases, inl, inr, append_assoc, if◌then◌else◌,
}
use unix_net.MessageLog.{
  Stream, Target, file, stderr, State, Host, ◌>>=◌, put, put_stderr, msglog_info, msglog_warn,
  msglog, logprefix, log_line, has, log_perror, msg_info, msg_warn,
}

-- What holds of a result, if there is one.
abbrev pub Holds : {A : Type 0} → (A → Type 0) → Option A → Type 0
Holds P none = Unit
Holds P (some a) = P a

Holds-bind :
    {A B : Type 0} (P : A → Type 0) (Q : B → Type 0) (o : Option A) (f : A → Option B)
    → Holds P o
    → ((a : A) → P a → Holds Q (f a))
    → Holds Q (o >>= f)
Holds-bind P Q none f h next = tt
Holds-bind P Q (some a) f h next = next a h

-- At most `n` lines were added, and nothing else changed.
abbrev pub Adds : ℕ → State → State → Type 0
Adds n st st' =
    (lines : List (Target × Bytes)) × (st' ≡ record st { out = lines ++ st.out })
    × (length lines ≤ n)

Adds-none : (n : ℕ) (st : State) → Adds n st st
Adds-none n st = ([], refl, omega arith)

Adds-one : (st : State) (line : Target × Bytes) → Adds 1 st (record st { out = line ∷ st.out })
Adds-one st line = (line ∷ [], refl, omega arith)

abbrev extended : List (Target × Bytes) → State → State
extended lines st = record st { out = lines ++ st.out }

Adds-trans : (m n : ℕ) (a b c : State) → Adds m a b → Adds n b c → Adds (m + n) a c
Adds-trans m n a b c (ls, e, h) (ks, d, k) = (
  ks ++ ls,
  d ∙ ap (extended ks) e ∙ rw (append_assoc ks ls a.out) refl,
  omega (arith, length-append ks ls, h, k),
)

put-Adds : (s : Option Stream) (line : Bytes) (st : State) → Holds (Adds 1 st) (put s line st)
unfolding put
put-Adds none line st = tt
put-Adds (some s) line st = elim (Bool-cases s.live) [
  | inl p ↦ rw p (Adds-one st (file s.name, line))
  | inr p ↦ rw p tt
]

any : {A : Type 0} (o : Option A) → Holds (λ _. Unit) o
any none = tt
any (some a) = tt

info-Adds : (host : Host) (text : Bytes) (st : State) → Holds (Adds 1 st) (msglog_info host text st)
unfolding msglog_info
info-Adds host text st =
    Holds-bind _ _ (logprefix host st.msgopt st.msgdatefmt st.ident_name) _ (any _)
      λ prefix _. put-Adds st.msgfile (log_line prefix text) st

stderr-Adds : (line : Bytes) (st : State) → Adds 1 st (put_stderr line st)
stderr-Adds line st = elim (Bool-cases (has st.wanopt log_perror)) [
  | inl p ↦ rw p (Adds-one st (stderr, line))
  | inr p ↦ rw p (Adds-none 1 st)
]

warn-Adds : (host : Host) (text : Bytes) (st : State) → Holds (Adds 2 st) (msglog_warn host text st)
unfolding msglog_warn
warn-Adds host text st =
    Holds-bind _ _ (logprefix host st.wanopt st.wandatefmt st.ident_name) _ (any _) λ prefix _.
      Holds-bind _ _ (put st.wanfile (log_line prefix text) st) _
        (put-Adds st.wanfile (log_line prefix text) st)
        λ st' h. Adds-trans 1 1 st st' _ h (stderr-Adds (log_line prefix text) st')

-- A call of `msglog` that comes to its end adds at most three lines and changes nothing else:
-- neither an option nor a format nor a stream.
pub msglog-Adds :
    (host : Host) (mtype : ℕ) (text : Bytes) (st : State)
    → Holds (Adds 3 st) (msglog host mtype text st)
unfolding msglog
msglog-Adds host mtype text st =
    Holds-bind (Adds 1 st) _ (if has mtype msg_info then msglog_info host text st else some st) _
      (elim (Bool-cases (has mtype msg_info)) [
        | inl p ↦ rw p (info-Adds host text st)
        | inr p ↦ rw p (Adds-none 1 st)
      ])
      λ st' h. elim (Bool-cases (has mtype msg_warn)) [
        | inl p ↦ rw p (more st' h (msglog_warn host text st') (warn-Adds host text st'))
        | inr p ↦ rw p (Adds-trans 1 2 st st' st' h (Adds-none 2 st'))
      ]
  where
    more :
        (st' : State)
        → Adds 1 st st'
        → (o : Option State) → Holds (Adds 2 st') o
        → Holds (Adds 3 st) o
    more st' h none k = tt
    more st' h (some st'') k = Adds-trans 1 2 st st' st'' h k
