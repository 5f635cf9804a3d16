-- ===== src/Sys/Trace.antt =====
-- What a log shows of a program to the outside.
use unix_net.Common.{ℕ, ◌==◌, if◌then◌else◌, List, [], ◌∷◌, ◌++◌, Bytes}
use unix_net.Sys.{Answer, bytes, Action, Log}

-- The messages that a program sent, in order; the log has the latest call first.
abbrev pub message : Action → List Bytes
message (Action.reply fd bs) = bs ∷ []
message (Action.send fd bs) = bs ∷ []
message (Action.sendto fd address port bs) = bs ∷ []
message _ = []

abbrev pub messages : Log → List Bytes
messages [] = []
messages (act ∷ log) = messages log ++ message act

-- What it printed.
abbrev pub output : Action → Bytes
output (Action.print text) = text
output _ = []

abbrev pub printed : Log → Bytes
printed [] = []
printed (act ∷ log) = printed log ++ output act

-- What is typed and what comes back in turn.
abbrev pub in_turn : List Bytes → List Bytes → List Answer
in_turn [] backs = []
in_turn (line ∷ lines) [] = bytes line ∷ []
in_turn (line ∷ lines) (back ∷ backs) = bytes line ∷ bytes back ∷ in_turn lines backs

-- What a buffered event was given to send.
abbrev pub buffered_bytes : ℕ → Action → Bytes
buffered_bytes x (Action.bev_write bev bs) = if bev == x then bs else []
buffered_bytes x _ = []

abbrev pub buffered : ℕ → Log → Bytes
buffered x [] = []
buffered x (act ∷ log) = buffered x log ++ buffered_bytes x act

-- The bytes that a descriptor was written, in order.
abbrev pub written_bytes : ℕ → Action → Bytes
written_bytes x (Action.write fd bs) = if fd == x then bs else []
written_bytes x _ = []

abbrev pub written : ℕ → Log → Bytes
written x [] = []
written x (act ∷ log) = written x log ++ written_bytes x act
