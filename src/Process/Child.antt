-- ===== src/Process/Child.antt =====
-- The child and the signal handler of TcpServerDemo/process_tcp_server.c.
use unix_net.Common.{
  ℕ, zero, suc, ◌≤◌, ◌<◌, ◌≡◌, refl, ap, ◌∙◌, true, List, [], ◌∷◌, ◌++◌, Bytes, arith, All, length,
  drop, map, replicate,
}
use unix_net.Sys.{Answer, fail, ret, bytes, Action, Log, ok, exited, blocked}
use unix_net.CString.{mem}
use unix_net.Files.{overlay}
use unix_net.Wrap.Retry.{asked, asked-cons}
use unix_net.Process.{reap, child_loop, child}

-- Neither a child that was reaped nor the answer 0, which says that children live but none has
-- ended, ends the handler: it asks again after each, and only a failure ends it.
pub reap_lem :
    (pids : List ℕ) (e : ℕ) (w : List Answer) (log : Log)
    → (reap (map ret pids ++ (fail e ∷ w)) log
        ≡ ok tt w (asked (suc (length pids)) Action.waitpid log))
      × (reap (map ret pids) log ≡ blocked (asked (suc (length pids)) Action.waitpid log))
unfolding reap
reap_lem [] e w log = (refl, refl)
reap_lem (pid ∷ pids) e w log =
    let (ends, waits) = reap_lem pids e w (Action.waitpid ∷ log) in
    let same = asked-cons (suc (length pids)) Action.waitpid log in
    (ends ∙ ap (ok tt w) same, waits ∙ ap blocked same)

-- The array ends with a zero behind its first `n` bytes.
abbrev Ends : ℕ → Bytes → Type 0
Ends n buf = drop n buf ≡ 0 ∷ []

Ends-mem : (n : ℕ) (buf : Bytes) → Ends n buf → mem 0 buf ≡ true
unfolding mem
Ends-mem zero buf h = rw h refl
Ends-mem (suc n) [] h = ground arith
Ends-mem (suc n) (b ∷ buf) h = rw (Ends-mem n buf h) (ground arith)

Ends-overlay : (n : ℕ) (bs buf : Bytes) → length bs ≤ n → Ends n buf → Ends n (overlay bs buf)
Ends-overlay n [] buf k h = h
Ends-overlay zero (b ∷ bs) buf k h = absurd (omega arith)
Ends-overlay (suc n) (b ∷ bs) [] k h = ground arith
Ends-overlay (suc n) (b ∷ bs) (c ∷ buf) k h = Ends-overlay n bs buf (omega arith) h

-- The texts that come: not empty, and none fills the array.
abbrev pub IsText : Bytes → Type 0
IsText text = (0 < length text) × (length text < 1024)

abbrev pub echoed : ℕ → List Bytes → Log → Log
echoed fd [] log = log
echoed fd (text ∷ texts) log = echoed fd texts (Action.write fd text ∷ Action.read fd 1024 ∷ log)

child_loop_lem :
    (fd : ℕ) (texts : List Bytes) (buf : Bytes) (w : List Answer) (log : Log)
    → All IsText texts
    → Ends 1023 buf
    → child_loop fd buf (map bytes texts ++ (bytes [] ∷ w)) log
      ≡ exited 0 (Action.close fd ∷ Action.read fd 1024 ∷ echoed fd texts log)
unfolding child_loop
child_loop_lem fd [] buf w log h ends = refl
child_loop_lem fd ([] ∷ texts) buf w log h ends = absurd (omega (arith, h.0.0))
child_loop_lem fd ((b ∷ bs) ∷ texts) buf w log h ends =
    let next : Ends 1023 (overlay (b ∷ bs) buf) =
      Ends-overlay 1023 (b ∷ bs) buf (omega (arith, h.0.1)) ends in
    rw (Ends-mem 1023 (overlay (b ∷ bs) buf) next)
      (child_loop_lem fd texts (overlay (b ∷ bs) buf) w _ h.1 next)

-- The child gives up the listening descriptor, sends back every text in turn as it came, and when
-- the client closes, closes its descriptor and exits with status 0, if every text is shorter than
-- the array of 1024 bytes.
pub child_echoes :
    (sock_fd fd : ℕ) (texts : List Bytes) (w : List Answer) (log : Log)
    → All IsText texts
    → child sock_fd fd (map bytes texts ++ (bytes [] ∷ w)) log
      ≡ exited 0
          (Action.close fd ∷ Action.read fd 1024 ∷ echoed fd texts (Action.close sock_fd ∷ log))
unfolding child
child_echoes sock_fd fd texts w log h =
    child_loop_lem fd texts (replicate 1024 0) w (Action.close sock_fd ∷ log) h refl
