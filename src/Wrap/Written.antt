-- ===== src/Wrap/Written.antt =====
-- `Writen` against the bytes that the system takes.
use mathlib.Core.List.{reverse_aux}
use unix_net.Common.{
  ℕ, ◌<◌, ◌≤◌, ◌≡◌, refl, ap, ◌∙◌, some, List, [], ◌∷◌, ◌++◌, Bytes, length, take, drop, arith,
  Bool, false, ◌≢◌, take-append-drop, ◌==◌,
}
use unix_net.Sys.{Answer, fail, ret, value, Action, Log, Run, ok, eintr}
use unix_net.Wrap.{writen_loop, writen}

-- The system takes a part of what is left at each call that no signal interrupts, until all of
-- it is taken.
pub data Takes : Bytes → List Answer → Type 0 where
  done : {w : List Answer} → Takes [] w
  again : {bs : Bytes} {w : List Answer} → bs ≢ [] → Takes bs w → Takes bs (fail eintr ∷ w)
  part :
      {bs : Bytes} {n : ℕ} {w : List Answer}
      → 0 < n
      → n ≤ length bs
      → Takes (drop n bs) w
      → Takes bs (ret n ∷ w)

-- The bytes that the system took, call by call: of each buffer the count that was answered.
abbrev pub transferred : List Answer → Log → Bytes
transferred (a ∷ w) (Action.write fd bs ∷ acts) = take (value a) bs ++ transferred w acts
transferred _ _ = []

-- The calls of a run in their order, with the answers that they had.
pub record Sends (fd : ℕ) (bs : Bytes) (w : List Answer) (log : Log) (r : Run Bool) : Type 0 where
  pub used : List Answer
  pub left : List Answer
  pub acts : Log
  pub splits : w ≡ used ++ left
  pub result : r ≡ ok Bool.true left (reverse_aux acts log)
  pub all_sent : transferred used acts ≡ bs

module _ (fd : ℕ) where
  Sends-cons :
      {bs : Bytes} {w : List Answer} {log : Log} {r : Run Bool} (a : Answer)
      → Sends fd (drop (value a) bs) w (Action.write fd bs ∷ log) r
      → Sends fd bs (a ∷ w) log r
  Sends-cons {bs} a s = record {
    used = a ∷ s.used;
    left = s.left;
    acts = Action.write fd bs ∷ s.acts;
    splits = ap (◌∷◌ a) s.splits;
    result = s.result;
    all_sent = ap (◌++◌ (take (value a) bs)) s.all_sent ∙ take-append-drop (value a) bs;
  }

  writen_loop-Sends :
      {bs : Bytes} {w : List Answer} (log : Log)
      → Takes bs w
      → Sends fd bs w log (writen_loop fd bs w log)
  unfolding writen_loop
  writen_loop-Sends log done = record {
    used = [];
    left = _;
    acts = [];
    splits = refl;
    result = refl;
    all_sent = refl;
  }
  writen_loop-Sends log (again {bs = []} ne t) = absurd (ne refl)
  writen_loop-Sends log (again {bs = b ∷ bs} ne t) =
      Sends-cons (fail eintr) (writen_loop-Sends (Action.write fd (b ∷ bs) ∷ log) t)
  writen_loop-Sends log (part {bs = []} p h t) = absurd (omega arith)
  writen_loop-Sends log (part {bs = b ∷ bs} {n} p h t) =
      let positive : (n == 0) ≡ false = ground arith in
      rw positive (Sends-cons (ret n) (writen_loop-Sends (Action.write fd (b ∷ bs) ∷ log) t))

-- Where the system goes on taking bytes, `Writen` returns the length of the buffer, and what the
-- system took, in the order of the calls, is the buffer.
pub writen_all :
    (fd : ℕ) {bs : Bytes} {w : List Answer} (log : Log)
    → Takes bs w
    → (used left : List Answer) × (acts : Log) × (w ≡ used ++ left)
      × (writen fd bs w log ≡ ok (some (length bs)) left (reverse_aux acts log))
      × (transferred used acts ≡ bs)
unfolding writen
writen_all fd log t =
    let s = writen_loop-Sends fd log t in
    (s.used, s.left, s.acts, s.splits, rw s.result, s.all_sent)
