-- ===== src/EventWeb/Gets.antt =====
-- What the calls of the libevent web server add to what a client's buffered event is given.
use unix_net.Common.{
  ℕ, ◌≡◌, refl, sym, ◌∙◌, Bool-cases, inl, inr, [], ◌∷◌, ◌++◌, Bytes, ◌==◌, if◌then◌else◌,
  append_assoc, append-nil,
}
use unix_net.Sys.{Action, Log}
use unix_net.Sys.Trace.{buffered}

-- Writes to one client's buffered event add to that one and to no other.
pub record Adds (bev : ℕ) (text : Bytes) (log log' : Log) : Type 0 where
  pub seen : (x : ℕ) → buffered x log' ≡ buffered x log ++ (if bev == x then text else [])

pub Adds-nothing : (bev : ℕ) (log : Log) → Adds bev [] log log
Adds-nothing bev log = record {
  seen = λ x. elim (Bool-cases (bev == x)) [
    | inl p ↦ rw p (sym (append-nil _))
    | inr p ↦ rw p (sym (append-nil _))
  ];
}

pub Adds-then :
    {bev : ℕ} {s t : Bytes} {log log' log'' : Log}
    → Adds bev s log log'
    → Adds bev t log' log''
    → Adds bev (s ++ t) log log''
Adds-then {bev} {s} {t} h k = record {
  seen = λ x. elim (Bool-cases (bev == x)) [
    | inl p ↦ k.seen x ∙ rw (h.seen x, p) (append_assoc _ s t)
    | inr p ↦ k.seen x ∙ rw (h.seen x, p) (append-nil _)
  ];
}

pub Adds-write :
    (bev : ℕ) (bs : Bytes) (log : Log) → Adds bev bs log (Action.bev_write bev bs ∷ log)
Adds-write bev bs log = record { seen = λ x. refl }

-- Calls that are no writes.
pub Adds-silent :
    {bev : ℕ} {s : Bytes} {log log' log'' : Log}
    → Adds bev s log log'
    → ((x : ℕ) → buffered x log'' ≡ buffered x log')
    → Adds bev s log log''
Adds-silent h same = record { seen = λ x. same x ∙ h.seen x }
