-- ===== src/Poll/Balance.antt =====
-- The loop over the ready clients of PollDemo/pollDemo.c.
use unix_net.Common.{
  ℕ, zero, suc, ◌+◌, ◌≡◌, refl, ap, Bool, Bool-cases, Option, none, some, List, [], ◌∷◌, arith, map,
  ◌==◌, length, inl, inr,
}
use unix_net.Sys.{Answer, Log, econnreset, pure}
use unix_net.Sys.Ensures.{Ensures, Ensures-and_then, closes}
use unix_net.CString.{to_upper}
use unix_net.Wrap.{ReadResult, got, failed, read, write, close, perr_exit}
use unix_net.Poll.{Slots, after_read, serve_client, serve_clients, maxline, decrement, none_left}
use unix_net.Poll.Calls.{held, count, read-Same, write-Same, close_one}
use unix_net.Poll.Place.{Keeps, Keeps-cons}

module _ (x : ℕ) where
  -- What a step that turns the slots `before` into others keeps: a descriptor is in the table or
  -- was closed, as often as before, and the table has its length.
  abbrev pub Balanced : Slots → Log → Slots → Log → Type 0
  Balanced before log after log' =
      (count x after + closes x log' ≡ count x before + closes x log)
      × (length after ≡ length before)
      × Keeps before after

  abbrev pub SlotBalanced : Option ℕ → Log → Option ℕ → Log → Type 0
  SlotBalanced before log after log' = held x after + closes x log' ≡ held x before + closes x log

  after_read_one :
      (fd : ℕ) (r : ReadResult) (w : List Answer) (start log : Log)
      → closes x log ≡ closes x start
      → Ensures (SlotBalanced (some fd) start) (after_read fd r w log)
  unfolding perr_exit
  after_read_one fd (failed e) w start log same = elim (Bool-cases (e == econnreset)) [
    | inl p ↦ rw p (
        Ensures-and_then _ _ (close fd w log) (λ _. pure none) (close_one x fd w log)
          λ _ w' log' h. omega (arith, h, same))
    | inr p ↦ rw p tt
  ]
  after_read_one fd (got []) w start log same =
      Ensures-and_then _ _ (close fd w log) (λ _. pure none) (close_one x fd w log)
        λ _ w' log' h. omega (arith, h, same)
  after_read_one fd (got (b ∷ bs)) w start log same =
      Ensures-and_then _ _ (write fd (map to_upper (b ∷ bs)) w log) (λ _. pure (some fd))
        (write-Same x fd (map to_upper (b ∷ bs)) w log) λ _ w' log' h. omega (arith, h, same)

  serve_client_one :
      (fd : ℕ) (w : List Answer) (log : Log)
      → Ensures (SlotBalanced (some fd) log) (serve_client fd w log)
  unfolding serve_client
  serve_client_one fd w log =
      Ensures-and_then _ _ (read fd maxline w log) (after_read fd) (read-Same x fd maxline w log)
        λ r w' log' h. after_read_one fd r w' log log' h

  -- Over the loop, a descriptor leaves the table exactly as often as it is closed.
  pub serve_clients_balance :
      (revents : ℕ → Bool) (rounds i nready : ℕ) (slots : Slots) (w : List Answer) (log : Log)
      → Ensures (Balanced slots log) (serve_clients revents rounds i nready slots w log)
  unfolding serve_clients
  serve_clients_balance revents zero i nready slots w log = (refl, refl, λ m free. free)
  serve_clients_balance revents (suc rounds) i nready [] w log = (refl, refl, λ m free. free)
  serve_clients_balance revents (suc rounds) i nready (none ∷ slots) w log =
      Ensures-and_then _ _ (serve_clients revents rounds (i + 1) nready slots w log) _
        (serve_clients_balance revents rounds (i + 1) nready slots w log)
        λ rest w' log' h. (omega (arith, h.0), ap suc h.1, Keeps-cons _ _ slots rest (λ f. f) h.2)
  serve_clients_balance revents (suc rounds) i nready (some fd ∷ slots) w log =
      elim (Bool-cases (revents i)) [
        | inl p ↦ rw p (
            Ensures-and_then _ _ (serve_client fd w log) _ (serve_client_one fd w log)
              λ slot w' log' h. elim (Bool-cases (none_left (decrement nready))) [
                | inl q ↦
                    rw q (
                      omega (arith, h),
                      refl,
                      Keeps-cons _ _ slots slots (λ f. absurd f) (λ m f. f),
                    )
                | inr q ↦ rw q (
                    Ensures-and_then _ _
                      (serve_clients revents rounds (i + 1) (decrement nready) slots w' log') _
                      (serve_clients_balance revents rounds (i + 1) (decrement nready) slots w'
                        log')
                      λ rest w'' log'' k. (
                        omega (arith, h, k.0),
                        ap suc k.1,
                        Keeps-cons _ _ slots rest (λ f. absurd f) k.2,
                      ))
              ])
        | inr p ↦ rw p (
            Ensures-and_then _ _ (serve_clients revents rounds (i + 1) nready slots w log) _
              (serve_clients_balance revents rounds (i + 1) nready slots w log)
              λ rest w' log' h.
                (omega (arith, h.0), ap suc h.1, Keeps-cons _ _ slots rest (λ f. f) h.2))
      ]
